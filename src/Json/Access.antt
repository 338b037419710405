-- ===== src/Json/Access.antt =====
-- Values and Python's operations on them.
use ev4_constructability_eng.Base.{
  ℕ, suc, ◌^◌, String, Bool, true, false, not, ◌&&◌, Option, none, some, List, [], ◌∷◌, map, ◌==◌,
  nat_eq, if◌then◌else◌, is_empty, str_in,
}
use ev4_constructability_eng.Base.Int.{ℤ, pos, int_eq, scale}
use ev4_constructability_eng.Base.Python.{attribute_error, type_error, Py, ok, raise}

mutual
  pub data Json : Type 0 where
    null : Json
    bool : Bool → Json
    int : ℤ → Json
    real : ℤ → ℕ → Json
    str : String → Json
    arr : Items → Json
    obj : Fields → Json

  pub data Items : Type 0 where
    nil : Items
    item : Json → Items → Items

  pub data Fields : Type 0 where
    end : Fields
    field : String → Json → Fields → Fields

abbrev pub elems : Items → List Json
elems nil = []
elems (item v vs) = v ∷ elems vs

abbrev pub pairs : Fields → List (String × Json)
pairs end = []
pairs (field k v fs) = (k, v) ∷ pairs fs

-- The lookup of a key; a dict has each key once.
abbrev pub lookup : String → Fields → Option Json
lookup k end = none
lookup k (field j v fs) = if j == k then some v else lookup k fs

abbrev pub or_null : Option Json → Json
or_null none = null
or_null (some v) = v

-- `d.get(k)` of a dict.
abbrev pub value_at : String → Fields → Json
value_at k fs = or_null (lookup k fs)

abbrev is_some : Option Json → Bool
is_some none = false
is_some (some v) = true

-- `k in d`
abbrev pub has_key : String → Fields → Bool
has_key k fs = is_some (lookup k fs)

-- `bool(v)`
abbrev pub truthy : Json → Bool
truthy null = false
truthy (bool b) = b
truthy (int n) = not (int_eq n (pos 0))
truthy (real n k) = not (int_eq n (pos 0))
truthy (str s) = not (s == "")
truthy (arr nil) = false
truthy (arr (item v vs)) = true
truthy (obj end) = false
truthy (obj (field k v fs)) = true

-- `a or b`
abbrev pub or_else : Json → Json → Json
or_else a b = if truthy a then a else b

-- `v is True`
abbrev pub is_true : Json → Bool
is_true (bool b) = b
is_true _ = false

-- `v is False`
abbrev pub is_false : Json → Bool
is_false (bool b) = not b
is_false _ = false

abbrev pub is_null : Json → Bool
is_null null = true
is_null _ = false

-- `v == "…"`
abbrev pub is_str : String → Json → Bool
is_str s (str t) = t == s
is_str s _ = false

abbrev pub is_obj : Json → Bool
is_obj (obj fs) = true
is_obj _ = false

abbrev pub is_arr : Json → Bool
is_arr (arr vs) = true
is_arr _ = false

-- `isinstance(v, str) and v`
abbrev pub is_text : Json → Bool
is_text (str s) = not (s == "")
is_text _ = false

-- A number as n / 10^k: in Python `True` is 1 and `False` is 0.
abbrev pub number : Json → Option (ℤ × ℕ)
number (bool true) = some (pos 1, 0)
number (bool false) = some (pos 0, 0)
number (int n) = some (n, 0)
number (real n k) = some (n, k)
number _ = none

abbrev num_eq : Option (ℤ × ℕ) → Option (ℤ × ℕ) → Bool
num_eq (some (m, k)) (some (n, l)) = int_eq (scale m (10 ^ l)) (scale n (10 ^ k))
num_eq _ _ = false

-- `v == 0`, also of a Boolean or a float.
abbrev pub is_zero : Json → Bool
is_zero v = num_eq (number v) (some (pos 0, 0))

-- `v == 1`, which is what `v in {True}` asks.
abbrev pub is_one : Json → Bool
is_one v = num_eq (number v) (some (pos 1, 0))

unfoldable field_count : Fields → ℕ
field_count end = 0
field_count (field k v fs) = suc (field_count fs)

-- `a == b`; two dicts are equal whatever the order of their keys.
unfoldable mutual
  unfolding field_count

  pub py_eq : Json → Json → Bool
  py_eq null w = is_null w
  py_eq (bool b) w = num_eq (number (bool b)) (number w)
  py_eq (int n) w = num_eq (some (n, 0)) (number w)
  py_eq (real n k) w = num_eq (some (n, k)) (number w)
  py_eq (str s) w = is_str s w
  py_eq (arr vs) w = elim w [ arr ws ↦ items_eq vs ws | _ ↦ false ]
  py_eq (obj fs) w = elim w [
    | obj gs ↦ nat_eq (field_count fs) (field_count gs) && fields_in fs gs
    | _ ↦ false
  ]

  items_eq : Items → Items → Bool
  items_eq nil ws = is_empty (elems ws)
  items_eq (item v vs) nil = false
  items_eq (item v vs) (item w ws) = py_eq v w && items_eq vs ws

  fields_in : Fields → Fields → Bool
  fields_in end gs = true
  fields_in (field k v fs) gs =
      elim (lookup k gs) [ none ↦ false | some w ↦ py_eq v w ] && fields_in fs gs

-- `v.get(k)` and `v.get(k, default)`: only a dict has the method.
abbrev pub get : String → Json → Py Json
get k (obj fs) = ok (value_at k fs)
get k _ = raise attribute_error

abbrev pub from_default : Option Json → Json → Json
from_default none d = d
from_default (some v) d = v

abbrev pub get_or : String → Json → Json → Py Json
get_or k d (obj fs) = ok (from_default (lookup k fs) d)
get_or k d _ = raise attribute_error

-- A value whose `get` will be called later: its fields, or the exception that the call raises.
abbrev pub as_dict : Json → Py Fields
as_dict (obj fs) = ok fs
as_dict _ = raise attribute_error

-- `list(v)`: the elements of a list, the keys of a dict, the characters of a text.
abbrev chars : String → List Json
chars String.[] = []
chars (String.◌∷◌ c s) = str (String.◌∷◌ c String.[]) ∷ chars s

abbrev pub py_list : Json → Py (List Json)
py_list (arr vs) = ok (elems vs)
py_list (obj fs) = ok (map (λ p. str p.0) (pairs fs))
py_list (str s) = ok (chars s)
py_list _ = raise type_error

-- `v in {…}` for a set of texts: a list or a dict cannot be hashed.
abbrev pub in_set : List String → Json → Py Bool
in_set ts (str s) = ok (str_in s ts)
in_set ts (arr vs) = raise type_error
in_set ts (obj fs) = raise type_error
in_set ts _ = ok false

-- The elements of a value that is a list, and none otherwise.
abbrev pub list_or_empty : Json → List Json
list_or_empty (arr vs) = elems vs
list_or_empty _ = []

-- The fields of a value that is a dict, and none otherwise.
abbrev pub dict_or_empty : Json → Fields
dict_or_empty (obj fs) = fs
dict_or_empty _ = end
