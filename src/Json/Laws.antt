-- ===== src/Json/Laws.antt =====
-- Facts about values that the proofs use.
use ev4_constructability_eng.Base.{
  ◌≡◌, refl, sym, ◌∙◌, ap, Bool, true, String, List, eq_iff, str_in,
}
use ev4_constructability_eng.Base.Python.{ok, ok-injective}
use ev4_constructability_eng.Json.Access.{
  Json, str, obj, is_str, is_obj, Fields, dict_or_empty, get, in_set, null, bool, int, real, arr,
  value_at,
}

pub is_str-eq : (s : String) (v : Json) → is_str s v ≡ true → v ≡ str s
is_str-eq s (str t) h = ap str ((eq_iff t s).0 h)
is_str-eq s _ h = cc

pub is_obj-eq : (v : Json) → is_obj v ≡ true → (fs : Fields) × (v ≡ obj fs)
is_obj-eq (obj fs) h = (fs, λ i. obj fs)
is_obj-eq _ h = cc

pub get-value_at : (k : String) (v w : Json) → get k v ≡ ok w → value_at k (dict_or_empty v) ≡ w
get-value_at k (obj fs) w h = ok-injective h
get-value_at k _ w h = cc

pub in_set-true :
    (ts : List String) (v : Json)
    → in_set ts v ≡ ok true
    → (s : String) × (v ≡ str s) × (str_in s ts ≡ true)
in_set-true ts (str s) h = (s, refl, ok-injective h)
in_set-true ts null h = cc
in_set-true ts (bool b) h = cc
in_set-true ts (int n) h = cc
in_set-true ts (real n k) h = cc
in_set-true ts (arr vs) h = cc
in_set-true ts (obj fs) h = cc

pub in_set-text :
    (ts : List String) (v : Json) (s : String) (b : Bool)
    → v ≡ str s
    → in_set ts v ≡ ok b
    → str_in s ts ≡ b
in_set-text ts v s b e h = ok-injective (sym (ap (in_set ts) e) ∙ h)
