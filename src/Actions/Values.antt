-- ===== src/Actions/Values.antt =====
-- validator/action_ir.py: the value of one parameter is normalized, `_list_of_strings`,
-- `_replacement_list` and `_normalize_value`.
use ev4_constructability_eng.Base.{
  String, Bool, ◌&&◌, ◌==◌, List, [], ◌∷◌, map, all, str_in, if◌then◌else◌,
}
use ev4_constructability_eng.Base.Text.{str_le}
use ev4_constructability_eng.Base.Sorting.{distinct, sort_texts}
use ev4_constructability_eng.Base.Python.{
  Py, ok, raise, ◌>>=◌, action_ir_validation_error, ActionIrError, empty_value, not_nonempty_object,
  not_string_or_array, not_strings, replacement_incomplete, replacement_not_object,
}
use ev4_constructability_eng.Json.{
  Json, null, str, arr, obj, field, elems, is_text, or_else, value_at,
}
use ev4_constructability_eng.Json.Build.{dict_of, list_of, texts_of}
use ev4_constructability_eng.Rules.Document.{texts}
use ev4_constructability_eng.Actions.Canonical.{canonical}

abbrev pub refuse {ℓ} : {A : Type ℓ} → ActionIrError → Py A
refuse e = raise (action_ir_validation_error e)

-- `_list_of_strings`
unfoldable pub list_of_strings : Json → String → Py (List String)
list_of_strings (str s) key = if s == "" then refuse (not_string_or_array key) else ok (s ∷ [])
list_of_strings (arr vs) key =
    if all is_text (elems vs)
    then ok (sort_texts (distinct (texts (elems vs))))
    else refuse (not_strings key)
list_of_strings _ key = refuse (not_string_or_array key)

-- A class replacement: the old name and the new one.
abbrev pub Replacement : Type 0
Replacement = String × String

abbrev text_of : Json → String
text_of (str s) = s
text_of _ = ""

-- One round of the loop of `_replacement_list`
unfoldable pub replacement : Json → Py Replacement
replacement (obj fs) =
    let old = or_else (value_at "from" fs) (value_at "old" fs) in
    let new = or_else (value_at "to" fs) (value_at "new" fs) in
    if is_text old && is_text new
    then ok (text_of old, text_of new)
    else refuse replacement_incomplete
replacement _ = refuse replacement_not_object

unfoldable pub replacements : List Json → Py (List Replacement)
unfolding replacement
replacements [] = ok []
replacements (v ∷ vs) = do r ← replacement v; rs ← replacements vs; ok (r ∷ rs)

-- The order of the pairs of names.
abbrev pair_le : Replacement → Replacement → Bool
pair_le (a, b) (c, d) = if a == c then str_le b d else str_le a c

insert_pair : Replacement → List Replacement → List Replacement
insert_pair p [] = p ∷ []
insert_pair p (q ∷ qs) = if pair_le p q then p ∷ q ∷ qs else q ∷ insert_pair p qs

unfoldable pub sort_pairs : List Replacement → List Replacement
unfolding insert_pair
sort_pairs [] = []
sort_pairs (p ∷ ps) = insert_pair p (sort_pairs ps)

abbrev one_or_many : Json → List Json
one_or_many (arr vs) = elems vs
one_or_many v = v ∷ []

-- `_replacement_list`
unfoldable pub replacement_list : Json → Py (List Replacement)
unfolding replacements sort_pairs
replacement_list v = do rs ← replacements (one_or_many v); ok (sort_pairs rs)

abbrev pub replacement_dict : Replacement → Json
replacement_dict (old, new) = dict_of (("from", str old) ∷ ("to", str new) ∷ [])

-- A value that must be a nonempty object.
abbrev object_value : String → Json → Py Json
object_value key (obj (field k v fs)) = ok (canonical (obj (field k v fs)))
object_value key _ = refuse (not_nonempty_object key)

-- A value of any other parameter.
abbrev plain_value : String → Json → Py Json
plain_value key (arr vs) = ok (canonical (arr vs))
plain_value key (obj fs) = ok (canonical (obj fs))
plain_value key null = refuse (empty_value key)
plain_value key (str s) = if s == "" then refuse (empty_value key) else ok (str s)
plain_value key v = ok v

abbrev as_texts : Py (List String) → Py Json
as_texts m = m >>= λ ts. ok (texts_of ts)

-- `_normalize_value`
unfoldable pub normalize_value : String → Json → Py Json
unfolding list_of_strings replacement_list
normalize_value key v =
    if str_in key ("class_names" ∷ "remove_classes" ∷ [])
    then as_texts (list_of_strings v key)
    else if key == "replace_classes"
    then replacement_list v >>= (λ rs. ok (list_of (map replacement_dict rs)))
    else if str_in key ("properties" ∷ "binding_map" ∷ [])
    then object_value key v
    else if key == "viewports"
    then as_texts (list_of_strings v key)
    else plain_value key v
