-- ===== src/Rules/Unresolved.antt =====
-- validator/rules.py: the search of a batch action's parameters for an unresolved decision, and
-- what it finds.
use ev4_constructability_eng.Base.{
  ◌≡◌, refl, ◌↔◌, inl, inr, String, Bool, true, false, ◌||◌, List, [], ◌∷◌, or_true, str_in,
}
use ev4_constructability_eng.Base.Text.{strip, lower}
use ev4_constructability_eng.Json.{Json, str, arr, obj, Items, nil, item, Fields, end, field}

abbrev pub unresolved_decision_keys : List String
unresolved_decision_keys =
    "architect_decision_required" ∷ "builder_decision_required" ∷ "choose_between"
    ∷ "decision_to_make" ∷ "open_question" ∷ "requires_architect_amendment"
    ∷ "requires_builder_decision" ∷ "requires_user_choice" ∷ "tbd" ∷ "todo" ∷ "unknown_control"
    ∷ "unresolved_decision" ∷ "user_decision_required" ∷ []

abbrev pub unresolved_decision_values : List String
unresolved_decision_values =
    "architect_choice_required" ∷ "builder_decision_required" ∷ "choose_in_builder" ∷ "tbd" ∷ "todo"
    ∷ "unknown" ∷ "unresolved" ∷ "user_choice_required" ∷ []

-- `s.strip().lower()`
abbrev pub normal : String → String
normal s = lower (strip s)

unfoldable mutual
  pub contains_unresolved_decision : Json → Bool
  contains_unresolved_decision (obj fs) = fields_unresolved fs
  contains_unresolved_decision (arr vs) = items_unresolved vs
  contains_unresolved_decision (str s) = str_in (normal s) unresolved_decision_values
  contains_unresolved_decision _ = false

  pub fields_unresolved : Fields → Bool
  fields_unresolved end = false
  fields_unresolved (field k v fs) =
      str_in (normal k) unresolved_decision_keys
      || (contains_unresolved_decision v || fields_unresolved fs)

  pub items_unresolved : Items → Bool
  items_unresolved nil = false
  items_unresolved (item v vs) = contains_unresolved_decision v || items_unresolved vs

-- A place inside a value that names an undecided choice: a key or a text, at any depth.
mutual
  pub data Undecided : Json → Type 0 where
    word : {s : String} → str_in (normal s) unresolved_decision_values ≡ true → Undecided (str s)
    inside_list : {vs : Items} → UndecidedItem vs → Undecided (arr vs)
    inside_dict : {fs : Fields} → UndecidedField fs → Undecided (obj fs)

  pub data UndecidedItem : Items → Type 0 where
    this_item : {v : Json} {vs : Items} → Undecided v → UndecidedItem (item v vs)
    later_item : {v : Json} {vs : Items} → UndecidedItem vs → UndecidedItem (item v vs)

  pub data UndecidedField : Fields → Type 0 where
    this_key :
        {k : String} {v : Json} {fs : Fields}
        → str_in (normal k) unresolved_decision_keys ≡ true
        → UndecidedField (field k v fs)
    this_value : {k : String} {v : Json} {fs : Fields} → Undecided v → UndecidedField (field k v fs)
    later_field :
        {k : String} {v : Json} {fs : Fields} → UndecidedField fs → UndecidedField (field k v fs)

mutual
  unfolding contains_unresolved_decision

  search_sound : (v : Json) → contains_unresolved_decision v ≡ true → Undecided v
  search_sound (obj fs) h = inside_dict (fields_sound fs h)
  search_sound (arr vs) h = inside_list (items_sound vs h)
  search_sound (str s) h = word h
  search_sound _ h = cc

  fields_sound : (fs : Fields) → fields_unresolved fs ≡ true → UndecidedField fs
  fields_sound end h = cc
  fields_sound (field k v fs) h = elim (or_true _ _ h) [
    | inl key ↦ this_key key
    | inr rest ↦ elim (or_true _ _ rest) [
      | inl value ↦ this_value (search_sound v value)
      | inr later ↦ later_field (fields_sound fs later)
    ]
  ]

  items_sound : (vs : Items) → items_unresolved vs ≡ true → UndecidedItem vs
  items_sound nil h = cc
  items_sound (item v vs) h = elim (or_true _ _ h) [
    | inl value ↦ this_item (search_sound v value)
    | inr later ↦ later_item (items_sound vs later)
  ]

or_right : (a b : Bool) → b ≡ true → (a || b) ≡ true
or_right true b h = refl
or_right false b h = h

or_left : (a b : Bool) → a ≡ true → (a || b) ≡ true
or_left a b h = rw h

mutual
  unfolding contains_unresolved_decision

  search_complete : {v : Json} → Undecided v → contains_unresolved_decision v ≡ true
  search_complete (word h) = h
  search_complete (inside_list u) = items_complete u
  search_complete (inside_dict u) = fields_complete u

  fields_complete : {fs : Fields} → UndecidedField fs → fields_unresolved fs ≡ true
  fields_complete (this_key h) = or_left _ _ h
  fields_complete (this_value u) = or_right _ _ (or_left _ _ (search_complete u))
  fields_complete (later_field u) = or_right _ _ (or_right _ _ (fields_complete u))

  items_complete : {vs : Items} → UndecidedItem vs → items_unresolved vs ≡ true
  items_complete (this_item u) = or_left _ _ (search_complete u)
  items_complete (later_item u) = or_right _ _ (items_complete u)

-- The search answers true exactly when some key or text inside the value, at any depth, is one of
-- the words for an undecided choice after surrounding spaces and case are taken off.
pub contains_unresolved_decision_iff :
    (v : Json) → (contains_unresolved_decision v ≡ true) ↔ Undecided v
contains_unresolved_decision_iff v = (search_sound v, search_complete)
