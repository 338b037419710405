-- ===== src/Actions/Hidden.antt =====
-- validator/action_ir.py, `_hidden_decisions`: the paths of a proposal's parameters where a choice
-- is left to the Builder, and what counts as one.
use ev4_constructability_eng.Base.{
  ◌≡◌, refl, ◌↔◌, inl, inr, ℕ, suc, String, ◌<>◌, Bool, true, false, ◌&&◌, ◌||◌, List, [], ◌∷◌,
  ◌++◌, append-eq-nil, arith, str_in, Bool-cases,
}
use ev4_constructability_eng.Base.Text.{casefold, contains, ends_with, show, strip}
use ev4_constructability_eng.Json.{
  Json, str, arr, obj, Items, nil, item, Fields, end, field, is_true,
}
use ev4_constructability_eng.Rules.Document.{when}
use text.Mathlib.Text.{starts_with}

abbrev pub decision_tokens : List String
decision_tokens = "tbd" ∷ "todo" ∷ "choose" ∷ "select" ∷ "decide" ∷ "unknown" ∷ "either" ∷ "or" ∷ []

-- `len(child) > 1` of a child that is a list
abbrev pub has_choice : Json → Bool
has_choice (arr (item v (item w vs))) = true
has_choice _ = false

-- A key that asks for a decision, with its value.
unfoldable pub asks_decision : String → Json → Bool
asks_decision key child =
    str_in (casefold key) ("requires_decision" ∷ "decision_required" ∷ []) && is_true child

-- A key that offers options, with its value.
unfoldable pub offers_options : String → Json → Bool
offers_options key child = ends_with (casefold key) "_options" && has_choice child

-- A text that stands for an open choice.
unfoldable pub is_open_text : String → Bool
is_open_text s =
    let normalized = strip (casefold s) in
    str_in normalized decision_tokens
    || (starts_with normalized "choose " || contains (" " <> normalized) " tbd")

unfoldable mutual
  pub hidden_decisions : Json → String → List String
  hidden_decisions (obj fs) path = hidden_in_fields fs path
  hidden_decisions (arr vs) path = hidden_in_items vs path 0
  hidden_decisions (str s) path = when (is_open_text s) path
  hidden_decisions _ path = []

  pub hidden_in_fields : Fields → String → List String
  hidden_in_fields end path = []
  hidden_in_fields (field key child fs) path =
      when (asks_decision key child) (path <> "." <> key)
      ++ (when (offers_options key child) (path <> "." <> key)
          ++ (hidden_decisions child (path <> "." <> key) ++ hidden_in_fields fs path))

  pub hidden_in_items : Items → String → ℕ → List String
  hidden_in_items nil path index = []
  hidden_in_items (item v vs) path index =
      hidden_decisions v (path <> "[" <> show index <> "]") ++ hidden_in_items vs path (suc index)

-- A place inside a value that leaves a choice open, at any depth.
mutual
  pub data Open : Json → Type 0 where
    open_text : {s : String} → is_open_text s ≡ true → Open (str s)
    in_list : {vs : Items} → OpenItem vs → Open (arr vs)
    in_dict : {fs : Fields} → OpenField fs → Open (obj fs)

  pub data OpenItem : Items → Type 0 where
    this_item : {v : Json} {vs : Items} → Open v → OpenItem (item v vs)
    later_item : {v : Json} {vs : Items} → OpenItem vs → OpenItem (item v vs)

  pub data OpenField : Fields → Type 0 where
    asks :
        {k : String} {v : Json} {fs : Fields} → asks_decision k v ≡ true → OpenField (field k v fs)
    offers :
        {k : String} {v : Json} {fs : Fields} → offers_options k v ≡ true → OpenField (field k v fs)
    this_value : {k : String} {v : Json} {fs : Fields} → Open v → OpenField (field k v fs)
    later_field : {k : String} {v : Json} {fs : Fields} → OpenField fs → OpenField (field k v fs)

when-eq-nil : (b : Bool) (p : String) → when b p ≡ [] → b ≡ false
when-eq-nil false p h = refl
when-eq-nil true p h = cc

mutual
  unfolding hidden_decisions

  closed_sound : {v : Json} → Open v → (path : String) → hidden_decisions v path ≡ [] → ⊥
  closed_sound (open_text {s} h) path e = cc (when-eq-nil (is_open_text s) path e)
  closed_sound (in_list o) path e = items_closed o path 0 e
  closed_sound (in_dict o) path e = fields_closed o path e

  fields_closed : {fs : Fields} → OpenField fs → (path : String) → hidden_in_fields fs path ≡ [] → ⊥
  fields_closed (asks {k} {v} {fs} h) path e = ground (arith, h)
  fields_closed (offers {k} {v} {fs} h) path e = ground (arith, h)
  fields_closed (this_value {k} {v} {fs} o) path e =
      closed_sound o (path <> "." <> k)
        (append-eq-nil (hidden_decisions v (path <> "." <> k)) (hidden_in_fields fs path)
          (append-eq-nil (when (offers_options k v) (path <> "." <> k)) _
            (append-eq-nil (when (asks_decision k v) (path <> "." <> k)) _ e).1).1).0
  fields_closed (later_field {k} {v} {fs} o) path e =
      fields_closed o path
        (append-eq-nil (hidden_decisions v (path <> "." <> k)) (hidden_in_fields fs path)
          (append-eq-nil (when (offers_options k v) (path <> "." <> k)) _
            (append-eq-nil (when (asks_decision k v) (path <> "." <> k)) _ e).1).1).1

  items_closed :
      {vs : Items} → OpenItem vs → (path : String) (n : ℕ) → hidden_in_items vs path n ≡ [] → ⊥
  items_closed (this_item {v} {vs} o) path n e =
      closed_sound o (path <> "[" <> show n <> "]")
        (append-eq-nil _ (hidden_in_items vs path (suc n)) e).0
  items_closed (later_item {v} {vs} o) path n e =
      items_closed o path (suc n)
        (append-eq-nil (hidden_decisions v (path <> "[" <> show n <> "]"))
          (hidden_in_items vs path (suc n)) e).1

mutual
  unfolding hidden_decisions

  closed_complete : (v : Json) (path : String) → ¬ (Open v) → hidden_decisions v path ≡ []
  closed_complete (obj fs) path h = fields_complete fs path (λ o. h (in_dict o))
  closed_complete (arr vs) path h = items_complete vs path 0 (λ o. h (in_list o))
  closed_complete (str s) path h = elim (Bool-cases (is_open_text s)) [
    | inl e ↦ absurd (h (open_text e))
    | inr e ↦ rw e
  ]
  closed_complete _ path h = refl

  fields_complete : (fs : Fields) (path : String) → ¬ (OpenField fs) → hidden_in_fields fs path ≡ []
  fields_complete end path h = refl
  fields_complete (field k v fs) path h = elim (Bool-cases (asks_decision k v)) [
    | inl e ↦ absurd (h (asks e))
    | inr e ↦ elim (Bool-cases (offers_options k v)) [
      | inl e' ↦ absurd (h (offers e'))
      | inr e' ↦
          rw (e, e', closed_complete v (path <> "." <> k) (λ o. h (this_value o)))
            (fields_complete fs path (λ o. h (later_field o)))
    ]
  ]

  items_complete :
      (vs : Items) (path : String) (n : ℕ) → ¬ (OpenItem vs) → hidden_in_items vs path n ≡ []
  items_complete nil path n h = refl
  items_complete (item v vs) path n h =
      rw (closed_complete v (path <> "[" <> show n <> "]") (λ o. h (this_item o)))
        (items_complete vs path (suc n) (λ o. h (later_item o)))

-- No path is reported exactly when nothing inside the value, at any depth, leaves a choice open:
-- no text that stands for one, no key that asks for a decision with the value true, and no key
-- that offers a list of two options or more.
pub hidden_decisions_iff :
    (v : Json) (path : String) → (hidden_decisions v path ≡ []) ↔ (¬ (Open v))
hidden_decisions_iff v path = (λ e o. closed_sound o path e, closed_complete v path)
