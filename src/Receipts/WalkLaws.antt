-- ===== src/Receipts/WalkLaws.antt =====
-- Every surface inside a document, and that the walk reaches exactly those.
use ev4_constructability_eng.Base.{
  ◌≡◌, refl, ◌↔◌, inl, inr, ℕ, suc, String, Bool, true, false, List, [], ◌++◌, append-eq-nil,
  Bool-cases, str_in,
}
use ev4_constructability_eng.Json.{Json, arr, obj, Items, nil, item, Fields, end, field}
use ev4_constructability_eng.Receipts.Surface.{ReceiptDiagnostic}
use ev4_constructability_eng.Receipts.SurfaceLaws.{IsHonest, validate_receipt_surface_iff}
use ev4_constructability_eng.Receipts.Walk.{
  index_path, key_path, own_diagnostics, should_validate, surface_keys, validate_receipt_document,
  walk_fields, walk_items, walk_receipt_surfaces,
}

-- `SurfaceIn v named s`: the object s, at some depth inside v, is a surface; `named` says that v is
-- the value of a surface key.
mutual
  pub data SurfaceIn : Json → Bool → Fields → Type 0 where
    itself :
        {fs : Fields} {named : Bool} → should_validate named fs ≡ true → SurfaceIn (obj fs) named fs
    under_key : {fs s : Fields} {named : Bool} → SurfaceInFields fs s → SurfaceIn (obj fs) named s
    in_list :
        {vs : Items} {named : Bool} {s : Fields} → SurfaceInItems vs s → SurfaceIn (arr vs) named s

  pub data SurfaceInFields : Fields → Fields → Type 0 where
    this_child :
        {key : String} {child : Json} {fs s : Fields}
        → SurfaceIn child (str_in key surface_keys) s
        → SurfaceInFields (field key child fs) s
    later_child :
        {key : String} {child : Json} {fs s : Fields}
        → SurfaceInFields fs s
        → SurfaceInFields (field key child fs) s

  pub data SurfaceInItems : Items → Fields → Type 0 where
    this_item :
        {child : Json} {vs : Items} {s : Fields}
        → SurfaceIn child false s
        → SurfaceInItems (item child vs) s
    later_item :
        {child : Json} {vs : Items} {s : Fields}
        → SurfaceInItems vs s
        → SurfaceInItems (item child vs) s

own_silent :
    (named : Bool) (fs : Fields) (path : String)
    → own_diagnostics named fs path ≡ []
    → should_validate named fs ≡ true
    → IsHonest fs
own_silent named fs path h shown = (validate_receipt_surface_iff fs path).0 (rw shown at h)

own_honest :
    (named : Bool) (fs : Fields) (path : String)
    → (should_validate named fs ≡ true → IsHonest fs)
    → own_diagnostics named fs path ≡ []
own_honest named fs path honest = elim (Bool-cases (should_validate named fs)) [
  | inl e ↦ rw e ((validate_receipt_surface_iff fs path).1 (honest e))
  | inr e ↦ rw e
]

mutual
  unfolding walk_receipt_surfaces

  walk_sound :
      {v : Json} {named : Bool} {s : Fields}
      → SurfaceIn v named s
      → (path : String) → walk_receipt_surfaces v path named ≡ []
      → IsHonest s
  walk_sound {v = obj fs} {named = named} (itself shown) path h =
      own_silent named fs path (append-eq-nil _ (walk_fields fs path) h).0 shown
  walk_sound {v = obj fs} {named = named} (under_key inside) path h =
      fields_walked inside path (append-eq-nil (own_diagnostics named fs path) _ h).1
  walk_sound (in_list inside) path h = items_walked inside path 0 h

  fields_walked :
      {fs s : Fields}
      → SurfaceInFields fs s
      → (path : String) → walk_fields fs path ≡ []
      → IsHonest s
  fields_walked {fs = field key child fs} (this_child inside) path h =
      walk_sound inside (key_path path key) (append-eq-nil _ (walk_fields fs path) h).0
  fields_walked {fs = field key child fs} (later_child inside) path h =
      fields_walked inside path
        (append-eq-nil (walk_receipt_surfaces child (key_path path key) (str_in key surface_keys)) _
          h).1

  items_walked :
      {vs : Items} {s : Fields}
      → SurfaceInItems vs s
      → (path : String) (index : ℕ) → walk_items vs path index ≡ []
      → IsHonest s
  items_walked {vs = item child vs} (this_item inside) path index h =
      walk_sound inside (index_path path index)
        (append-eq-nil _ (walk_items vs path (suc index)) h).0
  items_walked {vs = item child vs} (later_item inside) path index h =
      items_walked inside path (suc index)
        (append-eq-nil (walk_receipt_surfaces child (index_path path index) false) _ h).1

append_nil : {xs ys : List ReceiptDiagnostic} → xs ≡ [] → ys ≡ [] → xs ++ ys ≡ []
append_nil p q = rw (p, q)

mutual
  unfolding walk_receipt_surfaces

  walk_complete :
      (v : Json) (named : Bool) (path : String)
      → ((s : Fields) → SurfaceIn v named s → IsHonest s)
      → walk_receipt_surfaces v path named ≡ []
  walk_complete (obj fs) named path honest =
      append_nil (own_honest named fs path (λ shown. honest fs (itself shown)))
        (fields_complete fs path (λ s inside. honest s (under_key inside)))
  walk_complete (arr vs) named path honest =
      items_complete vs path 0 (λ s inside. honest s (in_list inside))
  walk_complete _ named path honest = refl

  fields_complete :
      (fs : Fields) (path : String)
      → ((s : Fields) → SurfaceInFields fs s → IsHonest s)
      → walk_fields fs path ≡ []
  fields_complete end path honest = refl
  fields_complete (field key child fs) path honest =
      append_nil
        (walk_complete child (str_in key surface_keys) (key_path path key)
          (λ s inside. honest s (this_child inside)))
        (fields_complete fs path (λ s inside. honest s (later_child inside)))

  items_complete :
      (vs : Items) (path : String) (index : ℕ)
      → ((s : Fields) → SurfaceInItems vs s → IsHonest s)
      → walk_items vs path index ≡ []
  items_complete nil path index honest = refl
  items_complete (item child vs) path index honest =
      append_nil
        (walk_complete child false (index_path path index)
          (λ s inside. honest s (this_item inside)))
        (items_complete vs path (suc index) (λ s inside. honest s (later_item inside)))

-- An object has no diagnostic exactly when every surface inside it, at any depth, is honest: each
-- has a complete trace, or claims no pass and has no receipt or one that warns and is not green.
pub validate_receipt_document_iff :
    (document : Fields)
    → (validate_receipt_document (obj document) ≡ [])
      ↔ ((s : Fields) → SurfaceIn (obj document) false s → IsHonest s)
unfolding validate_receipt_document
validate_receipt_document_iff document =
    (λ h s inside. walk_sound inside "$" h, λ honest. walk_complete (obj document) false "$" honest)
