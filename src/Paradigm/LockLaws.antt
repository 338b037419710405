-- ===== src/Paradigm/LockLaws.antt =====
-- When a reference paradigm lock is accepted.
use ev4_constructability_eng.Base.{
  ◌≡◌, refl, ◌↔◌, inl, inr, String, ◌<>◌, Bool, true, false, not, ◌&&◌, ◌||◌, List, [], ◌∷◌, ◌++◌,
  All, Bool-cases, and_true, append-eq-nil, arith, is_empty, is_empty-eq, keep, map, if◌then◌else◌,
}
use ev4_constructability_eng.Json.{Json, obj, Fields, is_obj, is_str, value_at}
use ev4_constructability_eng.Json.Host.{Host}
use ev4_constructability_eng.Rules.Document.{when}
use ev4_constructability_eng.Rules.Nodes.{flag}
use ev4_constructability_eng.Engine.Preflight.{visual_parity_requested}
use ev4_constructability_eng.Paradigm.Regions.{
  grid_decomposition_rule_errors, has_items, has_text, map_is_decomposed,
}
use ev4_constructability_eng.Paradigm.Lock.{
  identity_errors, is_valid_layout, layout_errors, lock_errors, locked_errors, map_errors,
  rule_errors, signature_errors, structure_errors, text_errors, text_fields,
  validate_reference_paradigm_lock,
}

pub record IdentityIsRight (lock : Fields) : Type 0 where
  pub schema : is_str "ev4-reference-paradigm-lock@1.0.0" (value_at "schema" lock) ≡ true
  pub source : has_text (value_at "source_reference_id" lock) ≡ true
  pub extracted : is_str "constructability_engineer" (value_at "extracted_by" lock) ≡ true
  pub locked : flag "paradigm_locked" lock ≡ true

-- A layout that is a text, one of the valid ones, and known if the output is for a Builder.
abbrev pub LayoutIsRight : Bool → Bool → Bool → Bool → Type 0
LayoutIsRight is_text is_valid ready is_unknown =
    (is_text ≡ true) × (is_valid ≡ true) × (ready ≡ true → is_unknown ≡ false)

pub record LockIsComplete (lock : Fields) (builder_ready : Bool) : Type 0 where
  pub identity : IdentityIsRight lock
  pub layout :
      LayoutIsRight
        (has_text (value_at "layout_paradigm" lock))
        (is_valid_layout (value_at "layout_paradigm" lock))
        builder_ready
        (is_str "unknown" (value_at "layout_paradigm" lock))
  pub text : All (λ key. has_text (value_at key lock) ≡ true) text_fields
  pub signature : has_items (value_at "completion_signature" lock) ≡ true

pub record MapIsComplete (structure_map : Fields) : Type 0 where
  pub anchor : is_obj (value_at "primary_anchor" structure_map) ≡ true
  pub regions : has_items (value_at "regions" structure_map) ≡ true
  pub units : is_obj (value_at "repeated_units" structure_map) ≡ true
  pub connectors : is_obj (value_at "connector_layer" structure_map) ≡ true
  pub first_batch : has_items (value_at "first_batch_requirements" structure_map) ≡ true

abbrev text_required : Fields → List String → List String
text_required lock keys =
    map (λ key. key <> " is required") (keep (λ key. not (has_text (value_at key lock))) keys)

text_iff :
    (lock : Fields) (keys : List String)
    → (text_required lock keys ≡ []) ↔ All (λ key. has_text (value_at key lock) ≡ true) keys
text_iff lock [] = (λ h. tt, λ h. refl)
text_iff lock (key ∷ keys) =
    let (to, from) = text_iff lock keys in
    elim (Bool-cases (has_text (value_at key lock))) [
      | inl e ↦ (λ h. (e, to (rw e at h)), λ (here, later). rw e (from later))
      | inr e ↦ (λ h. cc (rw e at h), λ (here, later). cc)
    ]

identity_iff : (lock : Fields) → (identity_errors lock ≡ []) ↔ IdentityIsRight lock
unfolding identity_errors
identity_iff lock = (λ h. ground arith, λ right. ground arith)

layout_cases :
    (is_text is_valid ready is_unknown : Bool) (a b c : String)
    → ((if not is_text then a ∷ [] else when (not is_valid) b) ++ when (ready && is_unknown) c ≡ [])
      ↔ LayoutIsRight is_text is_valid ready is_unknown
layout_cases is_text is_valid ready is_unknown a b c = (λ h. ground arith, λ right. ground arith)

layout_iff :
    (lock : Fields) (builder_ready : Bool)
    → (layout_errors lock builder_ready ≡ [])
      ↔ LayoutIsRight
          (has_text (value_at "layout_paradigm" lock))
          (is_valid_layout (value_at "layout_paradigm" lock))
          builder_ready
          (is_str "unknown" (value_at "layout_paradigm" lock))
unfolding layout_errors
layout_iff lock builder_ready = layout_cases _ _ _ _ _ _ _

signature_iff :
    (lock : Fields)
    → (signature_errors lock ≡ []) ↔ (has_items (value_at "completion_signature" lock) ≡ true)
unfolding signature_errors
signature_iff lock = (λ h. ground arith, λ c. ground arith)

append_nil : {xs ys : List String} → xs ≡ [] → ys ≡ [] → xs ++ ys ≡ []
append_nil p q = rw (p, q)

lock_iff :
    (lock : Fields) (builder_ready : Bool)
    → (lock_errors lock builder_ready ≡ []) ↔ LockIsComplete lock builder_ready
unfolding lock_errors text_errors
lock_iff lock builder_ready = (
  λ h.
      let (identity, h1) = append-eq-nil (identity_errors lock) _ h in
      let (layout, h2) = append-eq-nil (layout_errors lock builder_ready) _ h1 in
      let (texts, signature) = append-eq-nil (text_errors lock) (signature_errors lock) h2 in
      record {
        identity = (identity_iff lock).0 identity;
        layout = (layout_iff lock builder_ready).0 layout;
        text = (text_iff lock text_fields).0 texts;
        signature = (signature_iff lock).0 signature;
      },
  λ c. append_nil ((identity_iff lock).1 c.identity) (
      append_nil ((layout_iff lock builder_ready).1 c.layout)
        (append_nil ((text_iff lock text_fields).1 c.text) ((signature_iff lock).1 c.signature))),
)

map_iff : (structure_map : Fields) → (map_errors structure_map ≡ []) ↔ MapIsComplete structure_map
unfolding map_errors
map_iff structure_map = (λ h. ground arith, λ c. ground arith)

-- A grid that is for a Builder is decomposed into left and right regions.
abbrev pub GridIsDecomposed : Host → Fields → Fields → Bool → Type 0
GridIsDecomposed host lock structure_map builder_ready =
    builder_ready ≡ true
    → is_str "grid" (value_at "layout_paradigm" lock) ≡ true
    → map_is_decomposed host lock (value_at "regions" structure_map) ≡ true

grid_cases :
    (ready grid decomposed : Bool) (e : String)
    → ((if not ready || not grid then [] else if decomposed then [] else e ∷ []) ≡ [])
      ↔ (ready ≡ true → grid ≡ true → decomposed ≡ true)
grid_cases true true true e = (λ h _ _. refl, λ d. refl)
grid_cases true true false e = (λ h. cc, λ d. cc (d refl refl))
grid_cases true false decomposed e = (λ h _ f. cc, λ d. refl)
grid_cases false grid decomposed e = (λ h f _. cc, λ d. refl)

grid_iff :
    (host : Host) (lock structure_map : Fields) (builder_ready : Bool)
    → (grid_decomposition_rule_errors host lock (obj structure_map) builder_ready ≡ [])
      ↔ GridIsDecomposed host lock structure_map builder_ready
unfolding grid_decomposition_rule_errors
grid_iff host lock structure_map builder_ready = grid_cases _ _ _ _

-- A document whose lock and structure map are accepted.
pub record ParadigmIsLocked (host : Host) (document : Fields) : Type 0 where
  pub lock : Fields
  pub structure_map : Fields
  pub has_lock : value_at "reference_paradigm_lock" document ≡ obj lock
  pub has_map : value_at "paradigm_to_structure_map" document ≡ obj structure_map
  pub lock_complete : LockIsComplete lock (visual_parity_requested document)
  pub map_complete : MapIsComplete structure_map
  pub grid : GridIsDecomposed host lock structure_map (visual_parity_requested document)

module _ (host : Host) where
  -- The errors over the two values, whose types decide which checks are made.
  abbrev Accepted : Json → Json → Bool → Type 0
  Accepted l m ready =
      (lock : Fields) × (structure_map : Fields) × (l ≡ obj lock)
      × (m ≡ obj structure_map)
      × LockIsComplete lock ready
      × MapIsComplete structure_map
      × GridIsDecomposed host lock structure_map ready

  locked-Accepted :
      (l m : Json) (ready : Bool) → locked_errors host l m ready ≡ [] → Accepted l m ready
  unfolding locked_errors structure_errors
  locked-Accepted (obj lock) (obj structure_map) ready h =
      let (locked, structured) = append-eq-nil (lock_errors lock ready) _ h in
      let (mapped, grid) = append-eq-nil (map_errors structure_map) _ structured in
      (
        lock,
        structure_map,
        refl,
        refl,
        (lock_iff lock ready).0 locked,
        (map_iff structure_map).0 mapped,
        (grid_iff host lock structure_map ready).0 grid,
      )
  locked-Accepted (obj lock) _ ready h = cc (append-eq-nil (lock_errors lock ready) _ h).1
  locked-Accepted _ m ready h = cc

  rules_sound :
      (document : Fields) → rule_errors host document ≡ [] → ParadigmIsLocked host document
  unfolding rule_errors
  rules_sound document h =
      let (lock, structure_map, has_lock, has_map, locked, mapped, grid) =
        locked-Accepted (value_at "reference_paradigm_lock" document)
          (value_at "paradigm_to_structure_map" document) (visual_parity_requested document) h in
      record {
        lock = lock;
        structure_map = structure_map;
        has_lock = has_lock;
        has_map = has_map;
        lock_complete = locked;
        map_complete = mapped;
        grid = grid;
      }

  rules_complete :
      (document : Fields) → ParadigmIsLocked host document → rule_errors host document ≡ []
  unfolding rule_errors locked_errors structure_errors
  rules_complete document p =
      rw (p.has_lock, p.has_map)
        (append_nil ((lock_iff p.lock (visual_parity_requested document)).1 p.lock_complete) (
          append_nil ((map_iff p.structure_map).1 p.map_complete)
            ((grid_iff host p.lock p.structure_map (visual_parity_requested document)).1 p.grid)))

  -- A reference paradigm passes exactly when the schema validator finds no error and the document
  -- has a lock and a structure map, both complete, with a layout that is valid and, for a Builder,
  -- known, and, where it is a grid for a Builder, decomposed into left and right regions.
  pub validate_reference_paradigm_lock_iff :
      (schema_errors : List String) (document : Fields)
      → ((validate_reference_paradigm_lock host schema_errors document).passed ≡ true)
        ↔ ((schema_errors ≡ []) × ParadigmIsLocked host document)
  unfolding validate_reference_paradigm_lock
  validate_reference_paradigm_lock_iff schema_errors document = (
    λ h.
        let (clean, silent) = and_true (is_empty schema_errors) _ h in
        (is_empty-eq schema_errors clean, rules_sound document (is_empty-eq _ silent)),
    λ (clean, p). rw (clean, rules_complete document p) refl,
  )
