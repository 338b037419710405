-- ===== src/Effects/RecordLaws.antt =====
-- The record of a normalized action has no diagnostic exactly when the action is authorized.
use ev4_constructability_eng.Base.{
  ◌≡◌, ◌≢◌, subst, All, refl, sym, ap, ◌∙◌, ◌↔◌, ◌⊎◌, inl, inr, String, Bool, true, false, not,
  Option, some, List, [], ◌∷◌, is_empty,
}
use ev4_constructability_eng.Base.Python.{Py, ok, raise, >>=-eq-ok, ok-injective}
use ev4_constructability_eng.Json.Host.{Host}
use ev4_constructability_eng.Registry.Contract.{ActionContract}
use ev4_constructability_eng.Registry.Actions.{contract_for}
use ev4_constructability_eng.Actions.Normalize.{ActionIr}
use ev4_constructability_eng.Effects.Authority.{
  ClassAuthorized, StructureAuthorized, class_effect_iff, structure_effect_iff,
}
use ev4_constructability_eng.Effects.ClassEffect.{
  ClassChange, class_change, class_effect, class_permission, class_set_changed,
}
use ev4_constructability_eng.Effects.BuildRecord.{
  build_record, class_reports, classes_changed, structure_reports, tree_changed,
}
use ev4_constructability_eng.Effects.Derive.{EffectInputs, contract_at, effect_record, if_any}
use ev4_constructability_eng.Effects.Forbidden.{
  ChangesClassSet, Forbids, class_set_changed_iff, nonempty_iff, unforbidden_iff,
}
use ev4_constructability_eng.Effects.Records.{ClassEffect, EffectRecord, StructureEffect}
use ev4_constructability_eng.Effects.StructureEffect.{
  structure_effect, structure_request, tree_change,
}
use ev4_constructability_eng.Effects.Permissions.{permission_granted}
use ev4_constructability_eng.Effects.ReportLaws.{if_any-cases, record_reports-nil}

-- Whether an action with some class effects changes the approved set of classes.
abbrev class_changes : List String → List String → Py ClassChange → Bool
class_changes approved [] change = false
class_changes approved (e ∷ es) (ok change) = class_set_changed approved change
class_changes approved (e ∷ es) (raise x) = false

class_changes_iff :
    (approved es : List String) (m : Py ClassChange)
    → (class_changes approved es m ≡ true)
      ↔ ((es ≢ []) × (change : ClassChange) × (m ≡ ok change) × ChangesClassSet approved change)
class_changes_iff approved [] m = (λ h. cc, λ (named, _, _, _). elim (named refl) [ ])
class_changes_iff approved (e ∷ es) (raise x) = (λ h. cc, λ (_, c, same, _). cc)
class_changes_iff approved (e ∷ es) (ok change) =
    let known = class_set_changed_iff approved change in
    (
      λ h. (λ none. cc, change, refl, known.0 h),
      λ (_, c, same, changes).
          known.1 (subst (ChangesClassSet approved) (sym (ok-injective same)) changes),
    )

module _ (host : Host) (inputs : EffectInputs) (ir : ActionIr) where
  -- The contract names an effect on the classes, and the parameters change the approved set.
  abbrev pub ChangesClasses : Type 0
  ChangesClasses =
      (ir.class_effects ≢ [])
      × (change : ClassChange) × (class_change host ir.normalized_parameters ≡ ok change)
      × ChangesClassSet inputs.approved change

  abbrev changes_classes : Bool
  changes_classes =
      class_changes inputs.approved ir.class_effects (class_change host ir.normalized_parameters)

  -- The action is decided, no forbidden work forbids it, and what its contract says it does to the
  -- classes and to the tree is authorized.
  pub record IsAuthorized : Type 0 where
    pub decided : ir.decision_state ≡ "resolved"
    pub unforbidden :
        All
          (λ w. ¬ (Forbids ir.action_type ChangesClasses (ir.structure_effects ≢ []) w))
          inputs.forbidden_work
    pub classes :
        (ir.class_effects ≡ [])
        ⊎ ClassAuthorized host inputs.architect_intake inputs.source_bundle inputs.approved ir
    pub structure :
        (ir.structure_effects ≡ [])
        ⊎ StructureAuthorized host inputs.architect_intake inputs.source_bundle inputs.tree ir

class_changes-named :
    (approved es : List String) (change : ClassChange)
    → is_empty es ≡ false
    → class_changes approved es (ok change) ≡ class_set_changed approved change
class_changes-named approved [] change h = cc
class_changes-named approved (e ∷ es) change h = refl

named-or {ℓ κ} :
    {P : Type ℓ} {X : Type κ} (es : List String) → is_empty es ≡ false → P ↔ X → P ↔ ((es ≡ []) ⊎ X)
named-or [] named both_ways = cc
named-or (e ∷ es) named both_ways =
    (λ p. inr (both_ways.0 p), λ h. elim h [ inl none_named ↦ cc | inr x ↦ both_ways.1 x ])

module _ (host : Host) (inputs : EffectInputs) (ir : ActionIr) where
  abbrev class_call : Py ClassEffect
  class_call = class_effect host ir inputs.approved inputs.architect_intake inputs.source_bundle

  abbrev structure_call : Py StructureEffect
  structure_call = structure_effect host ir inputs.tree inputs.architect_intake inputs.source_bundle

  -- A class effect changes the classes as its first part says.
  changes-class_effect :
      (e : ClassEffect)
      → class_call ≡ ok e
      → (change : ClassChange) × (class_change host ir.normalized_parameters ≡ ok change)
        × (e.changes_approved_class_set ≡ class_set_changed inputs.approved change)
  unfolding class_effect
  changes-class_effect e h =
      let (change, changed, h1) = >>=-eq-ok (class_change host ir.normalized_parameters) _ h in
      let (granted, _, h2) =
        >>=-eq-ok
          (class_permission host ir inputs.approved inputs.architect_intake inputs.source_bundle
            change)
          _ h1 in
      (
        change,
        changed,
        ap (λ (x : ClassEffect). x.changes_approved_class_set) (sym (ok-injective h2)),
      )

  changes-structure_effect :
      (e : StructureEffect) → structure_call ≡ ok e → e.changes_build_tree ≡ true
  unfolding structure_effect
  changes-structure_effect e h =
      let (change, _, h1) =
        >>=-eq-ok
          (tree_change host inputs.tree ir.action_type ir.target_node ir.normalized_parameters) _
          h in
      let (granted, _, h2) =
        >>=-eq-ok
          (permission_granted host inputs.architect_intake inputs.source_bundle
            (structure_request host ir change))
          _ h1 in
      ap (λ (x : StructureEffect). x.changes_build_tree) (sym (ok-injective h2))

  classes_lem :
      (classes : Option ClassEffect)
      → if_any ir.class_effects class_call ≡ ok classes
      → (classes_changed classes ≡ changes_classes host inputs ir)
        × ((class_reports classes ≡ []) ↔ (
            (ir.class_effects ≡ [])
            ⊎ ClassAuthorized host inputs.architect_intake inputs.source_bundle inputs.approved ir))
  classes_lem classes h = elim (if_any-cases ir.class_effects class_call classes h) [
    | inl (none_named, absent) ↦ rw (none_named, absent) (refl, (λ _. inl refl, λ _. refl))
    | inr (named, (e, called, present)) ↦
        let (change, changed, same) = changes-class_effect e called in
        rw present (
          same
              ∙ sym (
                  ap (class_changes inputs.approved ir.class_effects) changed
                  ∙ class_changes-named inputs.approved ir.class_effects change named),
          named-or ir.class_effects named (
              class_effect_iff host inputs.architect_intake inputs.source_bundle ir inputs.approved
                e called),
        )
  ]

  structure_lem :
      (structure : Option StructureEffect)
      → if_any ir.structure_effects structure_call ≡ ok structure
      → (tree_changed structure ≡ not (is_empty ir.structure_effects))
        × ((structure_reports structure ≡ []) ↔ (
            (ir.structure_effects ≡ [])
            ⊎ StructureAuthorized host inputs.architect_intake inputs.source_bundle inputs.tree ir))
  structure_lem structure h = elim (if_any-cases ir.structure_effects structure_call structure h) [
    | inl (none_named, absent) ↦ rw (none_named, absent) (refl, (λ _. inl refl, λ _. refl))
    | inr (named, (e, called, present)) ↦ rw present (
      rw named (changes-structure_effect e called),
      named-or ir.structure_effects named (
          structure_effect_iff host inputs.architect_intake inputs.source_bundle ir inputs.tree e
            called),
    )
  ]

  -- The record of an action whose effects are those of its contract reports nothing exactly when
  -- the action is authorized.
  pub effect_record_iff :
      (contract : ActionContract) (r : EffectRecord)
      → contract_for ir.action_type ≡ some contract
      → ir.class_effects ≡ contract.derived_class_effects
      → ir.structure_effects ≡ contract.derived_structure_effects
      → effect_record host inputs ir ≡ ok r
      → (r.diagnostics ≡ []) ↔ IsAuthorized host inputs ir
  unfolding effect_record build_record
  effect_record_iff contract r found class_named tree_named h =
      let (c, known, h1) = >>=-eq-ok (contract_at (contract_for ir.action_type)) _ h in
      let same_contract : contract ≡ c = ok-injective (ap contract_at (sym found) ∙ known) in
      let (classes, class_called, h2) =
        >>=-eq-ok (if_any c.derived_class_effects class_call) _ h1 in
      let (structure, tree_called, h3) =
        >>=-eq-ok (if_any c.derived_structure_effects structure_call) _ h2 in
      let same = ap (λ (x : EffectRecord). x.diagnostics) (ok-injective h3) in
      let (class_same, class_iff) = classes_lem classes (
        ap (λ es. if_any es class_call)
          (class_named ∙ ap (λ (x : ActionContract). x.derived_class_effects) same_contract)
        ∙ class_called) in
      let (tree_same, tree_iff) = structure_lem structure (
        ap (λ es. if_any es structure_call)
          (tree_named ∙ ap (λ (x : ActionContract). x.derived_structure_effects) same_contract)
        ∙ tree_called) in
      let parts = record_reports-nil ir classes structure inputs.forbidden_work in
      let unforbidden =
        unforbidden_iff (changes_classes host inputs ir) (not (is_empty ir.structure_effects))
          (class_changes_iff inputs.approved ir.class_effects
            (class_change host ir.normalized_parameters))
          (nonempty_iff ir.structure_effects) ir.action_type inputs.forbidden_work in
      (
        λ none_left.
            let (a, b, c, d) = parts.0 (same ∙ none_left) in
            record {
              decided = a;
              unforbidden = unforbidden.0 (rw (class_same, tree_same) at b);
              classes = class_iff.0 c;
              structure = tree_iff.0 d;
            },
        λ authorized.
            sym same
            ∙ parts.1 (
              authorized.decided,
              rw (class_same, tree_same) (unforbidden.1 authorized.unforbidden),
              class_iff.1 authorized.classes,
              tree_iff.1 authorized.structure,
            ),
      )
