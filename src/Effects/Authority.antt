-- ===== src/Effects/Authority.antt =====
-- When the effects of one action are authorized, and that its two effects then report nothing.
use ev4_constructability_eng.Base.{
  ◌≡◌, refl, sym, ap, subst, ◌∙◌, ◌↔◌, ◌⊎◌, inl, inr, String, Bool, true, false, not, List, [], ◌∷◌,
  ◌++◌, append-eq-nil, is_empty-eq, Bool-cases, or_false, str_in,
}
use ev4_constructability_eng.Base.Python.{ok, >>=-eq-ok, ok-injective}
use ev4_constructability_eng.Json.{Fields}
use ev4_constructability_eng.Json.Host.{Host}
use ev4_constructability_eng.Actions.Normalize.{ActionIr}
use ev4_constructability_eng.Effects.ClassEffect.{
  ClassChange, build_class_effect, class_change, class_diagnostics, class_effect, class_permission,
  class_request, class_set_changed, introduced, removed_approved, sorted_set, unless_granted,
}
use ev4_constructability_eng.Effects.Inputs.{NodeMap, node_ids, permissions}
use ev4_constructability_eng.Effects.PermissionLaws.{Covered, permission_granted_iff}
use ev4_constructability_eng.Effects.Permissions.{Request, candidate_of, permission_granted}
use ev4_constructability_eng.Effects.Records.{
  ClassEffect, EffectDiagnostic, StructureEffect, approved_class_removed_or_replaced,
  structure_permission_required, target_outside_build_tree, unapproved_class,
}
use ev4_constructability_eng.Effects.StructureEffect.{
  TreeChange, build_structure_effect, changed_nodes, report_if, structure_diagnostics,
  structure_effect, structure_request, tree_change,
}

module _ (host : Host) (architect_intake source_bundle : Fields) where
  -- Some permission of the Architect permits the request.
  abbrev pub IsGranted : Request → Type 0
  IsGranted r =
      Covered host (candidate_of host architect_intake) r
        (permissions architect_intake source_bundle)

  -- No class is introduced and no approved one removed, or it is granted.
  abbrev pub ClassAuthorized : List String → ActionIr → Type 0
  ClassAuthorized approved ir =
      (change : ClassChange) × (class_change host ir.normalized_parameters ≡ ok change)
      × (((introduced approved change ≡ []) × (removed_approved approved change ≡ []))
          ⊎ IsGranted (
              class_request host ir
                (introduced approved change ++ removed_approved approved change)))

  -- The target is in the tree, the nodes named fit the tree, and the change is granted.
  abbrev pub StructureAuthorized : NodeMap → ActionIr → Type 0
  StructureAuthorized tree ir =
      (change : TreeChange) × (tree_change host tree ir.action_type ir.target_node
          ir.normalized_parameters
        ≡ ok change)
      × (str_in ir.target_node (node_ids tree) ≡ true)
      × (change.diagnostics ≡ [])
      × IsGranted (structure_request host ir change)

unless_granted_iff :
    (granted : Bool) (d : List String → EffectDiagnostic) (names : List String)
    → (unless_granted granted d names ≡ []) ↔ ((granted ≡ true) ⊎ (names ≡ []))
unless_granted_iff true d [] = (λ h. inl refl, λ h. refl)
unless_granted_iff true d (n ∷ ns) = (λ h. inl refl, λ h. refl)
unless_granted_iff false d [] = (λ h. inr refl, λ h. refl)
unless_granted_iff false d (n ∷ ns) = (λ h. cc, λ h. elim h [ inl e ↦ cc | inr e ↦ cc ])

-- The class diagnostics are absent exactly when the permission is there, or no class is introduced
-- and no approved one removed.
pub class_diagnostics_iff :
    (granted : Bool) (introduced_names removed_names : List String)
    → (class_diagnostics granted introduced_names removed_names ≡ [])
      ↔ ((granted ≡ true) ⊎ ((introduced_names ≡ []) × (removed_names ≡ [])))
unfolding class_diagnostics
class_diagnostics_iff granted is rs =
    let new = unless_granted_iff granted unapproved_class is in
    let old = unless_granted_iff granted approved_class_removed_or_replaced rs in
    (
      λ h.
          let (no_new, no_old) = append-eq-nil (unless_granted granted unapproved_class is) _ h in
          elim (new.0 no_new) [
            | inl g ↦ inl g
            | inr i ↦ elim (old.0 no_old) [ inl g ↦ inl g | inr r ↦ inr (i, r) ]
          ],
      λ h. elim h [
        | inl g ↦ rw (new.1 (inl g), old.1 (inl g))
        | inr (i, r) ↦ rw (new.1 (inr i), old.1 (inr r))
      ],
    )

report_if_iff : (b : Bool) (d : EffectDiagnostic) → (report_if (not b) d ≡ []) ↔ (b ≡ true)
report_if_iff true d = (λ h. refl, λ h. refl)
report_if_iff false d = (λ h. cc, λ h. cc)

structure_diagnostics_iff :
    (host : Host) (tree : NodeMap) (target : String) (change : TreeChange) (granted : Bool)
    → (structure_diagnostics host tree target change granted ≡ [])
      ↔ ((str_in target (node_ids tree) ≡ true) × (change.diagnostics ≡ []) × (granted ≡ true))
unfolding structure_diagnostics
structure_diagnostics_iff host tree target change granted =
    let here = report_if_iff (str_in target (node_ids tree)) target_outside_build_tree in
    let there =
      report_if_iff granted (structure_permission_required (sorted_set (changed_nodes change))) in
    (
      λ h.
          let (a, h1) =
            append-eq-nil
              (report_if (not (str_in target (node_ids tree))) target_outside_build_tree) _ h in
          let (b, c) = append-eq-nil change.diagnostics _ h1 in (here.0 a, b, there.0 c),
      λ (a, b, c). rw (here.1 a, b, there.1 c),
    )

-- Classes that are not changed are neither introduced nor removed.
unchanged_lem :
    (approved : List String) (change : ClassChange)
    → class_set_changed approved change ≡ false
    → (introduced approved change ≡ []) × (removed_approved approved change ≡ [])
unchanged_lem approved change h =
    let (i, rest) = or_false _ _ h in
    let (r, _) = or_false _ _ rest in (is_empty-eq _ (not-false i), is_empty-eq _ (not-false r))
  where
    not-false : {b : Bool} → not b ≡ false → b ≡ true
    not-false {b = true} e = refl
    not-false {b = false} e = cc

module _ (host : Host) (architect_intake source_bundle : Fields) where
  IsGranted-or_none :
      (ir : ActionIr) (approved : List String) (change : ClassChange) (granted : Bool)
      → class_permission host ir approved architect_intake source_bundle change ≡ ok granted
      → ((granted ≡ true)
          ⊎ ((introduced approved change ≡ []) × (removed_approved approved change ≡ [])))
        ↔ (((introduced approved change ≡ []) × (removed_approved approved change ≡ []))
            ⊎ IsGranted host architect_intake source_bundle (
                class_request host ir
                  (introduced approved change ++ removed_approved approved change)))
  unfolding class_permission
  IsGranted-or_none ir approved change granted h =
      elim (Bool-cases (class_set_changed approved change)) [
        | inl e ↦
            let known =
              permission_granted_iff host architect_intake source_bundle
                (class_request host ir
                  (introduced approved change ++ removed_approved approved change))
                granted (rw e at h) in
            (
              λ s. elim s [ inl g ↦ inr (known.0 g) | inr n ↦ inl n ],
              λ s. elim s [ inl n ↦ inr n | inr c ↦ inl (known.1 c) ],
            )
        | inr e ↦
            (λ s. inl (unchanged_lem approved change e), λ s. inr (unchanged_lem approved change e))
      ]

  -- A class effect reports nothing exactly when the action introduces no class outside the approved
  -- set and removes or replaces none inside it, or a permission of the Architect permits the request
  -- for the classes introduced and removed.
  pub class_effect_iff :
      (ir : ActionIr) (approved : List String) (e : ClassEffect)
      → class_effect host ir approved architect_intake source_bundle ≡ ok e
      → (e.diagnostics ≡ []) ↔ ClassAuthorized host architect_intake source_bundle approved ir
  unfolding class_effect
  class_effect_iff ir approved e h =
      let (change, changed, h1) = >>=-eq-ok (class_change host ir.normalized_parameters) _ h in
      let (granted, permitted, h2) =
        >>=-eq-ok (class_permission host ir approved architect_intake source_bundle change) _ h1 in
      let reports =
        class_diagnostics_iff granted (introduced approved change)
          (removed_approved approved change) in
      let known = IsGranted-or_none ir approved change granted permitted in
      let same : build_class_effect host approved change granted ≡ e = ok-injective h2 in
      (
        λ none_left. (
          change,
          changed,
          known.0 (reports.0 (ap (λ (x : ClassEffect). x.diagnostics) same ∙ none_left)),
        ),
        λ (other, is_other, right).
            sym (ap (λ (x : ClassEffect). x.diagnostics) same)
            ∙ reports.1 (
                known.1 (
                  subst
                    (λ c.
                      ((introduced approved c ≡ []) × (removed_approved approved c ≡ []))
                      ⊎ IsGranted host architect_intake source_bundle (
                          class_request host ir
                            (introduced approved c ++ removed_approved approved c)))
                    (ok-injective (sym is_other ∙ changed)) right)),
      )

  -- A structure effect reports nothing exactly when it is authorized.
  pub structure_effect_iff :
      (ir : ActionIr) (tree : NodeMap) (e : StructureEffect)
      → structure_effect host ir tree architect_intake source_bundle ≡ ok e
      → (e.diagnostics ≡ []) ↔ StructureAuthorized host architect_intake source_bundle tree ir
  unfolding structure_effect
  structure_effect_iff ir tree e h =
      let (change, changed, h1) =
        >>=-eq-ok (tree_change host tree ir.action_type ir.target_node ir.normalized_parameters) _
          h in
      let (granted, permitted, h2) =
        >>=-eq-ok
          (permission_granted host architect_intake source_bundle
            (structure_request host ir change))
          _ h1 in
      let reports = structure_diagnostics_iff host tree ir.target_node change granted in
      let known =
        permission_granted_iff host architect_intake source_bundle
          (structure_request host ir change) granted permitted in
      let same : build_structure_effect host tree ir.target_node change granted ≡ e =
        ok-injective h2 in
      (
        λ none_left.
            let (a, b, c) =
              reports.0 (ap (λ (x : StructureEffect). x.diagnostics) same ∙ none_left) in
            (change, changed, a, b, known.0 c),
        λ (other, is_other, a, b, c).
            let to_change = ok-injective (sym is_other ∙ changed) in
            sym (ap (λ (x : StructureEffect). x.diagnostics) same)
            ∙ reports.1 (
              a,
              subst (λ (x : TreeChange). x.diagnostics ≡ []) to_change b,
              known.1 (
                  subst
                    (λ x.
                      IsGranted host architect_intake source_bundle (structure_request host ir x))
                    to_change c),
            ),
      )
