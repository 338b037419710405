-- ===== src/Review/CoverageLaws.antt =====
-- When the coverage of the nodes, and the effects of the actions, report nothing that blocks.
use ev4_constructability_eng.Base.{
  ◌≡◌, refl, ap, ◌↔◌, String, Bool, true, false, not, List, [], ◌∷◌, ◌++◌, All, All-map, any, map,
  or_false, leb, str_in,
}
use ev4_constructability_eng.Effects.ClassEffect.{outside, sorted_set}
use ev4_constructability_eng.Effects.Records.{
  Diagnostic, EffectDiagnostic, action_invalid, approved_class_removed_or_replaced,
  forbidden_work_conflict, hidden_builder_decision, new_parent_outside_build_tree,
  parameters_invalid, parent_outside_build_tree, produced_node_already_exists,
  structure_permission_required, target_outside_build_tree, unapproved_class,
}
use ev4_constructability_eng.Effects.ReportLaws.{keep-nil, sorted_set-nil}
use ev4_constructability_eng.Review.Derive.{
  count_of, coverage_diagnostics, coverage_of, is_blocking, repeated,
}
use ev4_constructability_eng.Review.Unit.{
  ReviewDiagnostic, duplicate_review_unit, of_effects, orphan_draft_node, required_node_missing,
  unknown_action_target,
}
use ev4_constructability_eng.Review.UnitLaws.{NoneBlocks, NoneBlocks-append}

-- Every required node has a unit, every unit is of a required node, no node has two, and every
-- action is about a required node.
pub record IsCovered (required_ids reviewed_ids targets : List String) : Type 0 where
  pub all_reviewed : All (λ i. str_in i reviewed_ids ≡ true) required_ids
  pub no_orphan : All (λ i. str_in i required_ids ≡ true) reviewed_ids
  pub no_duplicate : All (λ i. leb 2 (count_of i reviewed_ids) ≡ false) reviewed_ids
  pub targets_known : All (λ i. str_in i required_ids ≡ true) targets

-- Diagnostics of one blocking kind are absent.
named_iff :
    (f : String → ReviewDiagnostic) (names : List String)
    → ((n : String) → is_blocking (f n) ≡ true)
    → NoneBlocks (map f names) ↔ (names ≡ [])
named_iff f [] blocks = (λ h. refl, λ h. refl)
named_iff f (n ∷ names) blocks = (
  λ h. cc (blocks n, (or_false (is_blocking (f n)) (any is_blocking (map f names)) h).0),
  λ h. cc,
)

outside_iff :
    (known names : List String)
    → (sorted_set (outside known names) ≡ []) ↔ All (λ n. str_in n known ≡ true) names
outside_iff known names =
    let sorted = sorted_set-nil (outside known names) in
    let kept = keep-nil (λ n. not (str_in n known)) names in
    (
      λ h.
          All-map {P = λ n. not (str_in n known) ≡ false} names (λ n e. flip (str_in n known) e)
            (kept.0 (sorted.0 h)),
      λ h. sorted.1 (kept.1 (All-map {P = λ n. str_in n known ≡ true} names (λ n e. ap not e) h)),
    )
  where
    flip : (b : Bool) → not b ≡ false → b ≡ true
    flip true e = refl
    flip false e = cc

repeated_iff :
    (names : List String)
    → (sorted_set (repeated names) ≡ []) ↔ All (λ i. leb 2 (count_of i names) ≡ false) names
repeated_iff names =
    let sorted = sorted_set-nil (repeated names) in
    let kept = keep-nil (λ i. leb 2 (count_of i names)) names in
    (λ h. kept.0 (sorted.0 h), λ h. sorted.1 (kept.1 h))

pub coverage_iff :
    (required_ids reviewed_ids targets : List String)
    → NoneBlocks (coverage_diagnostics (coverage_of required_ids reviewed_ids targets))
      ↔ IsCovered required_ids reviewed_ids targets
unfolding coverage_of is_blocking
coverage_iff required_ids reviewed_ids targets =
    let missing = map required_node_missing (sorted_set (outside reviewed_ids required_ids)) in
    let orphans = map orphan_draft_node (sorted_set (outside required_ids reviewed_ids)) in
    let twice = map duplicate_review_unit (sorted_set (repeated reviewed_ids)) in
    let unknown = map unknown_action_target (sorted_set (outside required_ids targets)) in
    let first = NoneBlocks-append missing (orphans ++ (twice ++ unknown)) in
    let second = NoneBlocks-append orphans (twice ++ unknown) in
    let third = NoneBlocks-append twice unknown in
    let m =
      named_iff required_node_missing (sorted_set (outside reviewed_ids required_ids))
        (λ n. refl) in
    let o =
      named_iff orphan_draft_node (sorted_set (outside required_ids reviewed_ids)) (λ n. refl) in
    let d = named_iff duplicate_review_unit (sorted_set (repeated reviewed_ids)) (λ n. refl) in
    let u =
      named_iff unknown_action_target (sorted_set (outside required_ids targets)) (λ n. refl) in
    let m' = outside_iff reviewed_ids required_ids in
    let o' = outside_iff required_ids reviewed_ids in
    let d' = repeated_iff reviewed_ids in
    let u' = outside_iff required_ids targets in
    (
      λ h.
          let (a, h1) = first.0 h in
          let (b, h2) = second.0 h1 in
          let (c, e) = third.0 h2 in
          record {
            all_reviewed = m'.0 (m.0 a);
            no_orphan = o'.0 (o.0 b);
            no_duplicate = d'.0 (d.0 c);
            targets_known = u'.0 (u.0 e);
          },
      λ covered. first.1 (
        m.1 (m'.1 covered.all_reviewed),
        second.1 (
          o.1 (o'.1 covered.no_orphan),
          third.1 (d.1 (d'.1 covered.no_duplicate), u.1 (u'.1 covered.targets_known)),
        ),
      ),
    )

-- A diagnostic that tells of an undecided action.
abbrev pub IsHidden : Diagnostic → Type 0
IsHidden d = (paths : List String) × (d.finding ≡ hidden_builder_decision paths)

effect_lem :
    (f : EffectDiagnostic) (a : _)
    → (is_blocking (of_effects (record { finding = f; action = a })) ≡ false)
      ↔ IsHidden (record { finding = f; action = a })
unfolding is_blocking
effect_lem (hidden_builder_decision paths) a = (λ h. (paths, refl), λ h. refl)
effect_lem (unapproved_class ns) a = (λ h. cc, λ (ps, e). cc)
effect_lem (approved_class_removed_or_replaced ns) a = (λ h. cc, λ (ps, e). cc)
effect_lem target_outside_build_tree a = (λ h. cc, λ (ps, e). cc)
effect_lem produced_node_already_exists a = (λ h. cc, λ (ps, e). cc)
effect_lem parent_outside_build_tree a = (λ h. cc, λ (ps, e). cc)
effect_lem new_parent_outside_build_tree a = (λ h. cc, λ (ps, e). cc)
effect_lem (structure_permission_required ns) a = (λ h. cc, λ (ps, e). cc)
effect_lem (forbidden_work_conflict ws) a = (λ h. cc, λ (ps, e). cc)
effect_lem action_invalid a = (λ h. cc, λ (ps, e). cc)
effect_lem (parameters_invalid m) a = (λ h. cc, λ (ps, e). cc)

pub effects_iff : (ds : List Diagnostic) → NoneBlocks (map of_effects ds) ↔ All IsHidden ds
effects_iff [] = (λ h. tt, λ h. refl)
effects_iff (d ∷ ds) =
    let here = effect_lem d.finding d.action in
    let later = effects_iff ds in
    (λ h. let (a, b) = or_false _ _ h in (here.0 a, later.0 b), λ (a, b). rw (here.1 a, later.1 b))
