-- ===== src/Review/DeriveLaws.antt =====
-- A review is complete exactly when it covers the Architect's nodes and its actions are settled.
use ev4_constructability_eng.Base.{
  ◌≡◌, ◌≢◌, refl, sym, ap, subst, ◌∙◌, ◌↔◌, ◌⊎◌, inl, inr, String, Bool, true, false, not, List, [],
  ◌∷◌, ◌++◌, All, any, all, is_empty, and_true, map, not-true,
}
use ev4_constructability_eng.Base.Python.{
  Py, ok, raise, >>=-eq-ok, ok-injective, action_effect_error,
}
use ev4_constructability_eng.Json.{Fields}
use ev4_constructability_eng.Json.Host.{Host}
use ev4_constructability_eng.Effects.ClassEffect.{sorted_set}
use ev4_constructability_eng.Effects.Derive.{derive_action_effects}
use ev4_constructability_eng.Effects.Inputs.{NodeMap, node_ids}
use ev4_constructability_eng.Effects.Records.{ActionEffects, EffectRecord}
use ev4_constructability_eng.Effects.ReportLaws.{sorted_set-nil}
use ev4_constructability_eng.Review.Derive.{
  reviewed_nodes, Coverage, ReviewEffects, ReviewObligations, all_diagnostics, build_obligations,
  coverage_diagnostics, coverage_of, derive_review_obligations, ids_of, is_blocking, review_effects,
  review_units, unit_diagnostics,
}
use ev4_constructability_eng.Review.Inputs.{ReviewAction, action_map, actions_at}
use ev4_constructability_eng.Review.Nodes.{structure_nodes}
use ev4_constructability_eng.Review.Unit.{ReviewUnit, review_unit}
use ev4_constructability_eng.Review.UnitLaws.{IsKnownType, NoneBlocks, NoneBlocks-append}
use ev4_constructability_eng.Review.CoverageLaws.{IsCovered, IsHidden, coverage_iff, effects_iff}
use ev4_constructability_eng.Review.Inputs.{requested_claims}
use ev4_constructability_eng.Review.Unit.{
  claims_nothing, explicit_no_claim, mandatory_claims, proposed_action_of, rules_of, unit_reports,
}
use ev4_constructability_eng.Review.Nodes.{fields_at}
use ev4_constructability_eng.Review.UnitLaws.{unit_reports_iff}
use ev4_constructability_eng.Base.Sorting.{distinct}

-- A node has actions, all of known types, and claims, or actions that claim and change nothing.
pub record IsSettled (records : List EffectRecord) (all_actions : List ReviewAction)
    (u : ReviewUnit) : Type 0 where
  pub has_action : actions_at u.node_id all_actions ≢ []
  pub types_known :
      All (λ (a : ReviewAction). IsKnownType a.action_type) (actions_at u.node_id all_actions)
  pub claimed :
      (u.required_claims ≢ [])
      ⊎ All (λ a. claims_nothing records a ≡ true) (actions_at u.node_id all_actions)

is_empty-false {ℓ} : {A : Type ℓ} (xs : List A) → (is_empty xs ≡ false) ↔ (xs ≢ [])
is_empty-false [] = (λ h. cc, λ h. elim (h refl) [ ])
is_empty-false (x ∷ xs) = (λ h e. cc, λ h. refl)

all_iff {ℓ} :
    {A : Type ℓ} (p : A → Bool) (xs : List A) → (all p xs ≡ true) ↔ All (λ x. p x ≡ true) xs
all_iff p [] = (λ h. tt, λ h. refl)
all_iff p (x ∷ xs) = (
  λ h. let (a, b) = and_true (p x) (all p xs) h in (a, (all_iff p xs).0 b),
  λ (a, b). rw (a, (all_iff p xs).1 b),
)

sorted_set-nonempty : (names : List String) → (is_empty names ≡ false) ↔ (sorted_set names ≢ [])
sorted_set-nonempty names =
    let same = sorted_set-nil names in
    let empty = is_empty-false names in
    (λ h e. empty.0 h (same.0 e), λ h. empty.1 (λ e. h (same.1 e)))

explicit_iff :
    (records : List EffectRecord) (actions : List ReviewAction)
    → is_empty actions ≡ false
    → (explicit_no_claim records actions ≡ true)
      ↔ All (λ a. claims_nothing records a ≡ true) actions
explicit_iff records actions some_action =
    let known = all_iff (claims_nothing records) actions in
    (λ h. known.0 (and_true (not (is_empty actions)) _ h).1, λ h. rw (some_action, known.1 h))

module _ (host : Host) (records : List EffectRecord) (all_actions : List ReviewAction)
    (reviewed : NodeMap) where
  IsSettled-of :
      (mandatory requested : List String) (u : ReviewUnit)
      → u.required_claims ≡ sorted_set (mandatory ++ requested)
      → u.diagnostics
        ≡ unit_reports u.node_id records (actions_at u.node_id all_actions) mandatory requested
      → NoneBlocks u.diagnostics ↔ IsSettled records all_actions u
  IsSettled-of mandatory requested u claims reports =
      let actions = actions_at u.node_id all_actions in
      let parts = unit_reports_iff u.node_id records actions mandatory requested in
      let some_claim = sorted_set-nonempty (mandatory ++ requested) in
      (
        λ h.
            let (known, acting, claimed) = parts.0 (sym (ap (any is_blocking) reports) ∙ h) in
            record {
              has_action = (is_empty-false actions).0 acting;
              types_known = known;
              claimed = elim claimed [
                | inl e ↦ inl (λ none_left. some_claim.0 e (sym claims ∙ none_left))
                | inr e ↦ inr ((explicit_iff records actions acting).0 e)
              ];
            },
        λ settled.
            let acting = (is_empty-false actions).1 settled.has_action in
            ap (any is_blocking) reports
            ∙ parts.1 (
              settled.types_known,
              acting,
              elim settled.claimed [
                | inl e ↦ inl (some_claim.1 (λ none_left. e (claims ∙ none_left)))
                | inr e ↦ inr ((explicit_iff records actions acting).1 e)
              ],
            ),
      )

  unit_iff :
      (node_id : String) (u : ReviewUnit)
      → review_unit host records all_actions reviewed node_id ≡ ok u
      → NoneBlocks u.diagnostics ↔ IsSettled records all_actions u
  unfolding review_unit
  unit_iff node_id u h =
      let actions = actions_at node_id all_actions in
      let mandatory =
        mandatory_claims records (actions_at node_id all_actions)
          (proposed_action_of host (fields_at node_id reviewed)) (fields_at node_id reviewed) in
      let (requested, _, h1) = >>=-eq-ok (requested_claims (fields_at node_id reviewed)) _ h in
      let (rules, _, h2) = >>=-eq-ok (rules_of (distinct (mandatory ++ requested))) _ h1 in
      subst (λ (x : ReviewUnit). NoneBlocks x.diagnostics ↔ IsSettled records all_actions x)
        (ok-injective h2) (IsSettled-of mandatory requested _ refl refl)

  units_iff :
      (ids : List String) (us : List ReviewUnit)
      → review_units host records all_actions reviewed ids ≡ ok us
      → NoneBlocks (unit_diagnostics us) ↔ All (IsSettled records all_actions) us
  unfolding review_units
  units_iff [] us h =
      subst (λ xs. NoneBlocks (unit_diagnostics xs) ↔ All (IsSettled records all_actions) xs)
        (ok-injective h) (λ e. tt, λ e. refl)
  units_iff (i ∷ ids) us h =
      let (u, derived, h1) = >>=-eq-ok (review_unit host records all_actions reviewed i) _ h in
      let (more, looped, h2) =
        >>=-eq-ok (review_units host records all_actions reviewed ids) _ h1 in
      let here = unit_iff i u derived in
      let later = units_iff ids more looped in
      let both = NoneBlocks-append u.diagnostics (unit_diagnostics more) in
      subst (λ xs. NoneBlocks (unit_diagnostics xs) ↔ All (IsSettled records all_actions) xs)
        (ok-injective h2)
        (
          λ e. let (a, b) = both.0 e in (here.0 a, later.0 b),
          λ (a, b). both.1 (here.1 a, later.1 b),
        )

-- The units cover the Architect's nodes, the effects of the actions are derived and report no more
-- than undecided actions, and every unit is settled.
pub record IsComplete (host : Host) (intake bundle draft : Fields) (actions : List ReviewAction)
    (r : ReviewObligations) : Type 0 where
  pub covered :
      IsCovered
        (ids_of r.required_architect_nodes)
        (node_ids (reviewed_nodes draft))
        (map (λ (a : ReviewAction). a.target_node) actions)
  pub effects :
      (e : ActionEffects) × (derive_action_effects host intake bundle draft ≡ ok e)
      × All IsHidden e.diagnostics
  pub settled : All (IsSettled r.action_effects.records actions) r.units

review_effects_iff :
    (m : Py ActionEffects) (effects : ReviewEffects)
    → review_effects m ≡ ok effects
    → NoneBlocks effects.diagnostics
      ↔ ((e : ActionEffects) × (m ≡ ok e) × All IsHidden e.diagnostics)
unfolding review_effects is_blocking
review_effects_iff (ok e) effects h =
    let known = effects_iff e.diagnostics in
    subst
      (λ (x : ReviewEffects).
        NoneBlocks x.diagnostics
        ↔ ((f : ActionEffects) × (ok e ≡ ok f) × All IsHidden f.diagnostics))
      (ok-injective h)
      (
        λ none_blocks. (e, refl, known.0 none_blocks),
        λ (f, same, hidden). known.1 (
            subst (λ (x : ActionEffects). All IsHidden x.diagnostics) (ok-injective (sym same))
              hidden),
      )
review_effects_iff (raise (action_effect_error message)) effects h =
    subst
      (λ (x : ReviewEffects). NoneBlocks x.diagnostics ↔ (
        (f : ActionEffects) × (raise (action_effect_error message) ≡ ok f)
        × All IsHidden f.diagnostics))
      (ok-injective h) (λ none_blocks. cc, λ (f, same, hidden). cc)
review_effects_iff (raise _) effects h = cc

parts_iff :
    (coverage : Coverage) (effects : ReviewEffects) (units : List ReviewUnit)
    → (not (any is_blocking (all_diagnostics coverage effects units)) ≡ true) ↔ (
        NoneBlocks (coverage_diagnostics coverage)
        × NoneBlocks effects.diagnostics
        × NoneBlocks (unit_diagnostics units))
parts_iff coverage effects units =
    let first =
      NoneBlocks-append (coverage_diagnostics coverage)
        (effects.diagnostics ++ unit_diagnostics units) in
    let second = NoneBlocks-append effects.diagnostics (unit_diagnostics units) in
    (
      λ h. let (a, rest) = first.0 (not-true _ h) in let (b, c) = second.0 rest in (a, b, c),
      λ (a, b, c). ap not (first.1 (a, second.1 (b, c))),
    )

-- The obligations that are derived from a draft are complete exactly when the draft has one unit
-- for each node of the Architect and for no other, its actions are about these nodes, the effects
-- of the actions are derived and report at most that an action is undecided, and each node has an
-- action, only actions of known types, and a claim unless its actions claim and change nothing.
pub derive_review_obligations_iff :
    (host : Host) (architect_intake source_bundle review_draft : Fields) (r : ReviewObligations)
    → derive_review_obligations host architect_intake source_bundle review_draft ≡ ok r
    → (actions : List ReviewAction) × (action_map review_draft ≡ ok actions)
      × ((r.complete ≡ true)
          ↔ IsComplete host architect_intake source_bundle review_draft actions r)
unfolding derive_review_obligations build_obligations
derive_review_obligations_iff host architect_intake source_bundle review_draft r h =
    let (nodes, _, h1) = >>=-eq-ok (structure_nodes host architect_intake source_bundle) _ h in
    let (actions, mapped, h2) = >>=-eq-ok (action_map review_draft) _ h1 in
    let (effects, derived, h3) =
      >>=-eq-ok
        (review_effects (derive_action_effects host architect_intake source_bundle review_draft)) _
        h2 in
    let reviewed = reviewed_nodes review_draft in
    let (units, looped, h4) =
      >>=-eq-ok (review_units host effects.records actions reviewed (ids_of nodes)) _ h3 in
    let targets = map (λ (a : ReviewAction). a.target_node) actions in
    let coverage = coverage_of (ids_of nodes) (node_ids reviewed) targets in
    let parts = parts_iff coverage effects units in
    let covering = coverage_iff (ids_of nodes) (node_ids reviewed) targets in
    let effecting =
      review_effects_iff (derive_action_effects host architect_intake source_bundle review_draft)
        effects derived in
    let settling = units_iff host effects.records actions reviewed (ids_of nodes) units looped in
    (
      actions,
      mapped,
      subst
          (λ (x : ReviewObligations).
            (x.complete ≡ true)
            ↔ IsComplete host architect_intake source_bundle review_draft actions x)
          (ok-injective h4)
          (
            λ e.
                let (a, b, c) = parts.0 e in
                record { covered = covering.0 a; effects = effecting.0 b; settled = settling.0 c },
            λ done.
                parts.1
                  (covering.1 done.covered, effecting.1 done.effects, settling.1 done.settled),
          ),
    )
