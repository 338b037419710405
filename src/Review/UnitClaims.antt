-- ===== src/Review/UnitClaims.antt =====
-- The units of a review, one for each node, with the claims that each must have.
use ev4_constructability_eng.Base.{◌≡◌, refl, subst, String, List, [], ◌∷◌, All}
use ev4_constructability_eng.Base.Python.{ok, >>=-eq-ok, ok-injective}
use ev4_constructability_eng.Json.{Fields}
use ev4_constructability_eng.Json.Host.{Host}
use ev4_constructability_eng.Effects.Inputs.{NodeMap}
use ev4_constructability_eng.Effects.Records.{EffectRecord}
use ev4_constructability_eng.Review.Inputs.{ReviewAction}
use ev4_constructability_eng.Review.Unit.{ReviewUnit, review_unit}
use ev4_constructability_eng.Effects.Derive.{derive_action_effects}
use ev4_constructability_eng.Review.Derive.{
  reviewed_nodes, ReviewObligations, build_obligations, derive_review_obligations, ids_of,
  review_effects, review_units,
}
use ev4_constructability_eng.Review.Inputs.{action_map}
use ev4_constructability_eng.Review.Nodes.{structure_nodes}
use ev4_constructability_eng.Base.{map}
use ev4_constructability_eng.Review.ContentLaws.{HasClaims, review_unit-HasClaims}

module _ (host : Host) (records : List EffectRecord) (actions : List ReviewAction)
    (reviewed : NodeMap) where
  pub review_units-HasClaims :
      (ids : List String) (us : List ReviewUnit)
      → review_units host records actions reviewed ids ≡ ok us
      → (map (λ (u : ReviewUnit). u.node_id) us ≡ ids) × All (HasClaims records actions reviewed) us
  unfolding review_units
  review_units-HasClaims [] us h =
      subst
        (λ xs.
          (map (λ (u : ReviewUnit). u.node_id) xs ≡ [])
          × All (HasClaims records actions reviewed) xs)
        (ok-injective h) (refl, tt)
  review_units-HasClaims (i ∷ ids) us h =
      let (u, derived, h1) = >>=-eq-ok (review_unit host records actions reviewed i) _ h in
      let (more, looped, h2) = >>=-eq-ok (review_units host records actions reviewed ids) _ h1 in
      let (same, claims) = review_unit-HasClaims host records actions reviewed i u derived in
      let (ids_same, later) = review_units-HasClaims ids more looped in
      subst
        (λ xs.
          (map (λ (x : ReviewUnit). x.node_id) xs ≡ i ∷ ids)
          × All (HasClaims records actions reviewed) xs)
        (ok-injective h2) (cc, (claims, later))

-- The obligations that are derived have one unit for each node of the Architect, in their order,
-- and each unit requires the claims of every action of its node that has a known type, geometry
-- when such an action changes the classes or the structure, and every claim that the draft
-- requests for the node, and no claim without a policy.
pub derive_review_obligations-HasClaims :
    (host : Host) (architect_intake source_bundle review_draft : Fields) (r : ReviewObligations)
    → derive_review_obligations host architect_intake source_bundle review_draft ≡ ok r
    → (actions : List ReviewAction) × (action_map review_draft ≡ ok actions)
      × (map (λ (u : ReviewUnit). u.node_id) r.units ≡ ids_of r.required_architect_nodes)
      × All (HasClaims r.action_effects.records actions (reviewed_nodes review_draft)) r.units
unfolding derive_review_obligations build_obligations
derive_review_obligations-HasClaims host architect_intake source_bundle review_draft r h =
    let (nodes, _, h1) = >>=-eq-ok (structure_nodes host architect_intake source_bundle) _ h in
    let (actions, mapped, h2) = >>=-eq-ok (action_map review_draft) _ h1 in
    let (effects, _, h3) =
      >>=-eq-ok
        (review_effects (derive_action_effects host architect_intake source_bundle review_draft)) _
        h2 in
    let reviewed = reviewed_nodes review_draft in
    let (units, looped, h4) =
      >>=-eq-ok (review_units host effects.records actions reviewed (ids_of nodes)) _ h3 in
    let both =
      subst
        (λ (x : ReviewObligations).
          (map (λ (u : ReviewUnit). u.node_id) x.units ≡ ids_of x.required_architect_nodes)
          × All (HasClaims x.action_effects.records actions reviewed) x.units)
        (ok-injective h4)
        (review_units-HasClaims host effects.records actions reviewed (ids_of nodes) units
          looped) in
    (actions, mapped, both.0, both.1)
