-- ===== src/Rules/PackageLaws.antt =====
-- What the package rules ask: the schema, the Architect contract, the strategies, the first batch
-- and the confirmation.
use ev4_constructability_eng.Base.{
  ◌≡◌, refl, ap, ◌∙◌, ◌↔◌, inl, inr, ℕ, suc, true, false, List, [], ◌∷◌, All, append-eq-nil, arith,
  is_empty, Bool-cases,
}
use ev4_constructability_eng.Base.Python.{ok, >>=-eq-ok, ok-injective}
use ev4_constructability_eng.Json.{
  Json, str, obj, end, Fields, dict_or_empty, get, has_key, is_false, is_null, is_obj, is_true,
  is_zero, list_or_empty, or_else, py_eq, truthy, value_at,
}
use ev4_constructability_eng.Json.Laws.{get-value_at, is_str-eq}
use ev4_constructability_eng.Rules.Document.{
  builder_package, review, same_class_contract, strategy_map, supported_schema,
}
use ev4_constructability_eng.Rules.Unresolved.{
  contains_unresolved_decision, contains_unresolved_decision_iff, Undecided,
}
use ev4_constructability_eng.Rules.Contracts.{
  action_violations, actions_violations, architect_contract, contract_violations, match_violations,
  schema_contract, strategies_violations, strategy_list_violations, strategy_map_contract,
  strategy_violations,
}
use ev4_constructability_eng.Rules.Nodes.{flag}
use ev4_constructability_eng.Rules.Evaluate.{confirmation_violations, lock_violations}

-- An action of the first batch leaves nothing to decide; an entry that is no object has no rule.
abbrev pub ActionIsDecided : Json → Type 0
ActionIsDecided (obj fs) =
    (is_false (value_at "requires_decision" fs) ≡ true) × (¬ (Undecided (value_at "parameters" fs)))
ActionIsDecided _ = Unit

abbrev pub StrategyIsSettled : Json → Type 0
StrategyIsSettled (obj fs) =
    (is_zero (value_at "builder_decisions_required" fs) ≡ true)
    × (is_true (value_at "architect_amendment_required" fs) ≡ false)
StrategyIsSettled _ = ⊥

not-Undecided : (v : Json) → contains_unresolved_decision v ≡ false → ¬ (Undecided v)
not-Undecided v h u = cc ((contains_unresolved_decision_iff v).1 u)

Undecided-not : (v : Json) → ¬ (Undecided v) → contains_unresolved_decision v ≡ false
Undecided-not v h = elim (Bool-cases (contains_unresolved_decision v)) [
  | inl e ↦ absurd (h ((contains_unresolved_decision_iff v).0 e))
  | inr e ↦ e
]

action_sound : (index : ℕ) (a : Json) → action_violations index a ≡ [] → ActionIsDecided a
unfolding action_violations
action_sound index (obj fs) h =
    (ground arith, not-Undecided (value_at "parameters" fs) (ground arith))
action_sound index _ h = tt

action_complete : (index : ℕ) (a : Json) → ActionIsDecided a → action_violations index a ≡ []
unfolding action_violations
action_complete index (obj fs) (settled, decided) =
    rw (settled, Undecided-not (value_at "parameters" fs) decided)
action_complete index _ h = refl

actions_sound :
    (index : ℕ) (as' : List Json) → actions_violations index as' ≡ [] → All ActionIsDecided as'
unfolding actions_violations
actions_sound index [] h = tt
actions_sound index (a ∷ as') h =
    let (here, later) = append-eq-nil (action_violations index a) _ h in
    (action_sound index a here, actions_sound (suc index) as' later)

actions_complete :
    (index : ℕ) (as' : List Json) → All ActionIsDecided as' → actions_violations index as' ≡ []
unfolding actions_violations
actions_complete index [] h = refl
actions_complete index (a ∷ as') (here, later) =
    rw (action_complete index a here) (actions_complete (suc index) as' later)

-- The first batch reports nothing exactly when every action that is an object says that it needs
-- no decision and its parameters hold no undecided choice at any depth.
pub actions_violations_iff :
    (index : ℕ) (as' : List Json) → (actions_violations index as' ≡ []) ↔ All ActionIsDecided as'
actions_violations_iff index as' = (actions_sound index as', actions_complete index as')

strategy_sound : (index : ℕ) (s : Json) → strategy_violations index s ≡ [] → StrategyIsSettled s
unfolding strategy_violations
strategy_sound index (obj fs) h = (ground arith, ground arith)
strategy_sound index _ h = cc

strategies_sound :
    (index : ℕ) (ss : List Json) → strategies_violations index ss ≡ [] → All StrategyIsSettled ss
unfolding strategies_violations
strategies_sound index [] h = tt
strategies_sound index (s ∷ ss) h =
    let (here, later) = append-eq-nil (strategy_violations index s) _ h in
    (strategy_sound index s here, strategies_sound (suc index) ss later)

listed_silent :
    (strategies : Json)
    → strategy_list_violations strategies ≡ []
    → strategies_violations 0 (list_or_empty strategies) ≡ []
unfolding strategy_list_violations
listed_silent strategies h = elim (Bool-cases (is_empty (list_or_empty strategies))) [
  | inl e ↦ cc (rw e at h)
  | inr e ↦ rw e at h
]

-- A package that carries the Architect's candidate and classes.
pub record MatchesArchitect (pkg r : Json) : Type 0 where
  pub contract : Fields
  pub carried : get "architect_contract" pkg ≡ ok (obj contract)
  pub package_candidate : Json
  pub review_candidate : Json
  pub package_classes : Json
  pub reads_package_candidate : get "selected_candidate_id" pkg ≡ ok package_candidate
  pub reads_review_candidate : get "selected_candidate_id" r ≡ ok review_candidate
  pub reads_package_classes : get "approved_class_names" pkg ≡ ok package_classes
  pub same_package_candidate :
      py_eq package_candidate (value_at "selected_candidate_id" contract) ≡ true
  pub same_review_candidate :
      py_eq review_candidate (value_at "selected_candidate_id" contract) ≡ true
  pub same_classes :
      same_class_contract package_classes (value_at "approved_class_names" contract) ≡ true

module _ (doc pkg : Json) (reads : builder_package doc ≡ ok pkg)
    (present : is_null pkg ≡ false) where
  pub schema_contract_sound :
      schema_contract doc ≡ ok [] → get "schema" pkg ≡ ok (str supported_schema)
  unfolding schema_contract
  schema_contract_sound h =
      let (schema, found, h1) = >>=-eq-ok (get "schema" pkg) _ (rw (reads, present) at h) in
      found ∙ ap ok (is_str-eq supported_schema schema (ground arith))

  contract_violations_sound :
      (r contract : Json)
      → review doc ≡ ok r
      → get "architect_contract" pkg ≡ ok contract
      → contract_violations doc pkg contract ≡ ok []
      → MatchesArchitect pkg r
  unfolding contract_violations match_violations
  contract_violations_sound r (obj contract) reads_r carried h =
      let (rc, reads_rc, h1) = >>=-eq-ok (get "selected_candidate_id" r) _ (rw reads_r at h) in
      let (pc, reads_pc, h2) = >>=-eq-ok (get "selected_candidate_id" pkg) _ h1 in
      let (cs, reads_cs, h3) = >>=-eq-ok (get "approved_class_names" pkg) _ h2 in
      record {
        contract = contract;
        carried = carried;
        package_candidate = pc;
        review_candidate = rc;
        package_classes = cs;
        reads_package_candidate = reads_pc;
        reads_review_candidate = reads_rc;
        reads_package_classes = reads_cs;
        same_package_candidate = ground arith;
        same_review_candidate = ground arith;
        same_classes = ground arith;
      }
  contract_violations_sound r _ reads_r carried h = cc

  pub architect_contract_sound :
      (r : Json) → review doc ≡ ok r → architect_contract doc ≡ ok [] → MatchesArchitect pkg r
  unfolding architect_contract
  architect_contract_sound r reads_r h =
      let (contract, carried, h1) =
        >>=-eq-ok (get "architect_contract" pkg) _ (rw (reads, present) at h) in
      contract_violations_sound r contract reads_r carried h1

pub confirmation_sound :
    (pkg : Fields)
    → confirmation_violations pkg ≡ []
    → (is_obj (value_at "confirmation_request" pkg) ≡ true)
      × (truthy (value_at "first_safe_builder_batch" pkg) ≡ true)
      × (has_key "confirmation_id" (dict_or_empty (value_at "confirmation_request" pkg)) ≡ true)
      × (has_key "confirmed_action_ids" (dict_or_empty (value_at "confirmation_request" pkg))
          ≡ true)
      × (has_key "expected_user_token" (dict_or_empty (value_at "confirmation_request" pkg)) ≡ true)
unfolding confirmation_violations
confirmation_sound pkg h = ground arith

pub lock_sound :
    (source : Fields)
    → lock_violations source ≡ []
    → (flag "selected_candidate_locked" source ≡ true)
      × (flag "selected_candidate_id_unchanged" source ≡ true)
      × (flag "approved_class_names_unchanged" source ≡ true)
unfolding lock_violations
lock_sound source h = ground arith

-- The strategies of a map that is there, when the contract reports nothing.
pub strategy_map_contract_sound :
    (doc smap : Json)
    → strategy_map_contract doc true ≡ ok []
    → strategy_map doc ≡ ok smap
    → is_null smap ≡ false
    → All StrategyIsSettled (list_or_empty (value_at "strategies" (dict_or_empty smap)))
unfolding strategy_map_contract strategy_list_violations
strategy_map_contract_sound doc smap h reads there =
    let (pkg, _, h1) = >>=-eq-ok (builder_package doc) _ h in
    let (r, _, h2) = >>=-eq-ok (review doc) _ h1 in
    let (map_ref, _, h3) =
      >>=-eq-ok (get "strategy_map_ref" (or_else pkg (obj end))) _ (rw (reads, there) at h2) in
    let (expected, _, h4) = >>=-eq-ok (get "selected_candidate_id" (or_else pkg r)) _ h3 in
    let (candidate, _, h5) = >>=-eq-ok (get "selected_candidate_id" smap) _ h4 in
    let (strategies, reads_strategies, h6) = >>=-eq-ok (get "strategies" smap) _ h5 in
    let clean = append-eq-nil _ (strategy_list_violations strategies) (ok-injective h6) in
    rw (get-value_at "strategies" smap strategies reads_strategies)
      (strategies_sound 0 (list_or_empty strategies) (listed_silent strategies clean.1))
