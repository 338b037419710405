-- ===== src/Registry/Closure.antt =====
-- What holds of every entry of the two tables, whatever key it is found under.
use ev4_constructability_eng.Base.{
  ◌≡◌, ◌↔◌, refl, ap, ◌∙◌, sym, inl, inr, String, Bool, true, false, not, ◌||◌, ◌&&◌, ◌==◌, none,
  some, List, [], ◌∷◌, ◌++◌, All, all, and_true, arith, if◌then◌else◌, not-true, eq_iff, is_empty,
  is_empty-eq, str_in, Bool-cases, Option-cases,
}
use mathlib.Core.Option.{some-injective}
use ev4_constructability_eng.Registry.Contract.{ActionContract, find}
use ev4_constructability_eng.Registry.Actions.{action_contracts, contract_for}
use ev4_constructability_eng.Registry.Claims.{
  ClaimPolicy, claim_policies, is_post_builder, policy, policy_for,
}

-- A test that every entry of a table passes holds of whatever is found in it.
pub find-all {ℓ} :
    {V : Type ℓ} (p : V → Bool) (k : String) (table : List (String × V)) (v : V)
    → all (λ e. p e.1) table ≡ true
    → find k table ≡ some v
    → p v ≡ true
find-all p k [] v h found = cc
find-all p k ((j, w) ∷ table) v h found =
    let (here, later) = and_true (p w) (all (λ e. p e.1) table) h in
    elim (Bool-cases (j == k)) [
      | inl e ↦ ap p (some-injective _ _ (sym (rw e at found))) ∙ here
      | inr e ↦ find-all p k table v later (rw e at found)
    ]

abbrev allowed : ActionContract → List String
allowed c = c.required_parameter_keys ++ c.optional_parameter_keys

abbrev alias_ok : List String → String × String → Bool
alias_ok keys (alias, key) = str_in key keys && not (str_in alias keys)

abbrev known_claim : String → Bool
known_claim claim = elim (policy_for claim) [ none ↦ false | some p ↦ true ]

-- The tests on one contract.
abbrev same : Bool → Bool → Bool
same true b = b
same false b = not b

contract_ok : ActionContract → Bool
contract_ok c =
    all (alias_ok (allowed c)) c.aliases
    && (all (λ k. not (str_in k c.optional_parameter_keys)) c.required_parameter_keys
        && (all known_claim c.required_claims
            && (same (not (is_empty c.derived_structure_effects))
                  (str_in "architect_structure_permission" c.required_permissions)
                && (not (is_empty c.required_claims)
                    || (is_empty c.derived_class_effects
                        && is_empty c.derived_structure_effects)))))

contracts_ok : all (λ e. contract_ok e.1) action_contracts ≡ true
unfolding contract_ok policy_for
contracts_ok = refl

-- A claim that has a policy.
abbrev pub HasPolicy : String → Type 0
HasPolicy claim = (p : ClaimPolicy) × (policy_for claim ≡ some p)

pub record IsClosed (c : ActionContract) : Type 0 where
  pub aliases_resolve : All (λ a. str_in a.1 (allowed c) ≡ true) c.aliases
  pub aliases_fresh : All (λ a. str_in a.0 (allowed c) ≡ false) c.aliases
  pub keys_disjoint :
      All (λ k. str_in k c.optional_parameter_keys ≡ false) c.required_parameter_keys
  pub claims_known : All HasPolicy c.required_claims
  pub structure_permission :
      (str_in "architect_structure_permission" c.required_permissions ≡ false)
      ↔ (c.derived_structure_effects ≡ [])
  pub no_claim_no_effect :
      c.required_claims ≡ [] → (c.derived_class_effects ≡ []) × (c.derived_structure_effects ≡ [])

pub All-all {ℓ κ} :
    {A : Type ℓ} (p : A → Bool) (P : A → Type κ) (xs : List A)
    → ((x : A) → p x ≡ true → P x)
    → all p xs ≡ true
    → All P xs
All-all p P [] f h = tt
All-all p P (x ∷ xs) f h =
    let (here, later) = and_true (p x) (all p xs) h in (f x here, All-all p P xs f later)

known_claim-HasPolicy : (claim : String) → known_claim claim ≡ true → HasPolicy claim
known_claim-HasPolicy claim h = elim (Option-cases (policy_for claim)) [
  | inl e ↦ cc (rw (e, known_claim) at h)
  | inr found ↦ found
]

permission_iff :
    (effects : List String) (granted : Bool)
    → same (not (is_empty effects)) granted ≡ true
    → (granted ≡ false) ↔ (effects ≡ [])
permission_iff [] granted h = (λ e. refl, λ e. not-true granted h)
permission_iff (x ∷ xs) granted h = (λ e. cc, λ e. cc)

no_effect :
    (claims classes structure : List String)
    → (not (is_empty claims) || (is_empty classes && is_empty structure)) ≡ true
    → claims ≡ []
    → (classes ≡ []) × (structure ≡ [])
no_effect [] classes structure h e =
    let (c, s) = and_true (is_empty classes) (is_empty structure) h in
    (is_empty-eq classes c, is_empty-eq structure s)
no_effect (x ∷ xs) classes structure h e = cc

IsClosed-of_test : (c : ActionContract) → contract_ok c ≡ true → IsClosed c
unfolding contract_ok
IsClosed-of_test c h =
    let (aliases, h1) = and_true _ _ h in
    let (keys, h2) = and_true _ _ h1 in
    let (claims, h3) = and_true _ _ h2 in
    let (structure, effects) = and_true _ _ h3 in
    record {
      aliases_resolve =
          All-all _ _ c.aliases (λ a t. (and_true (str_in a.1 (allowed c)) _ t).0) aliases;
      aliases_fresh =
          All-all _ _ c.aliases (λ a t. not-true _ (and_true (str_in a.1 (allowed c)) _ t).1)
            aliases;
      keys_disjoint = All-all _ _ c.required_parameter_keys (λ k t. not-true _ t) keys;
      claims_known = All-all known_claim _ c.required_claims known_claim-HasPolicy claims;
      structure_permission = permission_iff c.derived_structure_effects _ structure;
      no_claim_no_effect =
          no_effect c.required_claims c.derived_class_effects c.derived_structure_effects effects;
    }

-- Whatever action type is found in the table: its aliases name allowed parameters and are no
-- parameters themselves, no key is both required and optional, every claim it requires has a
-- policy, it requires the structure permission exactly when it changes the structure, and an
-- action that requires no claim changes neither classes nor structure.
pub contract_for-IsClosed :
    (action_type : String) (c : ActionContract) → contract_for action_type ≡ some c → IsClosed c
unfolding contract_for
contract_for-IsClosed action_type c found =
    IsClosed-of_test c (find-all contract_ok action_type action_contracts c contracts_ok found)

-- What the phase of a claim decides.
pub record PhaseIsKept (p : ClaimPolicy) : Type 0 where
  pub runtime_never_blocks : is_post_builder p.lifecycle_phase ≡ true → p.blocking ≡ false
  pub runtime_never_authorizes :
      is_post_builder p.lifecycle_phase ≡ true → p.may_authorize_builder_handoff ≡ false
  pub runtime_effects :
      is_post_builder p.lifecycle_phase ≡ true
      → (p.builder_handoff_effect ≡ "require_complete_obligation")
        × (p.final_completion_effect ≡ "require_executed_pass")
  pub static_blocks : is_post_builder p.lifecycle_phase ≡ false → p.blocking ≡ true
  pub static_effects :
      is_post_builder p.lifecycle_phase ≡ false
      → (p.builder_handoff_effect ≡ "require_satisfied")
        × (str_in "VERIFIED_TOOL_EXECUTION" p.success_modes ≡ false)

policy_ok : ClaimPolicy → Bool
policy_ok p =
    if is_post_builder p.lifecycle_phase
    then not p.blocking
      && (not p.may_authorize_builder_handoff
          && ((p.builder_handoff_effect == "require_complete_obligation")
              && (p.final_completion_effect == "require_executed_pass")))
    else p.blocking
      && ((p.builder_handoff_effect == "require_satisfied")
          && not (str_in "VERIFIED_TOOL_EXECUTION" p.success_modes))

policies_ok : all (λ e. policy_ok e.1) claim_policies ≡ true
unfolding policy_ok policy
policies_ok = refl

kept_of_test : (p : ClaimPolicy) → policy_ok p ≡ true → PhaseIsKept p
unfolding policy_ok
kept_of_test p h =
    let handoff = eq_iff p.builder_handoff_effect "require_complete_obligation" in
    let completion = eq_iff p.final_completion_effect "require_executed_pass" in
    let satisfied = eq_iff p.builder_handoff_effect "require_satisfied" in
    record {
      runtime_never_blocks = λ e. ground arith;
      runtime_never_authorizes = λ e. ground arith;
      runtime_effects = λ e. (handoff.0 (ground arith), completion.0 (ground arith));
      static_blocks = λ e. ground arith;
      static_effects = λ e. (satisfied.0 (ground arith), ground arith);
    }

-- Whatever claim is found in the table: a post-Builder claim never blocks and never authorizes a
-- Builder handoff, asks for a complete obligation before it and an executed pass after; any other
-- claim blocks, must be satisfied, and is never satisfied by a tool execution.
pub policy_for-PhaseIsKept :
    (claim : String) (p : ClaimPolicy) → policy_for claim ≡ some p → PhaseIsKept p
unfolding policy_for
policy_for-PhaseIsKept claim p found =
    kept_of_test p (find-all policy_ok claim claim_policies p policies_ok found)
