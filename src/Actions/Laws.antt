-- ===== src/Actions/Laws.antt =====
-- What a normalized action and a list of them guarantee.
use ev4_constructability_eng.Base.{
  ◌≡◌, ◌≢◌, refl, ap, subst, ◌↔◌, ℕ, suc, String, ◌<>◌, true, false, not, Option, none, some, List,
  [], ◌∷◌, All, is_empty, length, not-true, str_in, eq_iff, and_true, arith, sym, ◌∙◌,
}
use ev4_constructability_eng.Base.Sorting.{length-sort_texts, sort_texts}
use ev4_constructability_eng.Base.Python.{ok, >>=-eq-ok, ensure-then, ok-injective}
use ev4_constructability_eng.Json.{
  Json, obj, str, is_text, Fields, end, from_default, has_key, lookup, value_at,
}
use ev4_constructability_eng.Registry.Contract.{ActionContract}
use ev4_constructability_eng.Registry.Actions.{contract_for}
use ev4_constructability_eng.Actions.Hidden.{Open, hidden_decisions, hidden_decisions_iff}
use ev4_constructability_eng.Actions.Parameters.{allowed_keys, normalized_parameters}
use ev4_constructability_eng.Actions.KeyLaws.{KeysIn, normalized_parameters-KeysIn}
use ev4_constructability_eng.Actions.Normalize.{
  ActionIr, build_ir, identity_complete, known_contract, normalize_action, normalize_actions,
  normalize_known, normalize_loop, parameters_key, parameters_object, proposal_path, state_of,
  text_value, unknown_top,
}

-- The parameters that an action gives.
abbrev pub given : Fields → Json
given action = from_default (lookup (parameters_key action) action) (obj end)

pub record IsNormal (action : Fields) (ir : ActionIr) : Type 0 where
  pub contract : ActionContract
  pub in_table : contract_for ir.action_type ≡ some contract
  pub same_id : value_at "action_id" action ≡ str ir.action_id
  pub same_type : value_at "action_type" action ≡ str ir.action_type
  pub same_target : value_at "target_node" action ≡ str ir.target_node
  pub class_effects : ir.class_effects ≡ contract.derived_class_effects
  pub structure_effects : ir.structure_effects ≡ contract.derived_structure_effects
  pub decision_effects : ir.decision_effects ≡ contract.derived_decision_effects
  pub required_claims : ir.required_claims ≡ contract.required_claims
  pub required_permissions : ir.required_permissions ≡ contract.required_permissions
  pub keys_allowed : KeysIn ir.normalized_parameters (allowed_keys contract)
  pub keys_present :
      All (λ key. has_key key ir.normalized_parameters ≡ true) contract.required_parameter_keys
  pub decided : (ir.decision_state ≡ "resolved") ↔ (¬ (Open (given action)))
  pub nothing_hidden : (ir.hidden_decision_paths ≡ []) ↔ (¬ (Open (given action)))

-- An identity that is a nonempty text is the text that is kept.
is_text-eq : (v : Json) → is_text v ≡ true → v ≡ str (text_value v)
is_text-eq (str s) h = refl
is_text-eq _ h = cc

sort_texts-nil : (ss : List String) → (sort_texts ss ≡ []) ↔ (ss ≡ [])
unfolding sort_texts
sort_texts-nil [] = (λ h. refl, λ h. refl)
sort_texts-nil (s ∷ ss) =
    (λ h. elim (suc-not-zero (sym (length-sort_texts (s ∷ ss)) ∙ ap length h)) [ ], λ h. cc)
  where
    suc-not-zero : {n : ℕ} → suc n ≢ 0
    suc-not-zero e = omega arith

state_iff : (hidden : List String) → (state_of hidden ≡ "resolved") ↔ (hidden ≡ [])
state_iff [] = (λ e. refl, λ e. refl)
state_iff (p ∷ ps) = (λ e. cc ((eq_iff "unresolved" "resolved").1 e), λ e. cc)

known_contract-eq :
    (t : String) (o : Option ActionContract) (c : ActionContract)
    → known_contract t o ≡ ok c
    → o ≡ some c
known_contract-eq t none c h = cc
known_contract-eq t (some d) c h = ap some (ok-injective h)

parameters_object-eq : (v : Json) (fs : Fields) → parameters_object v ≡ ok fs → v ≡ obj fs
parameters_object-eq (obj gs) fs h = ap obj (ok-injective h)
parameters_object-eq _ fs h = cc

built_IsNormal :
    (action raw parameters : Fields) (contract : ActionContract) (index : ℕ) (path : String)
    → identity_complete action ≡ true
    → contract_for (text_value (value_at "action_type" action)) ≡ some contract
    → given action ≡ obj raw
    → normalized_parameters (text_value (value_at "action_type" action)) contract raw
      ≡ ok parameters
    → IsNormal action (build_ir action contract parameters (hidden_decisions (obj raw) path) index)
unfolding build_ir
built_IsNormal action raw parameters contract index path complete found is_raw normalized =
    let (has_id, rest) = and_true (is_text (value_at "action_id" action)) _ complete in
    let (has_type, has_target) = and_true (is_text (value_at "action_type" action)) _ rest in
    let listed = sort_texts-nil (hidden_decisions (obj raw) path) in
    let (allowed, present) =
      normalized_parameters-KeysIn (text_value (value_at "action_type" action)) contract raw
        parameters normalized in
    let state = state_iff (hidden_decisions (obj raw) path) in
    let closed = hidden_decisions_iff (obj raw) path in
    record {
      contract = contract;
      in_table = found;
      same_id = is_text-eq (value_at "action_id" action) has_id;
      same_type = is_text-eq (value_at "action_type" action) has_type;
      same_target = is_text-eq (value_at "target_node" action) has_target;
      class_effects = refl;
      structure_effects = refl;
      decision_effects = refl;
      required_claims = refl;
      required_permissions = refl;
      keys_allowed = allowed;
      keys_present = present;
      decided = (
        λ e. rw is_raw (closed.0 (state.0 e)),
        λ none_open. state.1 (closed.1 (rw is_raw at none_open)),
      );
      nothing_hidden = (
        λ e. rw is_raw (closed.0 (listed.0 e)),
        λ none_open. listed.1 (closed.1 (rw is_raw at none_open)),
      );
    }

-- A normalized action keeps the identity, the type and the target of the proposal, and its type is
-- one of the closed vocabulary; its class, structure and decision effects, its claims and its
-- permissions are those of that type's contract, whatever else the proposal says; the keys of its
-- parameters are the contract's, with every required one; and it is resolved, and lists no hidden
-- decision, exactly when nothing in the given parameters leaves a choice open.
pub normalize_action-IsNormal :
    (action : Fields) (index : ℕ) (ir : ActionIr)
    → normalize_action (obj action) index ≡ ok ir
    → IsNormal action ir
unfolding normalize_action
normalize_action-IsNormal action index ir h =
    let (_, h1) = ensure-then (is_empty (unknown_top action)) _ _ h in
    let (complete, h2) =
      ensure-then (identity_complete action) _ (normalize_known action index) h1 in
    let action_type = text_value (value_at "action_type" action) in
    let (contract, known, h3) =
      >>=-eq-ok (known_contract action_type (contract_for action_type)) _ h2 in
    let (raw, is_raw, h4) = >>=-eq-ok (parameters_object (given action)) _ h3 in
    let (parameters, normalized, h5) =
      >>=-eq-ok (normalized_parameters action_type contract raw) _ h4 in
    subst (IsNormal action) (ok-injective h5) (
      built_IsNormal action raw parameters contract index (proposal_path index <> ".parameters")
        complete (known_contract-eq action_type (contract_for action_type) contract known)
        (parameters_object-eq (given action) raw is_raw) normalized)

-- Every identity of a list of actions is new to the texts seen, and no two are equal.
abbrev pub FreshIds : List String → List ActionIr → Type 0
FreshIds seen [] = Unit
FreshIds seen (ir ∷ irs) = (str_in ir.action_id seen ≡ false) × FreshIds (ir.action_id ∷ seen) irs

loop_FreshIds :
    (index : ℕ) (seen : List String) (actions : List Json) (irs : List ActionIr)
    → normalize_loop index seen actions ≡ ok irs
    → FreshIds seen irs × (length irs ≡ length actions)
unfolding normalize_loop
loop_FreshIds index seen [] irs h =
    subst (λ xs. FreshIds seen xs × (length xs ≡ 0)) (ok-injective h) (tt, refl)
loop_FreshIds index seen (a ∷ actions) irs h =
    let (ir, _, h1) = >>=-eq-ok (normalize_action a index) _ h in
    let (fresh, h2) = ensure-then (not (str_in ir.action_id seen)) _ _ h1 in
    let (more, looped, h3) =
      >>=-eq-ok (normalize_loop (suc index) (ir.action_id ∷ seen) actions) _ h2 in
    let (later, same) = loop_FreshIds (suc index) (ir.action_id ∷ seen) actions more looped in
    subst (λ xs. FreshIds seen xs × (length xs ≡ suc (length actions))) (ok-injective h3)
      ((not-true _ fresh, later), ap suc same)

-- A list of actions that is normalized is nonempty, keeps one entry for each proposal, and no two
-- entries have the same identity.
pub normalize_actions-FreshIds :
    (actions : List Json) (irs : List ActionIr)
    → normalize_actions actions ≡ ok irs
    → (irs ≢ []) × (length irs ≡ length actions) × FreshIds [] irs
unfolding normalize_actions
normalize_actions-FreshIds actions irs h =
    let (result, looped, h1) = >>=-eq-ok (normalize_loop 0 [] actions) _ h in
    let (some_action, h2) = ensure-then (not (is_empty result)) _ _ h1 in
    let same : result ≡ irs = ok-injective h2 in
    let (fresh, lengths) = loop_FreshIds 0 [] actions result looped in
    subst (λ xs. (xs ≢ []) × (length xs ≡ length actions) × FreshIds [] xs) same
      (λ e. cc (ap is_empty e, not-true _ some_action), lengths, fresh)
