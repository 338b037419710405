-- ===== src/Execution/BindingLaws.antt =====
-- What one result is bound to.
use ev4_constructability_eng.Base.{
  ◌≡◌, ◌<>◌, refl, ap, subst, ◌∙◌, ◌↔◌, inl, inr, String, Bool, true, false, Option, none, some,
  List, [], ◌∷◌, Bool-cases, eq_iff, is_empty, is_empty-eq,
}
use ev4_constructability_eng.Base.Python.{ok, >>=-eq-ok, ensure-eq-ok, ok-injective}
use ev4_constructability_eng.Json.{Json, obj, str, Fields, is_str, value_at}
use ev4_constructability_eng.Json.Host.{Host}
use ev4_constructability_eng.Json.Laws.{is_str-eq}
use ev4_constructability_eng.Registry.Contract.{find}
use ev4_constructability_eng.Execution.Requests.{Declaration, schema_by_claim}
use ev4_constructability_eng.Execution.Runners.{Runner, run, runner_by_claim}
use ev4_constructability_eng.Execution.ItemLaws.{AllPass-iff}
use ev4_constructability_eng.Execution.Asked.{TargetPasses}
use ev4_constructability_eng.Execution.RunLaws.{run_iff}
use ev4_constructability_eng.Execution.Execute.{
  Repository, RepositoryExecutionResult, build_result, execute_at, execute_file,
  execute_if_available, execute_input, exit_number, expected_binding, status_text, found_in,
  mismatched, target_fields, validate_binding,
}

-- A target names a declaration's schema, claim, subject and identity.
pub record IsBound (d : Declaration) (target : Fields) : Type 0 where
  pub schema_id : String
  pub known_schema : find d.claim_id schema_by_claim ≡ some schema_id
  pub same_schema : value_at "schema_id" target ≡ str schema_id
  pub same_claim : value_at "claim_id" target ≡ str d.claim_id
  pub same_subject : value_at "subject_ref" target ≡ str d.subject_ref
  pub same_identity : value_at "target_identity" target ≡ str d.target_identity

-- A result of a transaction comes from a run on a file of the repository that a declaration names,
-- whose content is bound to the declaration; it succeeded exactly if the content has items and
-- each of them, with the values written there as observed, is as the claim asks.
pub record IsExecuted (host : Host) (repository : Repository) (transaction_id : String)
    (d : Declaration) (r : RepositoryExecutionResult) : Type 0 where
  pub path : String
  pub target : Fields
  pub runner : Runner
  pub named : (i : String) × (d.input_ref ≡ some i) × (repository.resolve_input i ≡ some path)
  pub content : repository.read_json path ≡ ok (obj target)
  pub bound : IsBound d target
  pub known_runner : find d.claim_id runner_by_claim ≡ some runner
  pub in_transaction : r.transaction_id ≡ transaction_id
  pub same_claim : r.claim_id ≡ d.claim_id
  pub same_subject : r.subject_ref ≡ d.subject_ref
  pub same_evaluator : r.evaluator_id ≡ d.evaluator_id
  pub same_target : r.target_identity ≡ d.target_identity
  pub same_method : r.method_or_command ≡ "validator.runtime_execution:" <> runner.runner_name
  pub succeeded : (r.execution_status ≡ "success") ↔ TargetPasses d.claim_id target
  pub exited : (r.exit_code ≡ 0) ↔ TargetPasses d.claim_id target

found_in-eq {ℓ} : {A : Type ℓ} (o : Option A) (a : A) → found_in o ≡ ok a → o ≡ some a
found_in-eq none a h = cc
found_in-eq (some b) a h = ap some (ok-injective h)

target_fields-eq : (v : Json) (fs : Fields) → target_fields v ≡ ok fs → v ≡ obj fs
target_fields-eq (obj gs) fs h = ap obj (ok-injective h)
target_fields-eq _ fs h = cc

-- Nothing mismatches exactly when every key has its value.
mismatched_step :
    (target : Fields) (key value : String) (expected : List (String × String))
    → mismatched target ((key, value) ∷ expected) ≡ []
    → (value_at key target ≡ str value) × (mismatched target expected ≡ [])
unfolding mismatched
mismatched_step target key value expected h =
    elim (Bool-cases (is_str value (value_at key target))) [
      | inl e ↦ (is_str-eq value (value_at key target) e, rw e at h)
      | inr e ↦ cc (rw e at h)
    ]

validate_binding-IsBound :
    (target : Fields) (d : Declaration) → validate_binding target d ≡ ok tt → IsBound d target
unfolding validate_binding
validate_binding-IsBound target d h =
    let (schema_id, known, h1) = >>=-eq-ok (found_in (find d.claim_id schema_by_claim)) _ h in
    let all_match =
      is_empty-eq _
        (ensure-eq-ok (is_empty (mismatched target (expected_binding schema_id d))) _ h1) in
    let (a, h2) = mismatched_step target "schema_id" schema_id _ all_match in
    let (b, h3) = mismatched_step target "claim_id" d.claim_id _ h2 in
    let (c, h4) = mismatched_step target "subject_ref" d.subject_ref _ h3 in
    let (e, _) = mismatched_step target "target_identity" d.target_identity _ h4 in
    record {
      schema_id = schema_id;
      known_schema = found_in-eq _ schema_id known;
      same_schema = a;
      same_claim = b;
      same_subject = c;
      same_identity = e;
    }

status_iff : (b : Bool) → (status_text b ≡ "success") ↔ (b ≡ true)
status_iff true = (λ e. refl, λ e. refl)
status_iff false = (λ e. cc ((eq_iff "failed" "success").1 e), λ e. cc)

code_iff : (b : Bool) → (exit_number b ≡ 0) ↔ (b ≡ true)
code_iff true = (λ e. refl, λ e. refl)
code_iff false = (λ e. cc, λ e. cc)

module _ (host : Host) (repository : Repository) (transaction_id : String) where
  execute_file-IsExecuted :
      (d : Declaration) (i path : String) (r : RepositoryExecutionResult)
      → d.input_ref ≡ some i
      → repository.resolve_input i ≡ some path
      → execute_file host repository transaction_id d i path ≡ ok r
      → IsExecuted host repository transaction_id d r
  unfolding execute_file build_result
  execute_file-IsExecuted d i path r has_input resolved h =
      let (value, content, h1) = >>=-eq-ok (repository.read_json path) _ h in
      let (target, is_target, h2) = >>=-eq-ok (target_fields value) _ h1 in
      let (u, valid, h3) = >>=-eq-ok (validate_binding target d) _ h2 in
      let (runner, known, h4) = >>=-eq-ok (found_in (find d.claim_id runner_by_claim)) _ h3 in
      let (outcome, ran, h5) = >>=-eq-ok (run runner target) _ h4 in
      let ran_iff = run_iff runner target outcome ran in
      let asked =
        AllPass-iff d.claim_id runner target
          (found_in-eq (find d.claim_id runner_by_claim) runner known) in
      let status = status_iff outcome.passed in
      let code = code_iff outcome.passed in
      subst (IsExecuted host repository transaction_id d) (ok-injective h5) (record {
        path = path;
        target = target;
        runner = runner;
        named = (i, has_input, resolved);
        content = content ∙ ap ok (target_fields-eq value target is_target);
        bound = validate_binding-IsBound target d valid;
        known_runner = found_in-eq _ runner known;
        in_transaction = refl;
        same_claim = refl;
        same_subject = refl;
        same_evaluator = refl;
        same_target = refl;
        same_method = refl;
        succeeded = (λ e. asked.0 (ran_iff.0 (status.0 e)), λ p. status.1 (ran_iff.1 (asked.1 p)));
        exited = (λ e. asked.0 (ran_iff.0 (code.0 e)), λ p. code.1 (ran_iff.1 (asked.1 p)));
      })

  by_path_IsExecuted :
      (d : Declaration) (r : RepositoryExecutionResult) (i : String) (o : Option String)
      → d.input_ref ≡ some i
      → repository.resolve_input i ≡ o
      → execute_at host repository transaction_id d i o ≡ ok (some r)
      → IsExecuted host repository transaction_id d r
  by_path_IsExecuted d r i none e f h = cc
  by_path_IsExecuted d r i (some path) e f h =
      let (q, executed, h1) =
        >>=-eq-ok (execute_file host repository transaction_id d i path) _ h in
      subst (IsExecuted host repository transaction_id d) (some-ok-injective h1)
        (execute_file-IsExecuted d i path q e f executed)
    where
      some-ok-injective : {a b : RepositoryExecutionResult} → ok (some a) ≡ ok (some b) → a ≡ b
      some-ok-injective same = cc

  by_input_IsExecuted :
      (d : Declaration) (r : RepositoryExecutionResult) (o : Option String)
      → d.input_ref ≡ o
      → execute_input host repository transaction_id d o ≡ ok (some r)
      → IsExecuted host repository transaction_id d r
  by_input_IsExecuted d r none e h = cc
  by_input_IsExecuted d r (some i) e h =
      by_path_IsExecuted d r i (repository.resolve_input i) e refl h

  -- A result, if there is one, is executed.
  pub execute_input-IsExecuted :
      (d : Declaration) (r : RepositoryExecutionResult)
      → execute_if_available host repository transaction_id d ≡ ok (some r)
      → IsExecuted host repository transaction_id d r
  unfolding execute_if_available
  execute_input-IsExecuted d r h = by_input_IsExecuted d r d.input_ref refl h
