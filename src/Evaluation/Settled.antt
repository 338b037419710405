-- ===== src/Evaluation/Settled.antt =====
-- When `_runtime_evaluation` settles a claim over the batch of a transaction.
use mathlib.Core.List.{Memᴰ}
use ev4_constructability_eng.Base.{
  All, All-Memᴰ, subst, [], ◌≡◌, ◌⊎◌, inl, inr, String, true, some, List, eq_iff, nat_eq_iff,
  and_true, arith, ◌↔◌,
}
use ev4_constructability_eng.Base.Sorting.{All-sort_by}
use ev4_constructability_eng.Base.Python.{ok, ok-injective, >>=-eq-ok}
use ev4_constructability_eng.Json.{Json, Fields}
use ev4_constructability_eng.Json.Host.{Host}
use ev4_constructability_eng.Execution.Execute.{
  Repository, RepositoryExecutionResult, RuntimeExecutionBatch, execute_loop, result_le,
  execute_runtime_requests, matches_request, select_execution_result,
}
use ev4_constructability_eng.Execution.BindingLaws.{IsExecuted}
use ev4_constructability_eng.Execution.ExecuteLaws.{loop_IsBatch}
use ev4_constructability_eng.Execution.Asked.{TargetPasses}
use ev4_constructability_eng.Execution.Requests.{Declaration}
use ev4_constructability_eng.Execution.SelectLaws.{select_execution_result_iff}
use ev4_constructability_eng.Evaluation.Runtime.{
  declaration_for, drafted_target, expected_target, runtime_evaluation, succeeded,
}
use ev4_constructability_eng.Evaluation.RuntimeLaws.{
  Records, LeavesOpen, evaluate_execution-Succeeds,
}
use ev4_constructability_eng.Evaluation.Support.{Evaluation, draft_node, semantics}

-- A result of the target that ended with success and with the exit code 0.
abbrev pub IsSuccess : String → RepositoryExecutionResult → Type 0
IsSuccess target r =
    (r.target_identity ≡ target) × (r.execution_status ≡ "success") × (r.exit_code ≡ 0)

succeeded_iff :
    (target : String) (r : RepositoryExecutionResult)
    → (succeeded target r ≡ true) ↔ IsSuccess target r
succeeded_iff target r =
    let same_target = eq_iff r.target_identity target in
    let success = eq_iff r.execution_status "success" in
    let clean = nat_eq_iff r.exit_code 0 in
    (
      λ h.
          let (at_target, ended) = and_true _ _ h in
          let (status, code) = and_true _ _ ended in
          (same_target.0 at_target, success.0 status, clean.0 code),
      λ (at_target, status, code).
          ground (arith, same_target.1 at_target, success.1 status, clean.1 code),
    )

-- A result of the batch for the claim of the subject that succeeded on the target.
abbrev pub IsRun :
    RuntimeExecutionBatch → (t c s target : String) → RepositoryExecutionResult → Type 0
IsRun batch t c s target r =
    Memᴰ r batch.results × (matches_request t c s r ≡ true) × IsSuccess target r

abbrev pub HasRun : RuntimeExecutionBatch → (t c s target : String) → Type 0
HasRun batch t c s target = (r : RepositoryExecutionResult) × IsRun batch t c s target r

-- A result was computed from a file of the repository that a declaration names, and what the file
-- says was observed is what the claim asks.
abbrev pub IsWritten : Host → Repository → String → RepositoryExecutionResult → Type 0
IsWritten host repository t r =
    (d : Declaration) × (executed : IsExecuted host repository t d r) × TargetPasses d.claim_id
      executed.target

-- Every result of a batch that succeeded is written.
result-IsWritten :
    (host : Host) (repository : Repository) (t : String) (requests : List Json)
    (batch : RuntimeExecutionBatch) (r : RepositoryExecutionResult)
    → execute_runtime_requests host repository t requests ≡ ok batch
    → Memᴰ r batch.results
    → r.execution_status ≡ "success"
    → IsWritten host repository t r
unfolding execute_runtime_requests
result-IsWritten host repository t requests batch r ran member success =
    let (found, looped, same) = >>=-eq-ok (execute_loop host repository t [] requests) _ ran in
    let Executed = λ (q : RepositoryExecutionResult).
      (d : Declaration) × Memᴰ d found.0 × IsExecuted host repository t d q in
    let executed =
      All-sort_by (result_le host repository) Executed found.1
        (loop_IsBatch host repository t [] requests found looped).executed in
    let (d, _, x) =
      All-Memᴰ Executed r batch.results
        (subst (λ (b : RuntimeExecutionBatch). All Executed b.results) (ok-injective same) executed)
        member in
    (d, x, x.succeeded.0 success)

module _ (host : Host) (repository : Repository) (batch : RuntimeExecutionBatch)
    (t c s : String) where
  -- The target that a node of the draft and the declaration of the batch ask for.
  abbrev pub target_of : Fields → String
  target_of node =
      expected_target (drafted_target host (semantics node c) s) (declaration_for (some batch) c s)

  -- A claim is satisfied by a run on the target, which is the evidence, or its obligation is left open.
  abbrev pub IsSettled : String → Evaluation → Type 0
  IsSettled target e =
      ((e.status ≡ "satisfied")
        × (r : RepositoryExecutionResult) × IsRun batch t c s target r
        × IsWritten host repository t r
        × Records host c s target (declaration_for (some batch) c s) r e)
      ⊎ (LeavesOpen host c s target (declaration_for (some batch) c s) e
          × (¬ (HasRun batch t c s target)))

-- For the batch that the requests of a transaction gave, an evaluation of a runtime claim that is
-- returned is satisfied with a result of the batch for this transaction, claim and subject that
-- succeeded on the target that the draft's node and the declaration ask for, whose record as the
-- execution of a tool is the evidence, and which was computed from a file of the repository that
-- itself says what was observed; or there is no such result, the status is downstream validation
-- and the obligation of the claim is handed on.
pub runtime_evaluation-IsSettled :
    (host : Host) (repository : Repository) (t : String) (requests : List Json)
    (batch : RuntimeExecutionBatch) (c s : String) (review_draft : Fields) (e : Evaluation)
    → execute_runtime_requests host repository t requests ≡ ok batch
    → runtime_evaluation host c s t review_draft (some batch) ≡ ok e
    → (node : Fields) × (draft_node review_draft s ≡ ok node)
      × IsSettled host repository batch t c s (target_of host repository batch t c s node) e
unfolding runtime_evaluation
runtime_evaluation-IsSettled host repository t requests batch c s review_draft e ran evaluated =
    let (node, found, rest) = >>=-eq-ok (draft_node review_draft s) _ evaluated in
    let target = target_of host repository batch t c s node in
    let selects = λ (r : RepositoryExecutionResult).
      select_execution_result_iff host repository t requests batch c s r ran in
    (
      node,
      found,
      elim (evaluate_execution-Succeeds host c s target (declaration_for (some batch) c s)
          (select_execution_result (some batch) t c s) e rest) [
            | inl (satisfied, r, selected, done, records) ↦
                let (member, matched) = (selects r).0 selected in
                let success = (succeeded_iff target r).0 done in
                inl (
                  satisfied,
                  r,
                  (member, matched, success),
                  result-IsWritten host repository t requests batch r ran member success.1,
                  records,
                )
            | inr (left, unmet) ↦ inr (
              left,
              λ (r, (member, matched, done)).
                  unmet (r, (selects r).1 (member, matched), (succeeded_iff target r).1 done),
            )
          ],
    )
