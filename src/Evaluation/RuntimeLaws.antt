-- ===== src/Evaluation/RuntimeLaws.antt =====
-- When a runtime claim is satisfied, and what is left open otherwise.
use mathlib.Core.Option.{some-injective}
use ev4_constructability_eng.Base.{
  [], ◌∷◌, ◌≡◌, refl, ap, subst, ◌⊎◌, inl, inr, String, true, Option, none, some, Bool-cases,
}
use ev4_constructability_eng.Base.Python.{ok, >>=-eq-ok, ok-injective}
use ev4_constructability_eng.Json.{Fields}
use ev4_constructability_eng.Json.Host.{Host}
use ev4_constructability_eng.Registry.Claims.{policy_for}
use ev4_constructability_eng.Execution.Execute.{RepositoryExecutionResult}
use ev4_constructability_eng.Execution.Requests.{Declaration}
use ev4_constructability_eng.Evaluation.Obligation.{runtime_obligation}
use ev4_constructability_eng.Evaluation.Attributed.{with_evidence_id}
use ev4_constructability_eng.Evaluation.Runtime.{
  evaluate_execution, executed_findings, execution_record, open_evaluation, open_findings,
  obligation_record, succeeded,
}
use ev4_constructability_eng.Evaluation.Support.{Evaluation, Findings, base_evaluation, policy_at}

-- An evaluation takes its status and its obligation from the findings.
pub base_evaluation-Findings :
    (claim_id subject_ref : String) (findings : Findings) (e : Evaluation)
    → base_evaluation claim_id subject_ref findings ≡ ok e
    → (e.status ≡ findings.status)
      × (e.downstream_obligation ≡ findings.downstream_obligation)
      × (e.evidence_records ≡ findings.evidence_records)
unfolding base_evaluation
base_evaluation-Findings claim_id subject_ref findings e h =
    let (p, _, h1) = >>=-eq-ok (policy_at (policy_for claim_id)) _ h in
    subst
      (λ (x : Evaluation).
        (x.status ≡ findings.status)
        × (x.downstream_obligation ≡ findings.downstream_obligation)
        × (x.evidence_records ≡ findings.evidence_records))
      (ok-injective h1) (refl, refl, refl)

module _ (host : Host) (claim_id subject_ref target : String)
    (declaration : Option Declaration) where
  -- What an evaluation that is not satisfied leaves open: the obligation of the claim.
  abbrev pub LeavesOpen : Evaluation → Type 0
  LeavesOpen e =
      (e.status ≡ "downstream_validation_required")
      × (o : Fields) × (runtime_obligation host claim_id subject_ref target declaration ≡ ok o)
      × (e.downstream_obligation ≡ some o)

  open_evaluation-LeavesOpen :
      (execution : Option RepositoryExecutionResult) (e : Evaluation)
      → open_evaluation host claim_id subject_ref target execution declaration ≡ ok e
      → LeavesOpen e
  unfolding open_evaluation
  open_evaluation-LeavesOpen execution e h =
      let (o, derived, h1) =
        >>=-eq-ok (runtime_obligation host claim_id subject_ref target declaration) _ h in
      let (status, obligation, _) =
        base_evaluation-Findings claim_id subject_ref
          (open_findings host execution o
            (obligation_record host claim_id subject_ref o declaration))
          e h1 in
      (status, o, derived, obligation)

  -- An execution that succeeded on the target satisfies the claim, and nothing else does.
  abbrev pub Succeeds : Option RepositoryExecutionResult → Type 0
  Succeeds execution =
      (r : RepositoryExecutionResult) × (execution ≡ some r) × (succeeded target r ≡ true)

  -- The one record of evidence is that of the execution of a tool.
  abbrev pub Records : RepositoryExecutionResult → Evaluation → Type 0
  Records r e =
      e.evidence_records ≡ with_evidence_id host (execution_record host r claim_id subject_ref) ∷ []

  pub evaluate_execution-Succeeds :
      (execution : Option RepositoryExecutionResult) (e : Evaluation)
      → evaluate_execution host claim_id subject_ref target execution declaration ≡ ok e
      → ((e.status ≡ "satisfied")
          × (r : RepositoryExecutionResult) × (execution ≡ some r)
          × (succeeded target r ≡ true)
          × Records r e)
        ⊎ (LeavesOpen e × (¬ (Succeeds execution)))
  unfolding evaluate_execution
  evaluate_execution-Succeeds none e h =
      inr (open_evaluation-LeavesOpen none e h, λ (r, same, _). cc)
  evaluate_execution-Succeeds (some r) e h = elim (Bool-cases (succeeded target r)) [
    | inl done ↦
        let (status, _, records) =
          base_evaluation-Findings claim_id subject_ref
            (executed_findings host r (execution_record host r claim_id subject_ref)) e
            (rw done at h) in
        inl (status, r, refl, done, records)
    | inr left ↦ inr (
      open_evaluation-LeavesOpen (some r) e (rw left at h),
      λ (q, same, done). cc (left, done, ap (succeeded target) (some-injective _ _ same)),
    )
  ]
