-- ===== src/Evaluation/Total.antt =====
-- `_runtime_evaluation` returns for each runtime claim.
use mathlib.Core.List.{Memᴰ}
use ev4_constructability_eng.Base.{
  ◌≡◌, refl, sym, ap, subst, ◌∙◌, String, true, Option, none, some, List, [], ◌∷◌, Bool, false,
  if◌then◌else◌,
}
use ev4_constructability_eng.Base.Python.{Py, ok, ◌>>=◌}
use ev4_constructability_eng.Json.{Fields}
use ev4_constructability_eng.Json.Host.{Host}
use ev4_constructability_eng.Registry.Claims.{ClaimPolicy, policy_for}
use ev4_constructability_eng.Registry.Contract.{find}
use ev4_constructability_eng.Execution.Requests.{Declaration, evaluator_by_claim}
use ev4_constructability_eng.Execution.Execute.{
  RepositoryExecutionResult, RuntimeExecutionBatch, found_in, select_execution_result,
}
use ev4_constructability_eng.Evaluation.Obligation.{assertions_by_claim, runtime_obligation}
use ev4_constructability_eng.Evaluation.Runtime.{
  evaluate_execution, open_evaluation, runtime_evaluation, succeeded,
}
use ev4_constructability_eng.Evaluation.Support.{Findings, base_evaluation, draft_node, policy_at}

-- The claims that `EVALUATORS` gives to `_runtime_evaluation`.
abbrev pub runtime_claims : List String
runtime_claims = "responsive_behavior" ∷ "interaction_validation" ∷ "accessibility" ∷ "QA" ∷ []

-- A claim that has a policy, a runner and assertions.
abbrev IsListed : String → Type 0
IsListed c =
    ((p : ClaimPolicy) × (policy_for c ≡ some p))
    × ((runner : String) × (find c evaluator_by_claim ≡ some runner))
    × ((assertions : List String) × (find c assertions_by_claim ≡ some assertions))

runtime_claim-IsListed : (c : String) → Memᴰ c runtime_claims → IsListed c
unfolding policy_for
runtime_claim-IsListed c (Memᴰ.head e) = subst IsListed (sym e) ((_, refl), (_, refl), (_, refl))
runtime_claim-IsListed c (Memᴰ.tail (Memᴰ.head e)) =
    subst IsListed (sym e) ((_, refl), (_, refl), (_, refl))
runtime_claim-IsListed c (Memᴰ.tail (Memᴰ.tail (Memᴰ.head e))) =
    subst IsListed (sym e) ((_, refl), (_, refl), (_, refl))
runtime_claim-IsListed c (Memᴰ.tail (Memᴰ.tail (Memᴰ.tail (Memᴰ.head e)))) =
    subst IsListed (sym e) ((_, refl), (_, refl), (_, refl))
runtime_claim-IsListed c (Memᴰ.tail (Memᴰ.tail (Memᴰ.tail (Memᴰ.tail m)))) = elim m [ ]

-- A result that is there, and the rest of a block that gives one from it.
abbrev pub Returns {ℓ} : {A : Type ℓ} → Py A → Type ℓ
Returns {A = A} m = (x : A) × (m ≡ ok x)

>>=-Returns {ℓ κ} :
    {A : Type ℓ} {B : Type κ} (m : Py A) (f : A → Py B) (found : Returns m)
    → Returns (f found.0)
    → Returns (m >>= f)
>>=-Returns m f (x, e) (y, h) = (y, ap (λ n. n >>= f) e ∙ h)

found_in-Returns {ℓ} : {A : Type ℓ} (o : Option A) → ((a : A) × (o ≡ some a)) → Returns (found_in o)
found_in-Returns o (a, e) = (a, ap found_in e)

branch-Returns {ℓ} :
    {A : Type ℓ} (b : Bool) (m n : Py A) → Returns m → Returns n → Returns (if b then m else n)
branch-Returns true m n first second = first
branch-Returns false m n first second = second

module _ (host : Host) (c s : String) (listed : IsListed c) where
  base_evaluation-Returns : (findings : Findings) → Returns (base_evaluation c s findings)
  unfolding base_evaluation
  base_evaluation-Returns findings =
      >>=-Returns (policy_at (policy_for c)) _ (listed.0.0, ap policy_at listed.0.1) (_, refl)

  runtime_obligation-Returns :
      (target : String) (declaration : Option Declaration)
      → Returns (runtime_obligation host c s target declaration)
  unfolding runtime_obligation
  runtime_obligation-Returns target declaration =
      >>=-Returns (found_in (find c evaluator_by_claim)) _ (found_in-Returns _ listed.1) (
        >>=-Returns (found_in (find c assertions_by_claim)) _ (found_in-Returns _ listed.2)
          (_, refl))

  open_evaluation-Returns :
      (target : String) (execution : Option RepositoryExecutionResult)
      (declaration : Option Declaration)
      → Returns (open_evaluation host c s target execution declaration)
  unfolding open_evaluation
  open_evaluation-Returns target execution declaration =
      >>=-Returns (runtime_obligation host c s target declaration) _
        (runtime_obligation-Returns target declaration) (base_evaluation-Returns _)

  evaluate_execution-Returns :
      (target : String) (execution : Option RepositoryExecutionResult)
      (declaration : Option Declaration)
      → Returns (evaluate_execution host c s target execution declaration)
  unfolding evaluate_execution
  evaluate_execution-Returns target none declaration =
      open_evaluation-Returns target none declaration
  evaluate_execution-Returns target (some r) declaration =
      branch-Returns (succeeded target r) _ _ (base_evaluation-Returns _)
        (open_evaluation-Returns target (some r) declaration)

-- For each of the four runtime claims an evaluation is returned as soon as the draft's node is
-- read, with or without a batch: the claim has a policy, a runner and assertions, so that no
-- KeyError is raised.
pub runtime_evaluation-Returns :
    (host : Host) (c s t : String) (review_draft : Fields) (batch : Option RuntimeExecutionBatch)
    → Memᴰ c runtime_claims
    → Returns (draft_node review_draft s)
    → Returns (runtime_evaluation host c s t review_draft batch)
unfolding runtime_evaluation
runtime_evaluation-Returns host c s t review_draft batch runtime found =
    >>=-Returns (draft_node review_draft s) _ found (
      evaluate_execution-Returns host c s (runtime_claim-IsListed c runtime) _
        (select_execution_result batch t c s) _)
