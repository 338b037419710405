-- ===== src/Evaluation/Obligation.antt =====
-- validator/claim_evaluators.py: `_obligation_assertions` and `_runtime_obligation`.
use Prim.Native.String.{slice}
use ev4_constructability_eng.Base.{
  String, ◌<>◌, true, false, Option, none, some, List, [], ◌∷◌, ◌++◌, if◌then◌else◌, str_in,
}
use ev4_constructability_eng.Base.Python.{Py, ok, ◌>>=◌}
use ev4_constructability_eng.Json.{Json, bool, str, Fields}
use ev4_constructability_eng.Json.Build.{dict_of, fields_of, texts_of}
use ev4_constructability_eng.Json.Host.{Host}
use ev4_constructability_eng.Registry.Contract.{find}
use ev4_constructability_eng.Effects.ClassEffect.{sorted_set}
use ev4_constructability_eng.Execution.Execute.{found_in}
use ev4_constructability_eng.Execution.Requests.{Declaration, evaluator_by_claim}

-- `_obligation_assertions`
abbrev pub assertions_by_claim : List (String × List String)
assertions_by_claim =
    (
      "responsive_behavior",
      "render the implemented target at required viewports"
          ∷ "compare observed layout with the CE responsive strategy" ∷ [],
    )
    ∷ (
      "interaction_validation",
      "exercise the approved interaction on the implemented target"
          ∷ "capture actual state transitions and failures" ∷ [],
    )
    ∷ (
      "accessibility",
      "inspect implemented semantics and accessible names"
          ∷ "exercise keyboard interaction on the implemented target" ∷ [],
    )
    ∷ (
      "QA",
      "execute the repository-selected QA scope on the implemented target"
          ∷ "record actual assertion results and exit status" ∷ [],
    )
    ∷ []

-- `list(dict.fromkeys(texts))`, with the texts seen so far.
unfoldable pub first_of_each : List String → List String → List String
first_of_each seen [] = []
first_of_each seen (s ∷ ss) =
    let kept = first_of_each (s ∷ seen) ss in
    let dropped = first_of_each seen ss in if str_in s seen then dropped else s ∷ kept

abbrev pub inputs_of : Option Declaration → List String
inputs_of none = []
inputs_of (some d) = d.required_inputs

abbrev pub assertions_of : Option Declaration → List String
assertions_of none = []
assertions_of (some d) = d.expected_assertions

module _ (host : Host) where
  open host use {sha256_json}

  -- The fields that the identity of an obligation is computed from.
  abbrev pub obligation_seed :
      (claim_id subject_ref target runner : String) (inputs assertions : List String) → Json
  obligation_seed claim_id subject_ref target runner inputs assertions = dict_of (
      ("claim_id", str claim_id)
      ∷ ("subject_ref", str subject_ref)
      ∷ ("target_identity", str target)
      ∷ ("required_runner", str runner)
      ∷ ("required_inputs", texts_of inputs)
      ∷ ("expected_assertions", texts_of assertions)
      ∷ [])

  abbrev pub obligation_fields :
      (claim_id subject_ref target runner : String) (inputs assertions : List String) → Fields
  obligation_fields claim_id subject_ref target runner inputs assertions = fields_of (
      (
        "obligation_id",
        str (
            "ce-runtime-obligation-"
            <> slice
                (sha256_json (obligation_seed claim_id subject_ref target runner inputs assertions))
                0 24),
      )
      ∷ ("claim_id", str claim_id)
      ∷ ("subject_ref", str subject_ref)
      ∷ ("consumer_stage", str "post_builder_runtime_validation")
      ∷ ("required_runner", str runner)
      ∷ ("target_identity", str target)
      ∷ ("required_inputs", texts_of inputs)
      ∷ ("expected_assertions", texts_of assertions)
      ∷ (
        "completion_criteria",
        str
            "The repository-owned runner executes against the exact implemented target, generates observations internally, returns success, and passes every assertion.",
      )
      ∷ ("blocking_boundary", str "final_project_gate")
      ∷ ("status", str "required")
      ∷ ("blocks_builder_handoff", bool false)
      ∷ ("blocks_final_completion", bool true)
      ∷ [])

  -- `_runtime_obligation`
  unfoldable pub runtime_obligation :
      (claim_id subject_ref target : String) → Option Declaration → Py Fields
  runtime_obligation claim_id subject_ref target declaration = do
    runner ← found_in (find claim_id evaluator_by_claim)
    assertions ← found_in (find claim_id assertions_by_claim)
    ok (
        obligation_fields claim_id subject_ref target runner
          (sorted_set (
            "implemented_target_ref"
            ∷ "implemented_target_digest"
            ∷ "exact claim and subject binding"
            ∷ inputs_of declaration))
          (first_of_each [] (assertions ++ assertions_of declaration)))
