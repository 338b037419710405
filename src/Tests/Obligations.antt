-- ===== src/Tests/Obligations.antt =====
-- Runtime obligations of concrete rows.
use mathlib.Core.List.{Perm}
use ev4_constructability_eng.Base.{
  ◌≡◌, ◌≢◌, ◌↔◌, refl, String, ◌<>◌, true, false, List, [], ◌∷◌, All, map,
}
use ev4_constructability_eng.Base.Sorting.{distinct, sort_texts}
use ev4_constructability_eng.Base.Python.{ok}
use ev4_constructability_eng.Json.{Json, Fields, bool, obj, str, value_at}
use ev4_constructability_eng.Json.Build.{fields_of, texts_of}
use ev4_constructability_eng.Registry.Claims.{is_post_builder_claim, policy, policy_for}
use ev4_constructability_eng.Actions.Canonical.{canonical, canonical_fields, insert_field}
use ev4_constructability_eng.Obligations.Normalize.{
  identity_seed, normalize_object, normalize_runtime_obligation, obligation_identity, set_field,
  with_derived,
}
use ev4_constructability_eng.Obligations.NormalizeLaws.{
  IsNormalized, normalize_runtime_obligation-IsNormalized,
}
use ev4_constructability_eng.Obligations.Derive.{
  bound_obligation, derive_loop, derive_runtime_obligations, insert_obligation, key_of,
  sort_obligations,
}
use ev4_constructability_eng.Obligations.DeriveLaws.{
  FreshKeys, derive_runtime_obligations_complete, runtime_keys,
}
use ev4_constructability_eng.Obligations.Lifecycle.{
  IsClosed, final_gate, lifecycle_status, lifecycle_status_gate, lifecycle_status_validated,
  runtime_state,
}
use ev4_constructability_eng.Tests.Data.{digest, obligation, obligation_row, static_row, test_host}

-- The obligation of a subject as it is handed on.
abbrev normal_obligation : String → Fields
normal_obligation subject = fields_of (
    ("blocking_boundary", str "final_project_gate")
    ∷ ("blocks_builder_handoff", bool false)
    ∷ ("blocks_final_completion", bool false)
    ∷ ("claim_id", str "responsive_behavior")
    ∷ ("completion_criteria", str "all pass")
    ∷ ("consumer_stage", str "runtime")
    ∷ ("expected_assertions", texts_of ("fits" ∷ []))
    ∷ ("obligation_id", str ("ce-runtime-obligation-" <> digest))
    ∷ ("required_inputs", texts_of ("a" ∷ "b" ∷ []))
    ∷ ("required_runner", str "browser")
    ∷ ("status", str "executed_pass")
    ∷ ("subject_ref", str subject)
    ∷ ("target_identity", str "page")
    ∷ [])

obligation_normalized :
    normalize_runtime_obligation test_host (obj (obligation "n1")) ≡ ok (normal_obligation "n1")
unfolding normalize_object with_derived set_field identity_seed obligation_identity canonical
    insert_field sort_texts distinct is_post_builder_claim policy_for policy
obligation_normalized = refl

normalize_runtime_obligation-IsNormalized_example :
    IsNormalized (normal_obligation "n1")
    × (is_post_builder_claim "responsive_behavior" ≡ true)
    × ((d : Fields) × (normal_obligation "n1" ≡ canonical_fields d)
        × (value_at "obligation_id" d ≡ str (obligation_identity test_host d)))
normalize_runtime_obligation-IsNormalized_example =
    normalize_runtime_obligation-IsNormalized test_host (obligation "n1") (normal_obligation "n1")
      obligation_normalized

abbrev rows : List Json
rows = obligation_row "n2" ∷ static_row ∷ obligation_row "n1" ∷ []

rows_derived :
    derive_runtime_obligations test_host rows
    ≡ ok (normal_obligation "n1" ∷ normal_obligation "n2" ∷ [])
unfolding derive_runtime_obligations derive_loop bound_obligation sort_obligations insert_obligation
    normalize_object with_derived set_field identity_seed obligation_identity canonical insert_field
    sort_texts distinct is_post_builder_claim policy_for policy
rows_derived = refl

derive_runtime_obligations_complete_example :
    (found : List Fields) × (Perm (normal_obligation "n1" ∷ normal_obligation "n2" ∷ []) found)
    × (map key_of found ≡ runtime_keys test_host rows)
    × FreshKeys [] (runtime_keys test_host rows)
    × All IsNormalized found
derive_runtime_obligations_complete_example =
    derive_runtime_obligations_complete test_host rows
      (normal_obligation "n1" ∷ normal_obligation "n2" ∷ []) rows_derived

eligible :
    (lifecycle_status test_host true (normal_obligation "n1" ∷ [])).final_project_gate ≡ "eligible"
unfolding lifecycle_status runtime_state final_gate
eligible = refl

lifecycle_status_gate_example :
    (true ≡ true) × All (IsClosed test_host) (normal_obligation "n1" ∷ [])
lifecycle_status_gate_example =
    (lifecycle_status_gate test_host true (normal_obligation "n1" ∷ [])).0 eligible

lifecycle_status_validated_example :
    (((lifecycle_status test_host true (normal_obligation "n1" ∷ [])).runtime_validated ≡ true) ↔ (
      ((normal_obligation "n1" ∷ []) ≢ [])
      × All (IsClosed test_host) (normal_obligation "n1" ∷ [])))
    × ((lifecycle_status test_host true (normal_obligation "n1" ∷ [])).production_ready ≡ false)
lifecycle_status_validated_example =
    lifecycle_status_validated test_host true (normal_obligation "n1" ∷ [])
