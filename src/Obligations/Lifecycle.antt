-- ===== src/Obligations/Lifecycle.antt =====
-- validator/runtime_obligations.py, `lifecycle_status`, and when the final gate opens.
use ev4_constructability_eng.Base.{
  ◌≡◌, ◌≢◌, refl, sym, ◌∙◌, ◌↔◌, inl, inr, String, Bool, true, false, not, ◌&&◌, ◌||◌, ◌==◌, List,
  [], ◌∷◌, All, all, and_true, eq_iff, is_empty, map, str_in, Bool-cases, if◌then◌else◌,
}
use ev4_constructability_eng.Json.{Fields, value_at}
use ev4_constructability_eng.Json.Host.{Host}
use ev4_constructability_eng.Obligations.Normalize.{closing_statuses}

pub record LifecycleStatus : Type 0 where
  pub ce_builder_ready : Bool
  pub runtime_validated : Bool
  pub runtime_validation : String
  pub final_project_gate : String
  pub production_ready : Bool

-- The texts of the statuses of the obligations; a set of them is only tested for inclusion and
-- membership, for which the list serves.
abbrev pub status_texts : Host → List Fields → List String
status_texts host obligations = map (λ o. host.py_str (value_at "status" o)) obligations

-- The state of the runtime validation.
unfoldable pub runtime_state : List String → String
runtime_state found =
    if is_empty found
    then "not_applicable"
    else if all (λ s. str_in s closing_statuses) found
    then "passed"
    else if str_in "executed_fail" found
    then "failed"
    else "pending"

unfoldable pub final_gate : Bool → List String → String
final_gate builder_ready found =
    if is_empty found || all (λ s. str_in s closing_statuses) found
    then if builder_ready then "eligible" else "blocked"
    else "blocked"

-- `lifecycle_status`
unfoldable pub lifecycle_status : Host → Bool → List Fields → LifecycleStatus
unfolding runtime_state final_gate
lifecycle_status host builder_ready obligations = record {
  ce_builder_ready = builder_ready;
  runtime_validated = runtime_state (status_texts host obligations) == "passed";
  runtime_validation = runtime_state (status_texts host obligations);
  final_project_gate = final_gate builder_ready (status_texts host obligations);
  production_ready = false;
}

-- An obligation that is closed.
abbrev pub IsClosed : Host → Fields → Type 0
IsClosed host o = str_in (host.py_str (value_at "status" o)) closing_statuses ≡ true

all-IsClosed_iff :
    (host : Host) (obligations : List Fields)
    → (all (λ s. str_in s closing_statuses) (status_texts host obligations) ≡ true)
      ↔ All (IsClosed host) obligations
all-IsClosed_iff host [] = (λ h. tt, λ h. refl)
all-IsClosed_iff host (o ∷ os) =
    let (to, from) = all-IsClosed_iff host os in
    (
      λ h. let (here, later) = and_true _ _ h in (here, to later),
      λ (here, later). rw here (from later),
    )

gate_of :
    (ready : Bool) (found : List String)
    → (final_gate ready found == "eligible") ≡ (ready && all (λ s. str_in s closing_statuses) found)
unfolding final_gate
gate_of true [] = refl
gate_of false [] = refl
gate_of true (s ∷ ss) = elim (Bool-cases (all (λ s. str_in s closing_statuses) (s ∷ ss))) [
  | inl e ↦ rw e
  | inr e ↦ rw e
]
gate_of false (s ∷ ss) = elim (Bool-cases (all (λ s. str_in s closing_statuses) (s ∷ ss))) [
  | inl e ↦ rw e
  | inr e ↦ rw e
]

-- The final Project Gate is eligible exactly when CE is Builder-ready and every obligation is
-- closed; without a Builder-ready CE, or with one open or failed obligation, it is not.
pub lifecycle_status_gate :
    (host : Host) (ready : Bool) (obligations : List Fields)
    → ((lifecycle_status host ready obligations).final_project_gate ≡ "eligible")
      ↔ ((ready ≡ true) × All (IsClosed host) obligations)
unfolding lifecycle_status
lifecycle_status_gate host ready obligations =
    let (to, from) = all-IsClosed_iff host obligations in
    let same = gate_of ready (status_texts host obligations) in
    let eligible = eq_iff (final_gate ready (status_texts host obligations)) "eligible" in
    (
      λ h. let (r, c) = and_true ready _ (sym same ∙ eligible.1 h) in (r, to c),
      λ (r, c). eligible.0 (same ∙ rw (r, from c) refl),
    )

state_passed :
    (found : List String)
    → (runtime_state found == "passed")
      ≡ (not (is_empty found) && all (λ s. str_in s closing_statuses) found)
unfolding runtime_state
state_passed [] = refl
state_passed (s ∷ ss) = elim (Bool-cases (all (λ s. str_in s closing_statuses) (s ∷ ss))) [
  | inl e ↦ rw e
  | inr e ↦ elim (Bool-cases (str_in "executed_fail" (s ∷ ss))) [
    | inl f ↦ rw (e, f)
    | inr f ↦ rw (e, f)
  ]
]

-- A run is runtime validated exactly when there is an obligation and every one is closed; and no
-- status is ever production ready.
pub lifecycle_status_validated :
    (host : Host) (ready : Bool) (obligations : List Fields)
    → (((lifecycle_status host ready obligations).runtime_validated ≡ true)
        ↔ ((obligations ≢ []) × All (IsClosed host) obligations))
      × ((lifecycle_status host ready obligations).production_ready ≡ false)
unfolding lifecycle_status
lifecycle_status_validated host ready [] =
    ((λ h. cc (sym (state_passed []) ∙ h), λ (h, _). absurd (h refl)), refl)
lifecycle_status_validated host ready (o ∷ os) =
    let (to, from) = all-IsClosed_iff host (o ∷ os) in
    let same = state_passed (status_texts host (o ∷ os)) in
    ((λ h. (λ e. cc, to (sym same ∙ h)), λ (_, c). same ∙ from c), refl)
