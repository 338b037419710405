-- ===== src/Evaluation/DecisionLaws.antt =====
-- When a decision of the Architect settles a claim.
use mathlib.Core.List.{Memᴰ}
use ev4_constructability_eng.Base.{
  ◌≡◌, refl, sym, ap, ◌∙◌, ◌↔◌, ◌⊎◌, inl, inr, String, Bool, true, false, ◌&&◌, ◌||◌, or_true,
  arith, eq_refl,
}
use ev4_constructability_eng.Base.Python.{ok, >>=-eq-ok, ensure-then, ok-injective, type_error}
use ev4_constructability_eng.Json.{
  Json, Items, null, bool, int, real, str, arr, obj, Fields, elems, is_null, py_eq,
}
use ev4_constructability_eng.Json.Host.{Host}
use ev4_constructability_eng.Json.Laws.{is_str-eq}
use ev4_constructability_eng.Effects.Inputs.{inner}
use ev4_constructability_eng.Effects.Permissions.{approved_status}
use ev4_constructability_eng.Effects.Permits.{IsApproval, any_str-Memᴰ, approved_status_iff}
use ev4_constructability_eng.Evaluation.Decision.{
  candidate_matches, candidate_of, choose_findings, decision_of, decision_record, either_of,
  evaluate_architect_decision, is_hashable, subject_matches,
}
use ev4_constructability_eng.Evaluation.RuntimeLaws.{base_evaluation-Findings}
use ev4_constructability_eng.Evaluation.Support.{Evaluation}

-- A decision names no candidate, or the one that is selected.
abbrev pub FitsCandidate : Json → Json → Type 0
FitsCandidate candidate v = (v ≡ null) ⊎ (py_eq v candidate ≡ true)

-- A decision names no subject, the subject itself or a list that has it.
abbrev pub FitsSubject : String → Json → Type 0
FitsSubject s v = (v ≡ null) ⊎ (v ≡ str s) ⊎ ((vs : Items) × (v ≡ arr vs) × Memᴰ (str s) (elems vs))

is_null-eq : (v : Json) → is_null v ≡ true → v ≡ null
is_null-eq null h = refl
is_null-eq (bool b) h = cc
is_null-eq (int n) h = cc
is_null-eq (real n k) h = cc
is_null-eq (str s) h = cc
is_null-eq (arr vs) h = cc
is_null-eq (obj fs) h = cc

-- What a call that returned says of its answer is said of the answer.
approved_iff : (v : Json) (b : Bool) → approved_status v ≡ ok b → (b ≡ true) ↔ IsApproval v
approved_iff v b h =
    let iff = approved_status_iff v in
    (λ e. iff.0 (h ∙ ap ok e), λ a. ok-injective (sym h ∙ iff.1 a))

candidate_matches_iff :
    (candidate v : Json) (b : Bool)
    → candidate_matches candidate v ≡ ok b
    → (b ≡ true) ↔ FitsCandidate candidate v
unfolding candidate_matches
candidate_matches_iff candidate v b h =
    let (_, h1) = ensure-then (is_hashable candidate) type_error _ h in
    let (_, h2) = ensure-then (is_hashable v) type_error _ h1 in
    let same = ok-injective h2 in
    (
      λ e. elim (or_true (is_null v) (py_eq v candidate) (same ∙ e)) [
        | inl absent ↦ inl (is_null-eq v absent)
        | inr equal ↦ inr equal
      ],
      λ f. elim f [
        | inl absent ↦ sym same ∙ ap (λ x. is_null x || py_eq x candidate) absent
        | inr equal ↦ sym same ∙ ground (arith, equal)
      ],
    )

subject_matches_iff : (s : String) (v : Json) → (subject_matches s v ≡ true) ↔ FitsSubject s v
subject_matches_iff s null = (λ h. inl refl, λ f. refl)
subject_matches_iff s (str t) = (
  λ h. inr (inl (is_str-eq s (str t) h)),
  λ f. elim f [
    | inl e ↦ cc
    | inr (inl e) ↦ ap (subject_matches s) e ∙ eq_refl s
    | inr (inr (vs, e, m)) ↦ cc
  ],
)
subject_matches_iff s (arr vs) = (
  λ h. inr (inr (vs, refl, (any_str-Memᴰ s (elems vs)).0 h)),
  λ f. elim f [
    | inl e ↦ cc
    | inr (inl e) ↦ cc
    | inr (inr (ws, e, m)) ↦ ap (subject_matches s) e ∙ (any_str-Memᴰ s (elems ws)).1 m
  ],
)
subject_matches_iff s (bool b) =
    (λ h. cc, λ f. elim f [ inl e ↦ cc | inr (inl e) ↦ cc | inr (inr (vs, e, m)) ↦ cc ])
subject_matches_iff s (int n) =
    (λ h. cc, λ f. elim f [ inl e ↦ cc | inr (inl e) ↦ cc | inr (inr (vs, e, m)) ↦ cc ])
subject_matches_iff s (real n k) =
    (λ h. cc, λ f. elim f [ inl e ↦ cc | inr (inl e) ↦ cc | inr (inr (vs, e, m)) ↦ cc ])
subject_matches_iff s (obj fs) =
    (λ h. cc, λ f. elim f [ inl e ↦ cc | inr (inl e) ↦ cc | inr (inr (vs, e, m)) ↦ cc ])

choose_findings_iff :
    (host : Host) (approved fits_candidate fits_subject : Bool) (candidate current : Json)
    (rec : Fields)
    → ((choose_findings host approved (fits_candidate && fits_subject) candidate current rec).status
        ≡ "satisfied")
      ↔ ((approved ≡ true) × (fits_candidate ≡ true) × (fits_subject ≡ true))
choose_findings_iff host true true true candidate current rec = (λ h. (refl, refl, refl), λ h. refl)
choose_findings_iff host true true false candidate current rec = (λ h. cc, λ (a, b, c). cc)
choose_findings_iff host true false g candidate current rec = (λ h. cc, λ (a, b, c). cc)
choose_findings_iff host false f g candidate current rec = (λ h. cc, λ (a, b, c). cc)

-- A claim that waits for the Architect is satisfied, where its evaluation is returned, exactly when
-- the intake's decision on it has an approval for its status, names no candidate or the selected
-- one, and names no subject, the subject itself or a list that has it.
pub evaluate_architect_decision_iff :
    (host : Host) (c s : String) (intake : Fields) (e : Evaluation)
    → evaluate_architect_decision host c s intake ≡ ok e
    → (candidate : Json) × (candidate_of intake ≡ ok candidate)
      × ((e.status ≡ "satisfied") ↔ (
          IsApproval (inner "status" (decision_of intake c))
          × FitsCandidate candidate
              (either_of "selected_candidate_id" "candidate_id" (decision_of intake c))
          × FitsSubject s (either_of "subject_refs" "node_ids" (decision_of intake c))))
unfolding evaluate_architect_decision
evaluate_architect_decision_iff host c s intake e evaluated =
    let current = inner "status" (decision_of intake c) in
    let named = either_of "selected_candidate_id" "candidate_id" (decision_of intake c) in
    let subjects = either_of "subject_refs" "node_ids" (decision_of intake c) in
    let (candidate, selected, h1) = >>=-eq-ok (candidate_of intake) _ evaluated in
    let (fits, matched, h2) = >>=-eq-ok (candidate_matches candidate named) _ h1 in
    let (approved, decided, h3) = >>=-eq-ok (approved_status current) _ h2 in
    let rec = decision_record host c s candidate current intake in
    let (status, _, _) =
      base_evaluation-Findings c s
        (choose_findings host approved (fits && subject_matches s subjects) candidate current rec) e
        h3 in
    let chosen =
      choose_findings_iff host approved fits (subject_matches s subjects) candidate current rec in
    let approval = approved_iff current approved decided in
    let bound = candidate_matches_iff candidate named fits matched in
    let about = subject_matches_iff s subjects in
    (
      candidate,
      selected,
      (
        λ satisfied.
            let (a, f, g) = chosen.0 (sym status ∙ satisfied) in
            (approval.0 a, bound.0 f, about.0 g),
        λ (a, f, g). status ∙ chosen.1 (approval.1 a, bound.1 f, about.1 g),
      ),
    )
