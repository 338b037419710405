-- ===== src/Rules/ModeLaws.antt =====
-- The mode contract, the QA rules and the logged assumptions, each against a description of its own.
use ev4_constructability_eng.Base.{
  ◌≡◌, refl, ap, sym, ◌∙◌, ◌↔◌, inl, inr, ℕ, suc, String, Bool, true, false, not, ◌==◌, List, [],
  ◌∷◌, All, append-eq-nil, arith, eq_iff, str_in, Bool-cases,
}
use ev4_constructability_eng.Base.Python.{ok, >>=-eq-ok, ok-injective}
use ev4_constructability_eng.Json.{
  Json, obj, end, Fields, as_dict, dict_or_empty, get, in_set, is_null, is_str, or_else, py_list,
  truthy, value_at,
}
use ev4_constructability_eng.Json.Build.{list_of}
use ev4_constructability_eng.Json.Laws.{get-value_at, is_str-eq}
use ev4_constructability_eng.Rules.Document.{
  builder_package, has_object, non_executable_review_statuses, review_status, validation_modes,
}
use ev4_constructability_eng.Rules.Contracts.{mode_contract}
use ev4_constructability_eng.Rules.Nodes.{flag}
use ev4_constructability_eng.Rules.Evaluate.{
  assumption_is_safe, assumptions_violations, logged_assumption_violations, qa_violations,
}

-- A QA block that claims production readiness has its evidence and a matrix.
abbrev pub QaIsHonest : Json → Type 0
QaIsHonest source =
    (block : Json)
    → get "qa_status" source ≡ ok block
    → flag "production_ready" (dict_or_empty block) ≡ true
    → (flag "full_qa_evidence_present" (dict_or_empty block) ≡ true)
      × (has_object (value_at "qa_matrix" (dict_or_empty block)) ≡ true)

-- No QA violation means that no place of a QA status claims production readiness without the
-- evidence and the matrix, although the loop stops at the first violation.
pub qa_violations_sound :
    (sources : List Json) → qa_violations sources ≡ ok [] → All QaIsHonest sources
unfolding qa_violations
qa_violations_sound [] h = tt
qa_violations_sound (source ∷ rest) h =
    let (block, reads, h1) = >>=-eq-ok (get "qa_status" source) _ h in
    let qa = dict_or_empty block in
    let clean : (flag "production_ready" qa ≡ true
          → (flag "full_qa_evidence_present" qa ≡ true)
            × (has_object (value_at "qa_matrix" qa) ≡ true))
        × (qa_violations rest ≡ ok []) =
      (λ c. ground arith, ground arith) in
    (
      λ b rb claims.
          let same : block ≡ b = ok-injective (sym reads ∙ rb) in
          rw same at (clean.0 (rw (← same) at claims)),
      qa_violations_sound rest clean.1,
    )

-- What a logged assumption must say.
pub record IsSafe (a : Fields) : Type 0 where
  pub low_risk : value_at "risk_level" a ≡ Json.str "low"
  pub reversible : flag "reversible" a ≡ true
  pub visible : flag "visible_in_output" a ≡ true
  pub inside_boundary : flag "crosses_architecture_boundary" a ≡ false

abbrev pub AssumptionIsSafe : Json → Type 0
AssumptionIsSafe v = (a : Fields) × (as_dict v ≡ ok a) × IsSafe a

IsSafe-sound : (a : Fields) → assumption_is_safe a ≡ true → IsSafe a
IsSafe-sound a h = record {
  low_risk = is_str-eq "low" (value_at "risk_level" a) (ground arith);
  reversible = ground arith;
  visible = ground arith;
  inside_boundary = ground arith;
}

assumptions_sound :
    (index : ℕ) (vs : List Json) → assumptions_violations index vs ≡ ok [] → All AssumptionIsSafe vs
unfolding assumptions_violations
assumptions_sound index [] h = tt
assumptions_sound index (v ∷ vs) h =
    let (a, reads, h1) = >>=-eq-ok (as_dict v) _ h in
    let (later, reads_later, h2) = >>=-eq-ok (assumptions_violations (suc index) vs) _ h1 in
    let clean = append-eq-nil _ later (ok-injective h2) in
    (
      (a, reads, IsSafe-sound a (ground arith)),
      assumptions_sound (suc index) vs (reads_later ∙ ap ok clean.1),
    )

falsy_assumptions :
    (pkg : Json)
    → truthy pkg ≡ false
    → value_at "logged_assumptions" (dict_or_empty pkg) ≡ Json.null
falsy_assumptions (obj end) h = refl
falsy_assumptions (obj (Fields.field k v fs)) h = cc
falsy_assumptions _ h = refl

-- The assumptions of a package, which has none when it is absent.
package_assumptions :
    (pkg theirs : Json)
    → get "logged_assumptions" (or_else pkg (obj end)) ≡ ok theirs
    → value_at "logged_assumptions" (dict_or_empty pkg) ≡ theirs
package_assumptions pkg theirs h = elim (Bool-cases (truthy pkg)) [
  | inl e ↦ get-value_at "logged_assumptions" pkg theirs (rw e at h)
  | inr e ↦ falsy_assumptions pkg e ∙ ok-injective (rw e at h)
]

-- When nothing is reported for the status executable_with_logged_assumption, the assumptions of the
-- review or, if it has none, of the package are not empty, and every one of them is safe.
pub logged_assumption_violations_sound :
    (pkg r : Json)
    → logged_assumption_violations pkg r (Json.str "executable_with_logged_assumption") ≡ ok []
    → (logged : Json) × (entries : List Json) × (logged
        ≡ or_else
            (value_at "logged_assumptions" (dict_or_empty r))
            (or_else (value_at "logged_assumptions" (dict_or_empty pkg)) (list_of [])))
      × (truthy logged ≡ true)
      × (py_list logged ≡ ok entries)
      × All AssumptionIsSafe entries
unfolding logged_assumption_violations
logged_assumption_violations_sound pkg r h =
    let (mine, reads_mine, h1) = >>=-eq-ok (get "logged_assumptions" r) _ h in
    let (theirs, reads_theirs, h2) =
      >>=-eq-ok (get "logged_assumptions" (or_else pkg (obj end))) _ h1 in
    let logged = or_else mine (or_else theirs (list_of [])) in
    let (entries, listed, h3) = >>=-eq-ok (py_list logged) _ h2 in
    let (invalid, checked, h4) = >>=-eq-ok (assumptions_violations 0 entries) _ h3 in
    let clean = append-eq-nil _ invalid (ok-injective h4) in
    (
      logged,
      entries,
      rw (
        get-value_at "logged_assumptions" r mine reads_mine,
        package_assumptions pkg theirs reads_theirs,
      ),
      ground arith,
      listed,
      assumptions_sound 0 entries (checked ∙ ap ok clean.1),
    )

-- What each mode asks of a document, over its package and its review status.
abbrev pub ModeHolds : String → Bool → Json → Type 0
ModeHolds mode present s =
    (str_in mode validation_modes ≡ true)
    × (mode ≡ "report" → present ≡ false)
    × (mode ≡ "package" → (present ≡ true) × (s ≡ Json.str "executable_ready"))
    × (present ≡ true → in_set non_executable_review_statuses s ≡ ok false)

-- The mode contract reports nothing exactly for a known mode when report mode has no package,
-- package mode has one and a review that is executable_ready, and a package never stands beside
-- a review that is blocked or waits for evidence or an amendment.
pub mode_contract_iff :
    (doc s pkg : Json) (mode : String)
    → review_status doc ≡ ok s
    → builder_package doc ≡ ok pkg
    → (mode_contract doc mode ≡ ok []) ↔ ModeHolds mode (not (is_null pkg)) s
unfolding mode_contract
mode_contract_iff doc s pkg mode reads_s reads_pkg =
    rw (reads_s, reads_pkg)
      (
        λ h. (
          ground arith,
          λ e. ground (arith, (eq_iff mode "report").1 e),
          λ e. (
            ground (arith, (eq_iff mode "package").1 e),
            is_str-eq "executable_ready" s (ground (arith, (eq_iff mode "package").1 e)),
          ),
          λ e. ground arith,
        ),
        λ holds.
            let report : (mode == "report") ≡ true → not (is_null pkg) ≡ false =
              λ e. holds.1 ((eq_iff mode "report").0 e) in
            let present : (mode == "package") ≡ true → not (is_null pkg) ≡ true =
              λ e. (holds.2 ((eq_iff mode "package").0 e)).0 in
            let executable : (mode == "package") ≡ true → is_str "executable_ready" s ≡ true =
              λ e. ap (is_str "executable_ready") (holds.2 ((eq_iff mode "package").0 e)).1 in
            let known = holds.0 in let allowed = holds.3 in ground arith,
      )
