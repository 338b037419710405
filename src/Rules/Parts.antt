-- ===== src/Rules/Parts.antt =====
-- What an empty result of `evaluate_document` says of its parts.
use ev4_constructability_eng.Base.{◌≡◌, refl, String, Bool, List, [], ◌∷◌, All}
use ev4_constructability_eng.Base.Python.{Py, ok, raise, >>=-eq-ok}
use ev4_constructability_eng.Json.{Json, obj, end, is_str, or_else}
use ev4_constructability_eng.Rules.Document.{
  ConstructabilityViolation, collect, extend, builder_package, review, review_status, status,
}
use ev4_constructability_eng.Rules.Contracts.{
  architect_contract, first_batch_contract, mode_contract, schema_contract, strategy_map_contract,
}
use ev4_constructability_eng.Rules.Evaluate.{
  evaluate_document, executable_violations, logged_assumption_violations, qa_violations,
  readiness_violations, reviewed_violations,
}

module _ {ℓ} {A : Type ℓ} where
  pub extend-eq-nil : (m rest : Py (List A)) → extend m rest ≡ ok [] → (m ≡ ok []) × (rest ≡ ok [])
  extend-eq-nil (ok []) (ok ys) h = (refl, h)
  extend-eq-nil (ok (x ∷ xs)) (ok ys) h = cc
  extend-eq-nil (ok xs) (raise e) h = cc
  extend-eq-nil (raise e) rest h = cc

  pub collect-eq-nil : (ms : List (Py (List A))) → collect ms ≡ ok [] → All (λ m. m ≡ ok []) ms
  unfolding collect
  collect-eq-nil [] h = tt
  collect-eq-nil (m ∷ ms) h =
      let (first, later) = extend-eq-nil m (collect ms) h in (first, collect-eq-nil ms later)

-- The parts of the body over what it reads first; the flag says that the status is
-- executable_ready.
abbrev parts :
    Json → String → Json → Json → Json → Bool → List (Py (List ConstructabilityViolation))
parts doc mode r pkg rs executable =
    mode_contract doc mode
    ∷ schema_contract doc
    ∷ architect_contract doc
    ∷ strategy_map_contract doc executable
    ∷ first_batch_contract doc executable
    ∷ readiness_violations doc executable
    ∷ reviewed_violations doc executable
    ∷ executable_violations pkg r executable
    ∷ qa_violations (doc ∷ r ∷ or_else pkg (obj end) ∷ [])
    ∷ logged_assumption_violations pkg r rs
    ∷ []

pub record IsClean (doc : Json) (mode : String) (s : Json) : Type 0 where
  pub r : Json
  pub pkg : Json
  pub rs : Json
  pub reads_review : review doc ≡ ok r
  pub reads_package : builder_package doc ≡ ok pkg
  pub reads_review_status : review_status doc ≡ ok rs
  pub silent : All (λ m. m ≡ ok []) (parts doc mode r pkg rs (is_str "executable_ready" s))

pub evaluate_document-IsClean :
    (doc : Json) (mode : String)
    → evaluate_document doc mode ≡ ok []
    → (s : Json) × (status doc ≡ ok s) × IsClean doc mode s
unfolding evaluate_document
evaluate_document-IsClean doc mode h =
    let (r, reads_review, h1) = >>=-eq-ok (review doc) _ h in
    let (pkg, reads_package, h2) = >>=-eq-ok (builder_package doc) _ h1 in
    let (s, reads_status, h3) = >>=-eq-ok (status doc) _ h2 in
    let (rs, reads_review_status, h4) = >>=-eq-ok (review_status doc) _ h3 in
    (
      s,
      reads_status,
      record {
        r = r;
        pkg = pkg;
        rs = rs;
        reads_review = reads_review;
        reads_package = reads_package;
        reads_review_status = reads_review_status;
        silent = collect-eq-nil (parts doc mode r pkg rs (is_str "executable_ready" s)) h4;
      },
    )
