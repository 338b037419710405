-- ===== src/Execution/SelectLaws.antt =====
-- The result that is selected for a claim of a subject.
use mathlib.Core.List.{Memᴰ}
use ev4_constructability_eng.Base.{
  ◌≡◌, ◌≢◌, refl, sym, ap, subst, ◌∙◌, ◌↔◌, inl, inr, ℕ, suc, String, Bool, true, ◌==◌, some, List,
  [], ◌∷◌, and_true, arith, Bool-cases, eq_iff, eq_refl, keep, leb, length, map,
}
use ev4_constructability_eng.Base.Sorting.{kept-sort_by, sort_by}
use ev4_constructability_eng.Base.Python.{ok, >>=-eq-ok, ok-injective}
use ev4_constructability_eng.Json.{Json}
use ev4_constructability_eng.Json.Host.{Host}
use ev4_constructability_eng.Obligations.Derive.{Key, key_in}
use ev4_constructability_eng.Obligations.DeriveLaws.{FreshKeys}
use ev4_constructability_eng.Execution.Execute.{
  Repository, RepositoryExecutionResult, RuntimeExecutionBatch, execute_loop,
  execute_runtime_requests, matches_request, only_one, result_le, select_execution_result,
}
use ev4_constructability_eng.Execution.ExecuteLaws.{loop_IsBatch, result_key}

module _ (t c s : String) where
  abbrev kept : List RepositoryExecutionResult → List RepositoryExecutionResult
  kept rs = keep (matches_request t c s) rs

  matches-key :
      (r : RepositoryExecutionResult) → matches_request t c s r ≡ true → result_key r ≡ (c, s)
  matches-key r h =
      let (_, rest) = and_true (r.transaction_id == t) _ h in
      let (a, b) = and_true (r.claim_id == c) (r.subject_ref == s) rest in
      cc ((eq_iff r.claim_id c).0 a, (eq_iff r.subject_ref s).0 b)

  key_in-more :
      (k : Key) (seen : List Key) → key_in (c, s) seen ≡ true → key_in (c, s) (k ∷ seen) ≡ true
  key_in-more (d, u) seen h = ground (arith, h)

  -- No result with new keys is for a key that was seen.
  kept-none :
      (seen : List Key) (rs : List RepositoryExecutionResult)
      → key_in (c, s) seen ≡ true
      → FreshKeys seen (map result_key rs)
      → length (kept rs) ≡ 0
  kept-none seen [] known fresh = refl
  kept-none seen (r ∷ rs) known (new, later) = elim (Bool-cases (matches_request t c s r)) [
    | inl e ↦ cc (known, new, ap (λ k. key_in k seen) (matches-key r e))
    | inr e ↦
        rw e (kept-none (result_key r ∷ seen) rs (key_in-more (result_key r) seen known) later)
  ]

  -- At most one result with new and different keys is for a key.
  kept-one :
      (seen : List Key) (rs : List RepositoryExecutionResult)
      → FreshKeys seen (map result_key rs)
      → leb (length (kept rs)) 1 ≡ true
  kept-one seen [] fresh = refl
  kept-one seen (r ∷ rs) (new, later) = elim (Bool-cases (matches_request t c s r)) [
    | inl e ↦
        let this : key_in (c, s) (result_key r ∷ seen) ≡ true =
          subst (λ k. key_in (c, s) (k ∷ seen) ≡ true) (sym (matches-key r e)) (key_in-head seen) in
        rw (e, kept-none (result_key r ∷ seen) rs this later)
    | inr e ↦ rw e (kept-one (result_key r ∷ seen) rs later)
  ]
    where
      key_in-head : (ks : List Key) → key_in (c, s) ((c, s) ∷ ks) ≡ true
      key_in-head ks = rw (eq_refl c, eq_refl s)

Memᴰ-keep {ℓ} :
    {A : Type ℓ} (p : A → Bool) (r : A) (xs : List A)
    → Memᴰ r (keep p xs) ↔ (Memᴰ r xs × (p r ≡ true))
Memᴰ-keep p r [] = (λ m. elim m [ ], λ (m, h). elim m [ ])
Memᴰ-keep p r (x ∷ xs) =
    let later = Memᴰ-keep p r xs in
    elim (Bool-cases (p x)) [
      | inl e ↦ rw e (
        λ m. elim m [
          | Memᴰ.head same ↦ (Memᴰ.head same, subst (λ y. p y ≡ true) (sym same) e)
          | Memᴰ.tail n ↦ let (a, b) = later.0 n in (Memᴰ.tail a, b)
        ],
        λ (m, h). elim m [
          | Memᴰ.head same ↦ Memᴰ.head same
          | Memᴰ.tail n ↦ Memᴰ.tail (later.1 (n, h))
        ],
      )
      | inr e ↦ rw e (
        λ m. let (a, b) = later.0 m in (Memᴰ.tail a, b),
        λ (m, h). elim m [ Memᴰ.head same ↦ cc (e, h, ap p same) | Memᴰ.tail n ↦ later.1 (n, h) ],
      )
    ]

only_one_iff {ℓ} :
    {A : Type ℓ} (xs : List A) (r : A)
    → leb (length xs) 1 ≡ true
    → (only_one xs ≡ some r) ↔ Memᴰ r xs
only_one_iff [] r h = (λ e. cc, λ m. elim m [ ])
only_one_iff (x ∷ []) r h = (
  λ e. Memᴰ.head (sym (some-injective e)),
  λ m. elim m [ Memᴰ.head e ↦ ap some (sym e) | Memᴰ.tail n ↦ elim n [ ] ],
)
  where
    some-injective : {A : Type ℓ} {a b : A} → some a ≡ some b → a ≡ b
    some-injective e = cc
only_one_iff (x ∷ y ∷ xs) r h = elim (two_or_more (length xs) h) [ ]
  where
    two_or_more : (n : ℕ) → leb (suc (suc n)) 1 ≢ true
    two_or_more n e = ground (arith, e)

-- Of the batch of a transaction, the result that is selected for a claim of a subject is the one in
-- it with this transaction, claim and subject: it is selected exactly if it is there, whatever
-- other results there are.
pub select_execution_result_iff :
    (host : Host) (repository : Repository) (t : String) (requests : List Json)
    (batch : RuntimeExecutionBatch) (c s : String) (r : RepositoryExecutionResult)
    → execute_runtime_requests host repository t requests ≡ ok batch
    → (select_execution_result (some batch) t c s ≡ some r)
      ↔ (Memᴰ r batch.results × (matches_request t c s r ≡ true))
unfolding execute_runtime_requests select_execution_result
select_execution_result_iff host repository t requests batch c s r h =
    let (found, looped, h1) = >>=-eq-ok (execute_loop host repository t [] requests) _ h in
    let fresh = (loop_IsBatch host repository t [] requests found looped).fresh_results in
    let few = kept-sort_by (result_le host repository) (matches_request t c s) found.1 in
    let sorted = sort_by (result_le host repository) found.1 in
    let one =
      only_one_iff (keep (matches_request t c s) sorted) r
        (ap (λ n. leb n 1) few ∙ kept-one t c s [] found.1 fresh) in
    let member = Memᴰ-keep (matches_request t c s) r sorted in
    subst
      (λ (x : RuntimeExecutionBatch).
        (select_execution_result (some x) t c s ≡ some r)
        ↔ (Memᴰ r x.results × (matches_request t c s r ≡ true)))
      (ok-injective h1) (rw (eq_refl t) (λ e. member.0 (one.0 e), λ m. one.1 (member.1 m)))
