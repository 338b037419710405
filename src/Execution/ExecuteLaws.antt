-- ===== src/Execution/ExecuteLaws.antt =====
-- What the results of a batch are bound to.
use mathlib.Core.List.{Memᴰ, Perm}
use ev4_constructability_eng.Base.{
  ◌≡◌, refl, sym, ap, subst, ◌∙◌, length, suc, String, false, not, ◌&&◌, ◌==◌, Option, none, some,
  List, [], ◌∷◌, ◌++◌, All, All-map, eq_iff, is_empty, map, not-true, or_false,
}
use ev4_constructability_eng.Base.Sorting.{sort_by-Perm}
use ev4_constructability_eng.Base.Python.{ok, >>=-eq-ok, ensure-then, ok-injective}
use ev4_constructability_eng.Actions.Normalize.{text_value}
use ev4_constructability_eng.Json.{Json, arr, nil, Fields, from_default, lookup, value_at}
use ev4_constructability_eng.Json.Host.{Host}
use ev4_constructability_eng.Registry.Contract.{find}
use ev4_constructability_eng.Obligations.Derive.{Key, key_in}
use ev4_constructability_eng.Obligations.DeriveLaws.{FreshKeys}
use ev4_constructability_eng.Execution.Requests.{
  Declaration, evaluator_by_claim, input_ref_of, leaked_fields, normalize_request, owned_evaluator,
  request_complete, string_array, unknown_fields_of,
}
use ev4_constructability_eng.Execution.Execute.{
  Repository, RepositoryExecutionResult, RuntimeExecutionBatch, add_result, declaration_key,
  declaration_le, execute_if_available, execute_loop, execute_runtime_requests, request_fields,
  result_le,
}
use ev4_constructability_eng.Execution.BindingLaws.{IsExecuted, execute_input-IsExecuted}

owned_evaluator-eq :
    (claim_id : String) (o : Option String) (e : String)
    → owned_evaluator claim_id o ≡ ok e
    → o ≡ some e
owned_evaluator-eq claim_id none e h = cc
owned_evaluator-eq claim_id (some x) e h = ap some (ok-injective h)

-- Keys that are new to more keys are new to fewer.
key_in-drop :
    (k a : Key) (front seen : List Key)
    → key_in k (front ++ (a ∷ seen)) ≡ false
    → key_in k (front ++ seen) ≡ false
key_in-drop (s, c) (t, d) [] seen h = (or_false (s == t && c == d) (key_in (s, c) seen) h).1
key_in-drop (s, c) a ((t, d) ∷ front) seen h =
    let (here, later) = or_false (s == t && c == d) (key_in (s, c) (front ++ (a ∷ seen))) h in
    rw (here, key_in-drop (s, c) a front seen later)

FreshKeys-drop :
    (a : Key) (front seen ks : List Key)
    → FreshKeys (front ++ (a ∷ seen)) ks
    → FreshKeys (front ++ seen) ks
FreshKeys-drop a front seen [] h = tt
FreshKeys-drop a front seen (k ∷ ks) (fresh, later) =
    (key_in-drop k a front seen fresh, FreshKeys-drop a (k ∷ front) seen ks later)

FreshKeys-less : (k : Key) (seen ks : List Key) → FreshKeys (k ∷ seen) ks → FreshKeys seen ks
FreshKeys-less k seen ks h = FreshKeys-drop k [] seen ks h

-- The key of a result, that of its declaration.
abbrev pub result_key : RepositoryExecutionResult → Key
result_key r = (r.claim_id, r.subject_ref)

module _ (host : Host) (repository : Repository) (transaction_id : String) where
  -- A declaration names the evaluator that the repository owns for its claim.
  abbrev pub IsOwned : Declaration → Type 0
  IsOwned d = find d.claim_id evaluator_by_claim ≡ some d.evaluator_id

  normalize_request-IsOwned :
      (request : Fields) (d : Declaration) → normalize_request request ≡ ok d → IsOwned d
  unfolding normalize_request
  normalize_request-IsOwned request d h =
      let claim_id = text_value (value_at "claim_id" request) in
      let evaluator_id = text_value (value_at "evaluator_id" request) in
      let (_, h1) = ensure-then (is_empty (leaked_fields request)) _ _ h in
      let (_, h2) = ensure-then (is_empty (unknown_fields_of request)) _ _ h1 in
      let (_, h3) = ensure-then (request_complete request) _ _ h2 in
      let (owned, known, h4) =
        >>=-eq-ok (owned_evaluator claim_id (find claim_id evaluator_by_claim)) _ h3 in
      let (same, h5) = ensure-then (evaluator_id == owned) _ _ h4 in
      let (i, _, h6) = >>=-eq-ok (input_ref_of (value_at "input_ref" request)) _ h5 in
      let (ins, _, h7) =
        >>=-eq-ok
          (string_array "required_inputs"
            (from_default (lookup "required_inputs" request) (arr nil)))
          _ h6 in
      let (outs, _, h8) =
        >>=-eq-ok
          (string_array "expected_assertions"
            (from_default (lookup "expected_assertions" request) (arr nil)))
          _ h7 in
      subst IsOwned (ok-injective h8) (
        owned_evaluator-eq claim_id (find claim_id evaluator_by_claim) owned known
        ∙ ap some (sym ((eq_iff evaluator_id owned).0 same)))

  -- What a loop returns on keys seen: declarations with new and different keys and with owned
  -- evaluators, and results that are executed for some of them, with different keys as well.
  pub record IsBatch (seen : List Key) (ds : List Declaration) (rs : List RepositoryExecutionResult)
      : Type 0 where
    pub fresh : FreshKeys seen (map (declaration_key host repository) ds)
    pub owned : All IsOwned ds
    pub fresh_results : FreshKeys seen (map result_key rs)
    pub executed :
        All (λ r. (d : Declaration) × Memᴰ d ds × IsExecuted host repository transaction_id d r) rs

  abbrev Loop : Type 0
  Loop = List Declaration × List RepositoryExecutionResult

  IsBatch-step :
      (seen : List Key) (d : Declaration) (result : Option RepositoryExecutionResult) (more : Loop)
      → key_in (declaration_key host repository d) seen ≡ false
      → IsOwned d
      → execute_if_available host repository transaction_id d ≡ ok result
      → IsBatch (declaration_key host repository d ∷ seen) more.0 more.1
      → IsBatch seen (d ∷ more.0) (add_result host repository result more.1)
  IsBatch-step seen d none more fresh owned executed later = record {
    fresh = (fresh, later.fresh);
    owned = (owned, later.owned);
    fresh_results = FreshKeys-less (declaration_key host repository d) seen _ later.fresh_results;
    executed = All-map _ (λ r (e, m, x). (e, Memᴰ.tail m, x)) later.executed;
  }
  IsBatch-step seen d (some r) more fresh owned executed later =
      let this = execute_input-IsExecuted host repository transaction_id d r executed in
      let key : result_key r ≡ declaration_key host repository d =
        cc (this.same_claim, this.same_subject) in
      record {
        fresh = (fresh, later.fresh);
        owned = (owned, later.owned);
        fresh_results =
            subst (λ k. (key_in k seen ≡ false) × FreshKeys (k ∷ seen) (map result_key more.1))
              (sym key) (fresh, later.fresh_results);
        executed = (
          (d, Memᴰ.head refl, this),
          All-map _ (λ q (e, m, x). (e, Memᴰ.tail m, x)) later.executed,
        );
      }

  pub loop_IsBatch :
      (seen : List Key) (requests : List Json) (out : Loop)
      → execute_loop host repository transaction_id seen requests ≡ ok out
      → IsBatch seen out.0 out.1
  unfolding execute_loop
  loop_IsBatch seen [] out h =
      subst (λ (x : Loop). IsBatch seen x.0 x.1) (ok-injective h)
        (record { fresh = tt; owned = tt; fresh_results = tt; executed = tt })
  loop_IsBatch seen (raw ∷ rest) out h =
      let (request, _, h1) = >>=-eq-ok (request_fields host repository raw) _ h in
      let (d, normalized, h2) = >>=-eq-ok (normalize_request request) _ h1 in
      let (fresh, h3) =
        ensure-then (not (key_in (declaration_key host repository d) seen)) _ _ h2 in
      let (result, executed, h4) =
        >>=-eq-ok (execute_if_available host repository transaction_id d) _ h3 in
      let (more, looped, h5) =
        >>=-eq-ok
          (execute_loop host repository transaction_id (declaration_key host repository d ∷ seen)
            rest)
          _ h4 in
      let later = loop_IsBatch (declaration_key host repository d ∷ seen) rest more looped in
      subst (λ (x : Loop). IsBatch seen x.0 x.1) (ok-injective h5)
        (IsBatch-step seen d result more (not-true _ fresh)
          (normalize_request-IsOwned request d normalized) executed later)

length-execute_loop :
    (host : Host) (repository : Repository) (transaction_id : String) (seen : List Key)
    (requests : List Json) (out : List Declaration × List RepositoryExecutionResult)
    → execute_loop host repository transaction_id seen requests ≡ ok out
    → length out.0 ≡ length requests
unfolding execute_loop
length-execute_loop host repository transaction_id seen [] out h =
    sym
      (ap (λ (x : List Declaration × List RepositoryExecutionResult). length x.0) (ok-injective h))
length-execute_loop host repository transaction_id seen (raw ∷ rest) out h =
    let (request, _, h1) = >>=-eq-ok (request_fields host repository raw) _ h in
    let (d, _, h2) = >>=-eq-ok (normalize_request request) _ h1 in
    let (_, h3) = ensure-then (not (key_in (declaration_key host repository d) seen)) _ _ h2 in
    let (result, _, h4) = >>=-eq-ok (execute_if_available host repository transaction_id d) _ h3 in
    let (more, looped, h5) =
      >>=-eq-ok
        (execute_loop host repository transaction_id (declaration_key host repository d ∷ seen)
          rest)
        _ h4 in
    sym
      (ap (λ (x : List Declaration × List RepositoryExecutionResult). length x.0) (ok-injective h5))
    ∙ ap suc (
        length-execute_loop host repository transaction_id
          (declaration_key host repository d ∷ seen) rest more looped)

-- The batch of a transaction holds, up to order, one declaration for each request, no claim and
-- subject twice, each under the evaluator that the repository owns for its claim; and results, no
-- claim and subject twice, each of which comes from a run of that claim's runner on a file of the
-- repository that a declaration of the batch names, with the declaration's schema, claim, subject
-- and target there, and each of which succeeded, with the exit code 0, exactly if the file has
-- items and each of them has, as the file itself says, the layout, the state or the value that it
-- expects, or is a named node with a role that is not inoperable by keyboard.
pub execute_runtime_requests-IsBatch :
    (host : Host) (repository : Repository) (transaction_id : String) (requests : List Json)
    (batch : RuntimeExecutionBatch)
    → execute_runtime_requests host repository transaction_id requests ≡ ok batch
    → (found : List Declaration × List RepositoryExecutionResult) × Perm batch.declarations found.0
      × Perm batch.results found.1
      × (length found.0 ≡ length requests)
      × IsBatch host repository transaction_id [] found.0 found.1
unfolding execute_runtime_requests
execute_runtime_requests-IsBatch host repository transaction_id requests batch h =
    let (found, looped, h1) =
      >>=-eq-ok (execute_loop host repository transaction_id [] requests) _ h in
    (
      found,
      subst (λ (x : RuntimeExecutionBatch). Perm x.declarations found.0) (ok-injective h1)
          (sort_by-Perm (declaration_le host repository) found.0),
      subst (λ (x : RuntimeExecutionBatch). Perm x.results found.1) (ok-injective h1)
          (sort_by-Perm (result_le host repository) found.1),
      length-execute_loop host repository transaction_id [] requests found looped,
      loop_IsBatch host repository transaction_id [] requests found looped,
    )
