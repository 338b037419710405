-- ===== src/Rules/Gate.antt =====
-- The gate as a whole: what a document with status executable_ready contains when
-- `evaluate_document` reports nothing.
use ev4_constructability_eng.Base.{
  ◌≡◌, refl, ap, sym, subst, ◌∙◌, inl, inr, String, true, false, Option, none, some, List, [], ◌∷◌,
  All, append-eq-nil, arith, Bool-cases,
}
use ev4_constructability_eng.Base.Int.{ℤ, pos, negsuc}
use ev4_constructability_eng.Base.Python.{ok, >>=-eq-ok, ok-injective}
use ev4_constructability_eng.Json.{
  Json, null, bool, int, real, str, arr, obj, Fields, as_dict, dict_or_empty, get, has_key, is_null,
  is_obj, is_str, list_or_empty, truthy, value_at,
}
use ev4_constructability_eng.Json.Laws.{get-value_at}
use ev4_constructability_eng.Rules.Document.{
  blocking_dependencies, builder_decisions_required, builder_package, nodes, review, status,
  strategy_map, supported_schema,
}
use ev4_constructability_eng.Rules.Contracts.{first_batch_contract}
use ev4_constructability_eng.Rules.Nodes.{flag}
use ev4_constructability_eng.Rules.Evaluate.{
  confirmation_violations, evaluate_document, is_zero_count, executable_violations, lock_violations,
  readiness_violations, reviewed_violations,
}
use ev4_constructability_eng.Rules.Parts.{IsClean, evaluate_document-IsClean}
use ev4_constructability_eng.Rules.NodeLaws.{NodeIsReady, nodes_violations_sound}
use ev4_constructability_eng.Rules.PackageLaws.{
  ActionIsDecided, MatchesArchitect, actions_violations_iff, architect_contract_sound,
  confirmation_sound, lock_sound, schema_contract_sound, StrategyIsSettled,
  strategy_map_contract_sound,
}
use ev4_constructability_eng.Rules.ModeLaws.{QaIsHonest, qa_violations_sound}

pub record HasPackage (pkg : Json) : Type 0 where
  pub emitted : Fields
  pub is_dict : pkg ≡ obj emitted
  pub confirmation : is_obj (value_at "confirmation_request" emitted) ≡ true
  pub confirmation_keys :
      All
        (λ key. has_key key (dict_or_empty (value_at "confirmation_request" emitted)) ≡ true)
        ("confirmation_id" ∷ "confirmed_action_ids" ∷ "expected_user_token" ∷ [])
  pub batch : truthy (value_at "first_safe_builder_batch" emitted) ≡ true
  pub locked : flag "selected_candidate_locked" emitted ≡ true
  pub candidate_unchanged : flag "selected_candidate_id_unchanged" emitted ≡ true
  pub classes_unchanged : flag "approved_class_names_unchanged" emitted ≡ true

pub record IsBuilderReady (doc : Json) : Type 0 where
  pub r : Json
  pub pkg : Json
  pub reads_review : review doc ≡ ok r
  pub reads_package : builder_package doc ≡ ok pkg
  pub no_decisions : builder_decisions_required doc ≡ ok (some (pos 0))
  pub no_dependencies : blocking_dependencies doc ≡ ok []
  pub reviewed : List Json
  pub reads_nodes : nodes doc ≡ ok reviewed
  pub nodes_ready : All NodeIsReady reviewed
  pub has_package : HasPackage pkg
  pub schema : get "schema" pkg ≡ ok (str supported_schema)
  pub architect : MatchesArchitect pkg r
  pub batch_decided : All ActionIsDecided (
      list_or_empty (
        value_at "actions"
          (dict_or_empty (value_at "first_safe_builder_batch" (dict_or_empty pkg)))))
  pub strategies_settled :
      (smap : Json)
      → strategy_map doc ≡ ok smap
      → is_null smap ≡ false
      → All StrategyIsSettled (list_or_empty (value_at "strategies" (dict_or_empty smap)))
  pub qa_honest : All QaIsHonest (doc ∷ r ∷ pkg ∷ [])

-- The violations R01 and R02, over what was read.
decisions_zero : (n : Option ℤ) → is_zero_count n ≡ true → n ≡ some (pos 0)
decisions_zero (some (pos m)) h = ground arith
decisions_zero (some (negsuc m)) h = cc
decisions_zero none h = cc

readiness_sound :
    (doc : Json)
    → readiness_violations doc true ≡ ok []
    → (builder_decisions_required doc ≡ ok (some (pos 0))) × (blocking_dependencies doc ≡ ok [])
unfolding readiness_violations
readiness_sound doc h =
    let (n, reads_n, h1) = >>=-eq-ok (builder_decisions_required doc) _ h in
    let (deps, reads_deps, h2) = >>=-eq-ok (blocking_dependencies doc) _ h1 in
    let clean = ok-injective h2 in
    (reads_n ∙ ap ok (decisions_zero n (ground arith)), reads_deps ∙ ap ok (ground arith))

-- An absent or empty package has no confirmation, which is reported.
executable_sound :
    (pkg r : Json) → executable_violations pkg r true ≡ ok [] → truthy pkg ≡ true → HasPackage pkg
unfolding executable_violations
executable_sound (obj emitted) r h present =
    let clean =
      append-eq-nil (confirmation_violations emitted) (lock_violations emitted)
        (ok-injective (rw present at h)) in
    let c = confirmation_sound emitted clean.0 in
    let l = lock_sound emitted clean.1 in
    record {
      emitted = emitted;
      is_dict = refl;
      confirmation = c.0;
      confirmation_keys = (c.2, (c.3, (c.4, tt)));
      batch = c.1;
      locked = l.0;
      candidate_unchanged = l.1;
      classes_unchanged = l.2;
    }
executable_sound null r h present = cc
executable_sound (bool b) r h present = cc (rw present at h)
executable_sound (int n) r h present = cc (rw present at h)
executable_sound (real n k) r h present = cc (rw present at h)
executable_sound (str s) r h present = cc (rw present at h)
executable_sound (arr vs) r h present = cc (rw present at h)

executable_present : (pkg r : Json) → executable_violations pkg r true ≡ ok [] → truthy pkg ≡ true
unfolding executable_violations confirmation_violations
executable_present pkg r h = elim (Bool-cases (truthy pkg)) [
  | inl e ↦ e
  | inr e ↦ let (source, _, h1) = >>=-eq-ok (as_dict r) _ (rw e at h) in cc (ok-injective h1)
]

not_null : (pkg : Json) → truthy pkg ≡ true → is_null pkg ≡ false
not_null pkg h = ground arith

batch_sound :
    (doc pkg : Json)
    → builder_package doc ≡ ok pkg
    → truthy pkg ≡ true
    → first_batch_contract doc true ≡ ok []
    → All ActionIsDecided (
        list_or_empty (
          value_at "actions"
            (dict_or_empty (value_at "first_safe_builder_batch" (dict_or_empty pkg)))))
unfolding first_batch_contract
batch_sound doc pkg reads present h =
    let (batch, reads_batch, h1) =
      >>=-eq-ok (get "first_safe_builder_batch" pkg) _ (rw (reads, present) at h) in
    rw (get-value_at "first_safe_builder_batch" pkg batch reads_batch)
      ((actions_violations_iff 0 _).0 (ok-injective h1))

module _ (doc : Json) (mode : String) (s : Json) (reads_status : status doc ≡ ok s)
    (executable : is_str "executable_ready" s ≡ true) where
  ready_of_IsClean : IsClean doc mode s → IsBuilderReady doc
  unfolding reviewed_violations
  ready_of_IsClean c =
      let silent = rw executable at c.silent in
      let present = executable_present c.pkg c.r silent.1.1.1.1.1.1.1.0 in
      let (no_decisions, no_dependencies) = readiness_sound doc silent.1.1.1.1.1.0 in
      let (reviewed, reads_nodes, nodes_silent) = >>=-eq-ok (nodes doc) _ silent.1.1.1.1.1.1.0 in
      record {
        r = c.r;
        pkg = c.pkg;
        reads_review = c.reads_review;
        reads_package = c.reads_package;
        no_decisions = no_decisions;
        no_dependencies = no_dependencies;
        reviewed = reviewed;
        reads_nodes = reads_nodes;
        nodes_ready = nodes_violations_sound 0 reviewed nodes_silent;
        has_package = executable_sound c.pkg c.r silent.1.1.1.1.1.1.1.0 present;
        schema =
            schema_contract_sound doc c.pkg c.reads_package (not_null c.pkg present) silent.1.0;
        architect =
            architect_contract_sound doc c.pkg c.reads_package (not_null c.pkg present) c.r
              c.reads_review silent.1.1.0;
        batch_decided = batch_sound doc c.pkg c.reads_package present silent.1.1.1.1.0;
        strategies_settled =
            λ smap reads there. strategy_map_contract_sound doc smap silent.1.1.1.0 reads there;
        qa_honest = rw present at (qa_violations_sound _ silent.1.1.1.1.1.1.1.1.0);
      }

  -- When `evaluate_document` reports nothing, in whatever mode, on a document whose status (the
  -- package's, or else the review's) is executable_ready, then there is a package that is an
  -- object of the supported schema with a confirmation and its three keys, a first batch that is
  -- not empty and the three locks; the package's candidate and the
  -- review's equal the Architect's, and the package's classes pass the comparison with the
  -- Architect's; no Builder
  -- decision and no blocking dependency is left; every reviewed node is ready; every action of
  -- the first batch that is an object is decided; the strategies of a map, where there is one, are
  -- settled; and no QA status claims production readiness without its evidence and matrix.
  pub evaluate_document_sound : evaluate_document doc mode ≡ ok [] → IsBuilderReady doc
  evaluate_document_sound h =
      let (s', reads, clean) = evaluate_document-IsClean doc mode h in
      let same : s' ≡ s = ok-injective (sym reads ∙ reads_status) in
      ready_of_IsClean (subst (IsClean doc mode) same clean)
