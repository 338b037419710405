-- ===== src/Obligations/NormalizeLaws.antt =====
-- What a normalized runtime obligation contains.
use ev4_constructability_eng.Base.{
  ◌≡◌, refl, ap, sym, subst, ◌∙◌, String, Bool, true, false, not, ◌==◌, some, List, [], arith,
  eq_iff, is_empty, str_in, if◌then◌else◌,
}
use ev4_constructability_eng.Base.Python.{ok, >>=-eq-ok, ensure-then, ok-injective}
use ev4_constructability_eng.Json.{
  Json, bool, str, obj, Fields, end, field, in_set, is_str, lookup, or_else, py_list, value_at,
}
use ev4_constructability_eng.Json.Build.{list_of}
use ev4_constructability_eng.Json.Host.{Host}
use ev4_constructability_eng.Json.Laws.{in_set-text, in_set-true, is_str-eq}
use ev4_constructability_eng.Registry.Claims.{is_post_builder_claim}
use ev4_constructability_eng.Actions.Canonical.{canonical, canonical_fields}
use ev4_constructability_eng.Actions.CanonicalLaws.{value_at-canonical_fields}
use ev4_constructability_eng.Obligations.Normalize.{
  closing_statuses, missing_fields, normalize_object, normalize_runtime_obligation,
  obligation_identity, set_field, statuses, with_derived,
}

lookup-set_field :
    (k j : String) (w : Json) (fs : Fields)
    → lookup k (set_field j w fs) ≡ (if j == k then some w else lookup k fs)
unfolding set_field
lookup-set_field k j w end = refl
lookup-set_field k j w (field i v fs) =
    ground (arith, lookup-set_field k j w fs, eq_iff j k, eq_iff i k, eq_iff i j)

value_at-set_field :
    (k j : String) (w : Json) (fs : Fields)
    → value_at k (set_field j w fs) ≡ (if j == k then w else value_at k fs)
value_at-set_field k j w fs = ground (arith, lookup-set_field k j w fs)

-- An obligation as the stage hands it on: its status is one of the four, it never blocks the
-- Builder handoff, and it blocks the final completion unless its status is closing.
pub record IsNormalized (o : Fields) : Type 0 where
  pub status : String
  pub reads_status : value_at "status" o ≡ str status
  pub known_status : str_in status statuses ≡ true
  pub handoff_open : value_at "blocks_builder_handoff" o ≡ bool false
  pub final_blocked :
      value_at "blocks_final_completion" o ≡ bool (not (str_in status closing_statuses))
  pub boundary : value_at "blocking_boundary" o ≡ str "final_project_gate"

module _ (host : Host) where
  open host use {py_str}

  module _ (value : Fields) (closed : Bool) (inputs assertions : List Json) where
    abbrev derived : Fields
    derived = with_derived host value closed inputs assertions

    kept :
        (k : String)
        → ("expected_assertions" == k) ≡ false
        → ("required_inputs" == k) ≡ false
        → ("blocks_final_completion" == k) ≡ false
        → ("blocks_builder_handoff" == k) ≡ false
        → value_at k derived ≡ value_at k value
    unfolding with_derived
    kept k a b c d = simp (value_at-set_field, a, b, c, d)

    final_at : value_at "blocks_final_completion" derived ≡ bool (not closed)
    unfolding with_derived
    final_at = simp value_at-set_field

    handoff_at : value_at "blocks_builder_handoff" derived ≡ bool false
    unfolding with_derived
    handoff_at = simp value_at-set_field

    derived-IsNormalized :
        (s : String)
        → value_at "status" value ≡ str s
        → str_in s statuses ≡ true
        → str_in s closing_statuses ≡ closed
        → value_at "blocking_boundary" value ≡ str "final_project_gate"
        → IsNormalized (canonical_fields derived)
    unfolding canonical
    derived-IsNormalized s reads known closing boundary = record {
      status = s;
      reads_status =
          value_at-canonical_fields "status" derived
          ∙ ap canonical (kept "status" refl refl refl refl ∙ reads);
      known_status = known;
      handoff_open = value_at-canonical_fields _ derived ∙ ap canonical handoff_at;
      final_blocked =
          value_at-canonical_fields _ derived
          ∙ ap canonical (final_at ∙ ap (λ b. bool (not b)) (sym closing));
      boundary =
          value_at-canonical_fields _ derived
          ∙ ap canonical (kept "blocking_boundary" refl refl refl refl ∙ boundary);
    }

  -- An obligation that is accepted belongs to a runtime claim, is normalized whatever the value
  -- says about what it blocks, and carries the identity that its own fields determine.
  pub normalize_runtime_obligation-IsNormalized :
      (value o : Fields)
      → normalize_runtime_obligation host (obj value) ≡ ok o
      → IsNormalized o
        × (is_post_builder_claim (py_str (value_at "claim_id" value)) ≡ true)
        × ((d : Fields) × (o ≡ canonical_fields d)
            × (value_at "obligation_id" d ≡ str (obligation_identity host d)))
  unfolding normalize_object
  normalize_runtime_obligation-IsNormalized value o h =
      let claim = py_str (value_at "claim_id" value) in
      let (_, h1) = ensure-then (is_empty (missing_fields value)) _ _ h in
      let (runtime, h2) = ensure-then (is_post_builder_claim claim) _ _ h1 in
      let (known, in_known, h3) = >>=-eq-ok (in_set statuses (value_at "status" value)) _ h2 in
      let (is_known, h4) = ensure-then known _ _ h3 in
      let (boundary, h5) =
        ensure-then (is_str "final_project_gate" (value_at "blocking_boundary" value)) _ _ h4 in
      let (closed, in_closed, h6) =
        >>=-eq-ok (in_set closing_statuses (value_at "status" value)) _ h5 in
      let (inputs, _, h7) =
        >>=-eq-ok (py_list (or_else (value_at "required_inputs" value) (list_of []))) _ h6 in
      let (assertions, _, h8) =
        >>=-eq-ok (py_list (or_else (value_at "expected_assertions" value) (list_of []))) _ h7 in
      let d = derived value closed inputs assertions in
      let (identity, h9) =
        ensure-then (is_str (obligation_identity host d) (value_at "obligation_id" d)) _ _ h8 in
      let (s, reads, known_status) =
        in_set-true statuses (value_at "status" value) (in_known ∙ ap ok is_known) in
      let same : canonical_fields d ≡ o = ok-injective h9 in
      (
        subst IsNormalized same (
            derived-IsNormalized value closed inputs assertions s reads known_status
              (in_set-text closing_statuses _ s closed reads in_closed)
              (is_str-eq "final_project_gate" _ boundary)),
        runtime,
        (d, sym same, is_str-eq (obligation_identity host d) _ identity),
      )
