-- ===== src/Lineage/SequenceLaws.antt =====
-- What a sequence without diagnostics preserves.
use mathlib.Core.List.{Memᴰ}
use ev4_constructability_eng.Base.{
  ◌≡◌, refl, sym, ap, ◌∙◌, inl, inr, String, true, not, some, List, [], ◌∷◌, All, Bool-cases,
  Option-cases, and_true, append-eq-nil, arith, eq_iff, keep, map,
}
use mathlib.Core.Option.{some-injective}
use ev4_constructability_eng.Base.Python.{ok, >>=-eq-ok, ok-injective}
use ev4_constructability_eng.Json.{Fields, dict_or_empty, is_obj, py_eq, value_at}
use ev4_constructability_eng.Json.Host.{Host}
use ev4_constructability_eng.Lineage.Entries.{
  Entry, LineageDiagnostic, lineage_entries, required_lineage_fields,
}
use ev4_constructability_eng.Lineage.Sequence.{
  container_diagnostics, entry_diagnostics, lineage_key, output_by_key, preservation_diagnostics,
  replaced_fields, same_key, validate_sequence,
}

-- An entry of the output with the key of an upstream entry and equal fields.
pub record IsPreserved (host : Host) (outputs : List Entry) (upstream : Fields) : Type 0 where
  pub kept : Entry
  pub in_output : Memᴰ kept outputs
  pub key : lineage_key host kept.1 ≡ lineage_key host upstream
  pub fields :
      All
        (λ name. py_eq (value_at name kept.1) (value_at name upstream) ≡ true)
        required_lineage_fields

pub record SequenceIsPreserved (host : Host) (document : Fields) : Type 0 where
  pub intakes : List Entry
  pub outputs : List Entry
  pub has_intake : is_obj (value_at "ce_intake" document) ≡ true
  pub has_output : is_obj (value_at "ce_output" document) ≡ true
  pub reads_intake :
      lineage_entries (dict_or_empty (value_at "ce_intake" document)) "$.ce_intake"
      ≡ ok (intakes, [])
  pub reads_output :
      lineage_entries (dict_or_empty (value_at "ce_output" document)) "$.ce_output"
      ≡ ok (outputs, [])
  pub preserved : All (λ e. IsPreserved host outputs e.1) intakes

kept_fields :
    (upstream downstream : Fields) (names : List String)
    → keep (λ name. not (py_eq (value_at name downstream) (value_at name upstream))) names ≡ []
    → All (λ name. py_eq (value_at name downstream) (value_at name upstream) ≡ true) names
kept_fields upstream downstream [] h = tt
kept_fields upstream downstream (name ∷ names) h =
    elim (Bool-cases (py_eq (value_at name downstream) (value_at name upstream))) [
      | inl e ↦ (e, kept_fields upstream downstream names (rw e at h))
      | inr e ↦ cc (rw e at h)
    ]

map-eq-nil : (f : String → LineageDiagnostic) (xs : List String) → map f xs ≡ [] → xs ≡ []
map-eq-nil f [] h = refl
map-eq-nil f (x ∷ xs) h = cc

module _ (host : Host) where
  same_key-eq : (a b : Fields) → same_key host a b ≡ true → lineage_key host a ≡ lineage_key host b
  same_key-eq a b h =
      let (family, card) = and_true _ _ h in
      let f = (eq_iff (lineage_key host a).0 (lineage_key host b).0).0 family in
      let c = (eq_iff (lineage_key host a).1 (lineage_key host b).1).0 card in rw (f, c)

  -- What is found in the output is one of its entries and has the key.
  found_in_output :
      (upstream : Fields) (outputs : List Entry) (e : Entry)
      → output_by_key host upstream outputs ≡ some e
      → Memᴰ e outputs × (lineage_key host e.1 ≡ lineage_key host upstream)
  unfolding output_by_key
  found_in_output upstream [] e h = cc
  found_in_output upstream (o ∷ os) e h = elim (Option-cases (output_by_key host upstream os)) [
    | inr (later, found) ↦
        let same : later ≡ e = some-injective _ _ (rw found at h) in
        let (inside, key) = found_in_output upstream os e (found ∙ ap some same) in
        (Memᴰ.tail inside, key)
    | inl nothing ↦ elim (Bool-cases (same_key host o.1 upstream)) [
      | inl k ↦
          let same : o ≡ e = some-injective _ _ (rw (nothing, k) at h) in
          (
            Memᴰ.head (sym same),
            ap (λ x. lineage_key host x.1) (sym same) ∙ same_key-eq o.1 upstream k,
          )
      | inr k ↦ cc (rw (nothing, k) at h)
    ]
  ]

  entry-IsPreserved :
      (e : Entry) (outputs : List Entry)
      → entry_diagnostics host e (output_by_key host e.1 outputs) ≡ []
      → IsPreserved host outputs e.1
  unfolding entry_diagnostics
  entry-IsPreserved (index, upstream) outputs h =
      elim (Option-cases (output_by_key host upstream outputs)) [
        | inl nothing ↦ cc (rw nothing at h)
        | inr ((i, down), found) ↦
            let (inside, key) = found_in_output upstream outputs (i, down) found in
            record {
              kept = (i, down);
              in_output = inside;
              key = key;
              fields =
                  kept_fields upstream down required_lineage_fields
                    (map-eq-nil _ (replaced_fields host upstream down) (rw found at h));
            }
      ]

  All-IsPreserved :
      (outputs es : List Entry)
      → preservation_diagnostics host outputs es ≡ []
      → All (λ e. IsPreserved host outputs e.1) es
  unfolding preservation_diagnostics
  All-IsPreserved outputs [] h = tt
  All-IsPreserved outputs (e ∷ es) h =
      let (here, later) = append-eq-nil _ (preservation_diagnostics host outputs es) h in
      (entry-IsPreserved e outputs here, All-IsPreserved outputs es later)

  -- When a sequence has no diagnostic, its intake and its output are objects whose lineages have
  -- no diagnostic of their own, and for every entry of the intake the output has an entry with the
  -- same family and card whose seven fields all equal the upstream ones.
  pub validate_sequence_sound :
      (document : Fields)
      → validate_sequence host document ≡ ok []
      → SequenceIsPreserved host document
  unfolding validate_sequence
  validate_sequence_sound document h =
      let (intake, reads_intake, h1) =
        >>=-eq-ok (lineage_entries (dict_or_empty (value_at "ce_intake" document)) "$.ce_intake") _
          h in
      let (output, reads_output, h2) =
        >>=-eq-ok (lineage_entries (dict_or_empty (value_at "ce_output" document)) "$.ce_output") _
          h1 in
      let (containers, h3) =
        append-eq-nil (container_diagnostics host document) _ (ok-injective h2) in
      let (intake_clean, h4) = append-eq-nil intake.1 _ h3 in
      let (output_clean, kept) = append-eq-nil output.1 _ h4 in
      record {
        intakes = intake.0;
        outputs = output.0;
        has_intake = ground arith;
        has_output = ground arith;
        reads_intake = reads_intake ∙ ap (λ d. ok (intake.0, d)) intake_clean;
        reads_output = reads_output ∙ ap (λ d. ok (output.0, d)) output_clean;
        preserved = All-IsPreserved output.0 intake.0 (rw (intake_clean, output_clean) at kept);
      }
