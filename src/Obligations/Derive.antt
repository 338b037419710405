-- ===== src/Obligations/Derive.antt =====
-- validator/runtime_obligations.py, `derive_runtime_obligations`.
use ev4_constructability_eng.Base.{
  String, Bool, false, not, ◌&&◌, ◌||◌, ◌==◌, List, [], ◌∷◌, if◌then◌else◌,
}
use ev4_constructability_eng.Base.Text.{str_le}
use ev4_constructability_eng.Base.Python.{
  Py, ok, raise, ◌>>=◌, ◌>>◌, ensure, binding_mismatch, duplicate_row, no_obligation,
  runtime_obligation_error,
}
use ev4_constructability_eng.Json.{Json, str, obj, Fields, is_str, or_else, value_at}
use ev4_constructability_eng.Json.Host.{Host}
use ev4_constructability_eng.Registry.Claims.{is_post_builder_claim}
use ev4_constructability_eng.Obligations.Normalize.{normalize_runtime_obligation}

-- A subject and a claim.
abbrev pub Key : Type 0
Key = String × String

abbrev pub key_in : Key → List Key → Bool
key_in k [] = false
key_in (s, c) ((t, d) ∷ ks) = (s == t && c == d) || key_in (s, c) ks

abbrev pub text_value : Json → String
text_value (str s) = s
text_value _ = ""

-- The sort key of an obligation, whose two fields are texts once the binding is checked.
abbrev pub key_of : Fields → Key
key_of o = (text_value (value_at "subject_ref" o), text_value (value_at "claim_id" o))

abbrev pub key_le : Key → Key → Bool
key_le (a, b) (c, d) = if a == c then str_le b d else str_le a c

unfoldable pub insert_obligation : Fields → List Fields → List Fields
insert_obligation o [] = o ∷ []
insert_obligation o (p ∷ ps) =
    if key_le (key_of o) (key_of p) then o ∷ p ∷ ps else p ∷ insert_obligation o ps

unfoldable pub sort_obligations : List Fields → List Fields
unfolding insert_obligation
sort_obligations [] = []
sort_obligations (o ∷ os) = insert_obligation o (sort_obligations os)

module _ (host : Host) where
  open host use {py_str}

  -- `str(row.get(key) or "")`
  abbrev pub row_text : String → Fields → String
  row_text key row = py_str (or_else (value_at key row) (str ""))

  abbrev pub row_key : Fields → Key
  row_key row = (row_text "subject_ref" row, row_text "claim_id" row)

  -- The obligation of a row whose claim is a runtime claim.
  unfoldable pub bound_obligation : Key → Json → Py Fields
  bound_obligation (subject, claim) (obj raw) = do
    obligation ← normalize_runtime_obligation host (obj raw)
    ensure
        (is_str subject (value_at "subject_ref" obligation)
          && is_str claim (value_at "claim_id" obligation))
        (runtime_obligation_error (binding_mismatch subject claim))
    ok obligation
  bound_obligation (subject, claim) _ =
      raise (runtime_obligation_error (no_obligation subject claim))

  -- The loop over the rows, with the keys seen so far; other rows are passed over.
  unfoldable pub derive_loop : List Key → List Json → Py (List Fields)
  derive_loop seen [] = ok []
  derive_loop seen (obj row ∷ rows) =
      let key = row_key row in
      let skipped = derive_loop seen rows in
      let taken : Py (List Fields) = (do
        ensure (not (key_in key seen)) (
            runtime_obligation_error
              (duplicate_row (row_text "subject_ref" row) (row_text "claim_id" row)))
        obligation ← bound_obligation key (value_at "downstream_obligation" row)
        more ← derive_loop (key ∷ seen) rows
        ok (obligation ∷ more)) in
      if is_post_builder_claim (row_text "claim_id" row) then taken else skipped
  derive_loop seen (_ ∷ rows) = derive_loop seen rows

  -- `derive_runtime_obligations`
  unfoldable pub derive_runtime_obligations : List Json → Py (List Fields)
  unfolding derive_loop
  derive_runtime_obligations rows = do
    obligations ← derive_loop [] rows
    ok (sort_obligations obligations)
