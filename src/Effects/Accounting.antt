-- ===== src/Effects/Accounting.antt =====
-- The records of a draft: one for each proposed object, under the identity that the object has.
use mathlib.Core.List.{Perm}
use ev4_constructability_eng.Base.{
  ◌≡◌, refl, sym, ap, subst, ◌∙◌, ℕ, suc, String, ◌<>◌, true, not, List, [], ◌∷◌, All, and_true,
  is_empty, map,
}
use ev4_constructability_eng.Base.Text.{show}
use ev4_constructability_eng.Base.Sorting.{sort_by-Perm}
use ev4_constructability_eng.Base.Python.{
  Py, ok, raise, ◌>>=◌, >>=-eq-ok, ensure-then, ok-injective, action_ir_validation_error,
}
use ev4_constructability_eng.Json.{Json, null, str, obj, Fields, is_text, or_else, value_at}
use ev4_constructability_eng.Json.Host.{Host}
use ev4_constructability_eng.Registry.Actions.{contract_for}
use ev4_constructability_eng.Actions.Laws.{given}
use ev4_constructability_eng.Actions.Normalize.{
  ActionIr, build_ir, identity_complete, known_contract, normalize_action, normalize_known,
  parameters_object, text_value, unknown_top,
}
use ev4_constructability_eng.Actions.Parameters.{normalized_parameters}
use ev4_constructability_eng.Effects.BuildRecord.{build_record}
use ev4_constructability_eng.Effects.Derive.{
  EffectInputs, contract_at, derive_action_effects, effect_inputs, effect_record, effects_loop,
  fallback_text, if_any, invalid_record, record_le, record_of,
}
use ev4_constructability_eng.Effects.ClassEffect.{class_effect}
use ev4_constructability_eng.Effects.DeriveLaws.{proposals}
use ev4_constructability_eng.Effects.Records.{ActionEffects, Diagnostic, EffectRecord}
use ev4_constructability_eng.Effects.StructureEffect.{structure_effect}

-- The identity that a proposed object has, or gets by its place.
abbrev pub id_at : Host → ℕ → Fields → String
id_at host index raw = fallback_text host "action_id" ("action-" <> show (suc index)) raw

abbrev pub action_ids : Host → ℕ → List Json → List String
action_ids host index [] = []
action_ids host index (obj raw ∷ rest) = id_at host index raw ∷ action_ids host (suc index) rest
action_ids host index (_ ∷ rest) = action_ids host (suc index) rest

-- A record is blocked exactly when it has a diagnostic.
abbrev pub IsFlagged : EffectRecord → Type 0
IsFlagged r = r.blocked ≡ not (is_empty r.diagnostics)

text_lem : (host : Host) (v d : Json) → is_text v ≡ true → host.py_str (or_else v d) ≡ text_value v
text_lem host (str s) d h = rw h (host.py_str-text s)
text_lem host _ d h = cc

-- A normalized action keeps the identity that it is proposed with.
normalize_action-id :
    (host : Host) (raw : Fields) (index : ℕ) (ir : ActionIr)
    → normalize_action (obj raw) index ≡ ok ir
    → ir.action_id ≡ id_at host index raw
unfolding normalize_action normalize_known build_ir
normalize_action-id host raw index ir h =
    let (_, h1) = ensure-then (is_empty (unknown_top raw)) _ _ h in
    let (complete, h2) = ensure-then (identity_complete raw) _ (normalize_known raw index) h1 in
    let (has_id, _) = and_true (is_text (value_at "action_id" raw)) _ complete in
    let action_type = text_value (value_at "action_type" raw) in
    let (contract, _, h3) =
      >>=-eq-ok (known_contract action_type (contract_for action_type)) _ h2 in
    let (fs, _, h4) = >>=-eq-ok (parameters_object (given raw)) _ h3 in
    let (parameters, _, h5) = >>=-eq-ok (normalized_parameters action_type contract fs) _ h4 in
    ap (λ (x : ActionIr). x.action_id) (sym (ok-injective h5))
    ∙ sym (text_lem host (value_at "action_id" raw) _ has_id)

module _ (host : Host) (inputs : EffectInputs) where
  effect_record-id :
      (ir : ActionIr) (r : EffectRecord)
      → effect_record host inputs ir ≡ ok r
      → (r.action_id ≡ ir.action_id) × IsFlagged r
  unfolding effect_record build_record
  effect_record-id ir r h =
      let (c, _, h1) = >>=-eq-ok (contract_at (contract_for ir.action_type)) _ h in
      let (classes, _, h2) =
        >>=-eq-ok
          (if_any c.derived_class_effects
            (class_effect host ir inputs.approved inputs.architect_intake inputs.source_bundle))
          _ h1 in
      let (structure, _, h3) =
        >>=-eq-ok
          (if_any c.derived_structure_effects
            (structure_effect host ir inputs.tree inputs.architect_intake inputs.source_bundle))
          _ h2 in
      subst (λ (x : EffectRecord). (x.action_id ≡ ir.action_id) × IsFlagged x) (ok-injective h3)
        (refl, refl)

  record_of-id :
      (raw : Fields) (index : ℕ) (m : Py ActionIr) (r : EffectRecord)
      → normalize_action (obj raw) index ≡ m
      → record_of host inputs raw index m ≡ ok r
      → (r.action_id ≡ id_at host index raw) × IsFlagged r
  unfolding record_of invalid_record
  record_of-id raw index (ok ir) r normalized h =
      let (id, flagged) = effect_record-id ir r h in
      (id ∙ normalize_action-id host raw index ir normalized, flagged)
  record_of-id raw index (raise (action_ir_validation_error e)) r refused h =
      subst (λ (x : EffectRecord). (x.action_id ≡ id_at host index raw) × IsFlagged x)
        (ok-injective h) (refl, refl)
  record_of-id raw index (raise _) r refused h = cc

  abbrev Accounted : ℕ → List Json → List EffectRecord → Type 0
  Accounted index actions rs =
      (map (λ (r : EffectRecord). r.action_id) rs ≡ action_ids host index actions)
      × All IsFlagged rs

  skipped_step :
      (index : ℕ) (rest : List Json) (found : List EffectRecord × List Diagnostic) (d : Diagnostic)
      → (effects_loop host inputs (suc index) rest >>= λ more. ok (more.0, d ∷ more.1)) ≡ ok found
      → ((more : _)
          → effects_loop host inputs (suc index) rest ≡ ok more
          → Accounted (suc index) rest more.0)
      → Accounted (suc index) rest found.0
  skipped_step index rest found d h later =
      let (more, looped, h1) = >>=-eq-ok (effects_loop host inputs (suc index) rest) _ h in
      subst (λ (x : List EffectRecord × List Diagnostic). Accounted (suc index) rest x.0)
        (ok-injective h1) (later more looped)

  loop_Accounted :
      (index : ℕ) (actions : List Json) (found : List EffectRecord × List Diagnostic)
      → effects_loop host inputs index actions ≡ ok found
      → Accounted index actions found.0
  unfolding effects_loop
  loop_Accounted index [] found h =
      subst (λ (x : List EffectRecord × List Diagnostic). Accounted index [] x.0) (ok-injective h)
        (refl, tt)
  loop_Accounted index (obj raw ∷ rest) found h =
      let (r, recorded, h1) =
        >>=-eq-ok (record_of host inputs raw index (normalize_action (obj raw) index)) _ h in
      let (more, looped, h2) = >>=-eq-ok (effects_loop host inputs (suc index) rest) _ h1 in
      let (id, flagged) = record_of-id raw index _ r refl recorded in
      let (ids, all_flagged) = loop_Accounted (suc index) rest more looped in
      subst (λ (x : List EffectRecord × List Diagnostic). Accounted index (obj raw ∷ rest) x.0)
        (ok-injective h2) (cc, (flagged, all_flagged))
  loop_Accounted index (null ∷ rest) found h =
      skipped_step index rest found _ h (loop_Accounted (suc index) rest)
  loop_Accounted index (_ ∷ rest) found h =
      skipped_step index rest found _ h (loop_Accounted (suc index) rest)

-- The records that are derived from a draft are, up to their order, one for each proposed object,
-- under the identity that the object has or gets by its place in the list, whether it normalizes
-- or not; each is blocked exactly when it has a diagnostic.
pub derive_action_effects-IsFlagged :
    (host : Host) (architect_intake source_bundle review_draft : Fields) (r : ActionEffects)
    → derive_action_effects host architect_intake source_bundle review_draft ≡ ok r
    → (found : List EffectRecord) × Perm r.records found
      × (map (λ (q : EffectRecord). q.action_id) found ≡ action_ids host 0 (proposals review_draft))
      × All IsFlagged found
unfolding derive_action_effects
derive_action_effects-IsFlagged host architect_intake source_bundle review_draft r h =
    let (inputs, _, h1) =
      >>=-eq-ok (effect_inputs host architect_intake source_bundle review_draft) _ h in
    let (found, looped, h2) =
      >>=-eq-ok (effects_loop host inputs 0 (proposals review_draft)) _ h1 in
    let (ids, flagged) = loop_Accounted host inputs 0 (proposals review_draft) found looped in
    (
      found.0,
      subst (λ (x : ActionEffects). Perm x.records found.0) (ok-injective h2)
          (sort_by-Perm (record_le host) found.0),
      ids,
      flagged,
    )
