-- ===== src/Effects/Derive.antt =====
-- validator/action_effects.py, `derive_action_effects`.
use ev4_constructability_eng.Base.{
  ℕ, suc, String, ◌<>◌, Bool, true, false, Option, none, some, List, [], ◌∷◌, ◌++◌, is_empty, map,
  ◌==◌, if◌then◌else◌,
}
use ev4_constructability_eng.Base.Text.{show, str_le}
use ev4_constructability_eng.Base.Sorting.{sort_by}
use ev4_constructability_eng.Base.Python.{
  ActionIrError, Py, ok, raise, ◌>>=◌, action_ir_validation_error, key_error,
}
use ev4_constructability_eng.Json.{Json, str, obj, Fields, list_or_empty, or_else, value_at}
use ev4_constructability_eng.Json.Host.{Host}
use ev4_constructability_eng.Registry.Contract.{ActionContract}
use ev4_constructability_eng.Registry.Actions.{contract_for}
use ev4_constructability_eng.Actions.Normalize.{ActionIr, normalize_action}
use ev4_constructability_eng.Effects.ClassEffect.{class_effect}
use ev4_constructability_eng.Effects.Inputs.{
  NodeMap, approved_classes, list_or_default, reviewed_by_id, structure_nodes,
}
use ev4_constructability_eng.Effects.Records.{
  ActionEffects, Diagnostic, EffectRecord, action_invalid, code_of, parameters_invalid,
}
use ev4_constructability_eng.Effects.StructureEffect.{structure_effect}
use ev4_constructability_eng.Effects.BuildRecord.{build_record}

-- The inputs that the loop over the actions reads.
pub record EffectInputs : Type 0 where
  pub architect_intake : Fields
  pub source_bundle : Fields
  pub tree : NodeMap
  pub approved : List String
  pub reviewed : NodeMap
  pub forbidden_work : List String

-- `ACTION_CONTRACTS[action_type]`
abbrev pub contract_at : Option ActionContract → Py ActionContract
contract_at none = raise key_error
contract_at (some contract) = ok contract

-- An effect that the contract names is computed.
abbrev pub if_any {ℓ} : {A : Type ℓ} → List String → Py A → Py (Option A)
if_any [] m = ok none
if_any (e ∷ es) m = m >>= λ a. ok (some a)

module _ (host : Host) where
  open host use {py_str}

  -- The record of an action that normalizes.
  unfoldable pub effect_record : EffectInputs → ActionIr → Py EffectRecord
  effect_record inputs ir = do
    contract ← contract_at (contract_for ir.action_type)
    classes ←
        if_any contract.derived_class_effects
          (class_effect host ir inputs.approved inputs.architect_intake inputs.source_bundle)
    structure ←
        if_any contract.derived_structure_effects
          (structure_effect host ir inputs.tree inputs.architect_intake inputs.source_bundle)
    ok (build_record inputs.reviewed ir classes structure inputs.forbidden_work)

  abbrev pub fallback_text : String → String → Fields → String
  fallback_text key default raw = py_str (or_else (value_at key raw) (str default))

  -- The record of an object that does not normalize.
  unfoldable pub invalid_record : Fields → ℕ → ActionIrError → EffectRecord
  invalid_record raw index message = record {
    action_id = fallback_text "action_id" ("action-" <> show (suc index)) raw;
    action_type = fallback_text "action_type" "unknown" raw;
    target_node = fallback_text "target_node" "unknown" raw;
    action_ir = none;
    draft_disclosure = none;
    class_effect = none;
    structure_effect = none;
    forbidden_work_conflicts = [];
    diagnostics = parameters_invalid message ∷ [];
    changes_class_assignment = false;
    changes_approved_class_set = false;
    changes_structure = false;
    preserves_approved_class_set = false;
    preserves_build_tree = false;
    blocked = true;
  }

  -- The `try` around `normalize_action`: only `ActionIRValidationError` is caught.
  unfoldable pub record_of : EffectInputs → Fields → ℕ → Py ActionIr → Py EffectRecord
  record_of inputs raw index (ok ir) = effect_record inputs ir
  record_of inputs raw index (raise (action_ir_validation_error e)) =
      ok (invalid_record raw index e)
  record_of inputs raw index (raise e) = raise e

  -- The diagnostics of a record, with the action they are about.
  abbrev pub named_diagnostics : EffectRecord → List Diagnostic
  named_diagnostics r =
      map (λ d. record { finding = d; action = some (r.action_id, r.action_type, r.target_node) })
        r.diagnostics

  -- The loop over the actions: the records and the diagnostics, in the order of the actions.
  unfoldable pub effects_loop :
      EffectInputs → ℕ → List Json → Py (List EffectRecord × List Diagnostic)
  effects_loop inputs index [] = ok ([], [])
  effects_loop inputs index (obj raw ∷ rest) = do
    r ← record_of inputs raw index (normalize_action (obj raw) index)
    more ← effects_loop inputs (suc index) rest
    ok (r ∷ more.0, named_diagnostics r ++ more.1)
  effects_loop inputs index (_ ∷ rest) = do
    more ← effects_loop inputs (suc index) rest
    ok (more.0, record { finding = action_invalid; action = none } ∷ more.1)

  -- `str(item.get("action_id"))`
  abbrev pub diagnostic_id : Diagnostic → String
  diagnostic_id d = elim d.action [ none ↦ "None" | some a ↦ a.0 ]

  abbrev pub diagnostic_le : Diagnostic → Diagnostic → Bool
  diagnostic_le c d =
      if diagnostic_id c == diagnostic_id d
      then str_le (code_of c.finding) (code_of d.finding)
      else str_le (diagnostic_id c) (diagnostic_id d)

  abbrev pub record_le : EffectRecord → EffectRecord → Bool
  record_le q r = str_le q.action_id r.action_id

  -- The first five lines of `derive_action_effects`.
  unfoldable pub effect_inputs : Fields → Fields → Fields → Py EffectInputs
  effect_inputs architect_intake source_bundle review_draft = do
    tree ← structure_nodes source_bundle
    approved ← approved_classes architect_intake
    reviewed ← reviewed_by_id review_draft
    work ← list_or_default (value_at "forbidden_work" architect_intake)
    ok (record {
      architect_intake = architect_intake;
      source_bundle = source_bundle;
      tree = tree;
      approved = approved;
      reviewed = reviewed;
      forbidden_work = map py_str work;
    })

  -- `derive_action_effects`
  unfoldable pub derive_action_effects : Fields → Fields → Fields → Py ActionEffects
  derive_action_effects architect_intake source_bundle review_draft = do
    inputs ← effect_inputs architect_intake source_bundle review_draft
    found ← effects_loop inputs 0 (list_or_empty (value_at "builder_action_proposals" review_draft))
    ok (record {
      records = sort_by record_le found.0;
      diagnostics = sort_by diagnostic_le found.1;
      complete = is_empty found.1;
    })
