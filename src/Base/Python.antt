-- ===== src/Base/Python.antt =====
-- Results of Python code: a value, or an exception that leaves the function.
use mathlib.Core.Path.{◌≡◌, refl}
use mathlib.Core.Bool.{Bool, true, false}
use Prim.Native.String.{String}
use mathlib.Core.List.{List}

-- `ActionIRValidationError`, a constructor for each message, with what the message names.
pub data ActionIrError : Type 0 where
  not_strings not_string_or_array : String → ActionIrError
  replacement_not_object replacement_incomplete : ActionIrError
  not_nonempty_object empty_value : String → ActionIrError
  ambiguous_alias : (alias key : String) → ActionIrError
  effect_parameter unknown_parameter : (key action_type : String) → ActionIrError
  conflicting_aliases : String → ActionIrError
  missing_parameters : (action_type : String) → List String → ActionIrError
  no_class_change conflicting_replacements : ActionIrError
  not_an_object : ActionIrError
  unknown_fields : List String → ActionIrError
  identity_incomplete : ActionIrError
  unknown_action_type : String → ActionIrError
  parameters_not_object : ActionIrError
  duplicate_action : String → ActionIrError
  no_actions proposals_not_array : ActionIrError

-- `RuntimeObligationError`, in the same way; `wrong_claim` is a claim that is no runtime claim.
pub data RuntimeObligationError : Type 0 where
  incomplete : List String → RuntimeObligationError
  wrong_claim : String → RuntimeObligationError
  not_mapping invalid_status wrong_boundary not_deterministic : RuntimeObligationError
  duplicate_row no_obligation binding_mismatch : (subject claim : String) → RuntimeObligationError

-- `RuntimeExecutionBoundaryError`, in the same way; `not_strict_json` is an error of the parser.
pub data BoundaryError : Type 0 where
  request_not_object request_identity_incomplete input_ref_invalid : BoundaryError
  completed_result_fields unknown_request_fields target_mismatch : List String → BoundaryError
  unsupported_claim not_string_array not_strict_json : String → BoundaryError
  foreign_evaluator duplicate_request : String → String → BoundaryError
  target_not_object : BoundaryError

-- The built-in exceptions that a badly typed document causes, and the validators' own.
pub data Exn : Type 0 where
  attribute_error type_error key_error : Exn
  value_error : String → Exn
  action_ir_validation_error : ActionIrError → Exn
  runtime_obligation_error : RuntimeObligationError → Exn
  action_effect_error obligation_derivation_error : String → Exn
  runtime_execution_boundary_error : BoundaryError → Exn

pub data Py {ℓ} (A : Type ℓ) : Type ℓ where
  ok : A → Py A
  raise : Exn → Py A

-- `if not b: raise e`
abbrev pub ensure : Bool → Exn → Py (Unit {0})
ensure b e = elim b [ false ↦ raise e | true ↦ ok tt ]

-- An exception leaves what follows undone.
infixl 5 ◌>>=◌
abbrev pub ◌>>=◌ {ℓ κ} : {X : Type ℓ} {Y : Type κ} → Py X → (X → Py Y) → Py Y
raise e >>= rest = raise e
ok x >>= rest = rest x

infixl 5 ◌>>◌
abbrev pub ◌>>◌ {ℓ} : {Y : Type ℓ} → Py (Unit {0}) → Py Y → Py Y
check >> rest = check >>= λ _. rest

-- What a call followed by the rest returns, the rest returned on the value of the call.
module _ {ℓ κ} {X : Type ℓ} {Y : Type κ} where
  pub >>=-eq-ok :
      (call : Py X) (rest : X → Py Y) {y : Y}
      → (call >>= rest) ≡ ok y
      → (x : X) × (call ≡ ok x) × (rest x ≡ ok y)
  >>=-eq-ok (raise e) rest returned = cc
  >>=-eq-ok (ok x) rest returned = (x, refl, returned)

pub ensure-eq-ok : (b : Bool) (e : Exn) → ensure b e ≡ ok tt → b ≡ true
ensure-eq-ok true e h = refl
ensure-eq-ok false e h = cc

pub ok-injective {ℓ} : {A : Type ℓ} {a b : A} → ok a ≡ ok b → a ≡ b
ok-injective h = cc

-- Inversion of a check that is passed.
pub ensure-then {ℓ} :
    {B : Type ℓ} (b : Bool) (e : Exn) (m : Py B) {r : B}
    → (ensure b e >> m) ≡ ok r
    → (b ≡ true) × (m ≡ ok r)
ensure-then true e m h = (refl, h)
ensure-then false e m h = cc
