-- ===== src/Receipts/SurfaceLaws.antt =====
-- What an honest surface is, and that its own rendered receipt is honest.
use ev4_constructability_eng.Base.{◌≡◌, refl, sym, ◌∙◌, ◌↔◌, String, true, false, [], arith}
use ev4_constructability_eng.Base.Text.{contains, strip}
use ev4_constructability_eng.Json.{Json, obj, Fields, field, is_null, value_at}
use ev4_constructability_eng.Receipts.Trace.{has_complete_machine_trace}
use ev4_constructability_eng.Receipts.Surface.{
  is_success_receipt, is_warning_receipt, join_spaces, receipt_status, receipt_text,
  render_ce_kernel_decision_receipt, surface_claims_ce_pass, validate_receipt_surface,
}

-- Without a complete trace a surface claims no pass, and its receipt, if there is one, warns and
-- is not green.
pub record IsHonest (surface : Fields) : Type 0 where
  pub no_pass :
      has_complete_machine_trace (obj surface) ≡ false → surface_claims_ce_pass surface ≡ false
  pub warns :
      has_complete_machine_trace (obj surface) ≡ false
      → is_null (value_at "kernel_decision_receipt" surface) ≡ false
      → is_warning_receipt (value_at "kernel_decision_receipt" surface) ≡ true
  pub not_green :
      has_complete_machine_trace (obj surface) ≡ false
      → is_null (value_at "kernel_decision_receipt" surface) ≡ false
      → is_success_receipt (value_at "kernel_decision_receipt" surface) ≡ false

-- A surface has no diagnostic exactly when it has a complete trace, or it claims no pass and its
-- receipt, if there is one, warns and is not green.
pub validate_receipt_surface_iff :
    (surface : Fields) (path : String)
    → (validate_receipt_surface (obj surface) path ≡ []) ↔ IsHonest surface
unfolding validate_receipt_surface
validate_receipt_surface_iff surface path = (λ h. ground arith, λ honest. ground arith)

-- The surface with the receipt that is rendered for it.
abbrev pub with_receipt : Fields → Fields
with_receipt surface =
    field "kernel_decision_receipt" (render_ce_kernel_decision_receipt (obj surface)) surface

complete_with_receipt :
    (surface : Fields)
    → has_complete_machine_trace (obj (with_receipt surface))
      ≡ has_complete_machine_trace (obj surface)
unfolding has_complete_machine_trace
complete_with_receipt surface = refl

pass_with_receipt :
    (surface : Fields)
    → surface_claims_ce_pass (with_receipt surface) ≡ surface_claims_ce_pass surface
unfolding surface_claims_ce_pass
pass_with_receipt surface = refl

rendered_warns :
    (surface : Json)
    → has_complete_machine_trace surface ≡ false
    → (is_warning_receipt (render_ce_kernel_decision_receipt surface) ≡ true)
      × (is_success_receipt (render_ce_kernel_decision_receipt surface) ≡ false)
unfolding render_ce_kernel_decision_receipt is_warning_receipt is_success_receipt receipt_status
    receipt_text join_spaces contains strip
rendered_warns surface h = rw h (refl, refl)

-- With the receipt that is rendered for it, a surface is honest exactly when it has a complete trace
-- or claims no pass.
pub rendered-IsHonest :
    (surface : Fields)
    → IsHonest (with_receipt surface)
      ↔ (has_complete_machine_trace (obj surface) ≡ false → surface_claims_ce_pass surface ≡ false)
rendered-IsHonest surface = (
  λ honest e. sym (pass_with_receipt surface) ∙ honest.no_pass (complete_with_receipt surface ∙ e),
  λ no_pass. record {
    no_pass = λ e. pass_with_receipt surface ∙ no_pass (sym (complete_with_receipt surface) ∙ e);
    warns = λ e _. (rendered_warns (obj surface) (sym (complete_with_receipt surface) ∙ e)).0;
    not_green = λ e _. (rendered_warns (obj surface) (sym (complete_with_receipt surface) ∙ e)).1;
  },
)
