-- ===== src/Effects/DeriveLaws.antt =====
-- A draft has complete effects exactly when every proposed action is authorized.
use ev4_constructability_eng.Base.{
  ◌≡◌, refl, sym, ap, subst, ◌∙◌, ◌↔◌, ℕ, suc, true, none, List, [], ◌∷◌, append-eq-nil, is_empty,
  is_empty-eq, map,
}
use ev4_constructability_eng.Base.Python.{
  Exn, Py, ok, raise, ◌>>=◌, >>=-eq-ok, ok-injective, action_ir_validation_error,
}
use ev4_constructability_eng.Json.{
  Json, null, bool, int, real, str, arr, obj, Fields, list_or_empty, value_at,
}
use ev4_constructability_eng.Json.Host.{Host}
use ev4_constructability_eng.Actions.Laws.{normalize_action-IsNormal}
use ev4_constructability_eng.Actions.Normalize.{ActionIr, normalize_action}
use ev4_constructability_eng.Effects.Derive.{
  EffectInputs, derive_action_effects, effect_inputs, effect_record, effects_loop, invalid_record,
  named_diagnostics, record_of,
}
use ev4_constructability_eng.Effects.Records.{
  ActionEffects, action_invalid, Diagnostic, EffectRecord,
}
use ev4_constructability_eng.Effects.RecordLaws.{IsAuthorized, effect_record_iff}

map-nil {ℓ κ} : {A : Type ℓ} {B : Type κ} (f : A → B) (xs : List A) → (map f xs ≡ []) ↔ (xs ≡ [])
map-nil f [] = (λ h. refl, λ h. refl)
map-nil f (x ∷ xs) = (λ h. cc, λ h. cc)

module _ (host : Host) (inputs : EffectInputs) where
  -- The value normalizes at a place in the list, to an authorized action.
  abbrev pub Acceptable : ℕ → Json → Type 0
  Acceptable index action =
      (ir : ActionIr) × (normalize_action action index ≡ ok ir) × IsAuthorized host inputs ir

  abbrev pub AllAcceptable : ℕ → List Json → Type 0
  AllAcceptable index [] = Unit
  AllAcceptable index (a ∷ actions) = Acceptable index a × AllAcceptable (suc index) actions

  normalized_record_iff :
      (raw : Fields) (index : ℕ) (ir : ActionIr) (r : EffectRecord)
      → normalize_action (obj raw) index ≡ ok ir
      → effect_record host inputs ir ≡ ok r
      → (r.diagnostics ≡ []) ↔ Acceptable index (obj raw)
  normalized_record_iff raw index ir r normalized h =
      let normal = normalize_action-IsNormal raw index ir normalized in
      let known =
        effect_record_iff host inputs ir normal.contract r normal.in_table normal.class_effects
          normal.structure_effects h in
      (
        λ none_left. (ir, normalized, known.0 none_left),
        λ (other, is_other, authorized). known.1 (
            subst (IsAuthorized host inputs) (ok-injective (sym is_other ∙ normalized)) authorized),
      )

  record_of_iff :
      (raw : Fields) (index : ℕ) (m : Py ActionIr) (r : EffectRecord)
      → normalize_action (obj raw) index ≡ m
      → record_of host inputs raw index m ≡ ok r
      → (r.diagnostics ≡ []) ↔ Acceptable index (obj raw)
  unfolding record_of invalid_record
  record_of_iff raw index (ok ir) r normalized h = normalized_record_iff raw index ir r normalized h
  record_of_iff raw index (raise (action_ir_validation_error e)) r refused h =
      let same = ap (λ (x : EffectRecord). x.diagnostics) (ok-injective h) in
      (λ none_left. cc, λ (ir, normalized, _). cc)
  record_of_iff raw index (raise _) r refused h = cc

  named_diagnostics-nil :
      (r : EffectRecord) → (named_diagnostics host r ≡ []) ↔ (r.diagnostics ≡ [])
  named_diagnostics-nil r = map-nil _ r.diagnostics

  -- What is no object is reported, and does not normalize.
  refused_step :
      (index : ℕ) (a : Json) (rest : List Json) (found : List EffectRecord × List Diagnostic)
      (e : Exn)
      → normalize_action a index ≡ raise e
      → (effects_loop host inputs (suc index) rest >>= λ more.
          ok (more.0, record { finding = action_invalid; action = none } ∷ more.1))
        ≡ ok found
      → (found.1 ≡ []) ↔ AllAcceptable index (a ∷ rest)
  refused_step index a rest found e refused h =
      let (more, _, h1) = >>=-eq-ok (effects_loop host inputs (suc index) rest) _ h in
      let same = ap (λ (x : List EffectRecord × List Diagnostic). x.1) (ok-injective h1) in
      (λ none_left. cc, λ ((ir, normalized, _), _). cc)

  effects_loop_iff :
      (index : ℕ) (actions : List Json) (found : List EffectRecord × List Diagnostic)
      → effects_loop host inputs index actions ≡ ok found
      → (found.1 ≡ []) ↔ AllAcceptable index actions
  unfolding effects_loop normalize_action
  effects_loop_iff index [] found h =
      (λ e. tt, λ _. sym (ap (λ (x : List EffectRecord × List Diagnostic). x.1) (ok-injective h)))
  effects_loop_iff index (obj raw ∷ rest) found h =
      let (r, recorded, h1) =
        >>=-eq-ok (record_of host inputs raw index (normalize_action (obj raw) index)) _ h in
      let (more, looped, h2) = >>=-eq-ok (effects_loop host inputs (suc index) rest) _ h1 in
      let same = ap (λ (x : List EffectRecord × List Diagnostic). x.1) (ok-injective h2) in
      let this = record_of_iff raw index (normalize_action (obj raw) index) r refl recorded in
      let later = effects_loop_iff (suc index) rest more looped in
      let named = named_diagnostics-nil r in
      (
        λ none_left.
            let (a, b) = append-eq-nil (named_diagnostics host r) more.1 (same ∙ none_left) in
            (this.0 (named.0 a), later.0 b),
        λ (a, b). sym same ∙ (rw (named.1 (this.1 a), later.1 b)),
      )
  effects_loop_iff index (null ∷ rest) found h = refused_step index null rest found _ refl h
  effects_loop_iff index (bool b ∷ rest) found h = refused_step index (bool b) rest found _ refl h
  effects_loop_iff index (int n ∷ rest) found h = refused_step index (int n) rest found _ refl h
  effects_loop_iff index (real n k ∷ rest) found h =
      refused_step index (real n k) rest found _ refl h
  effects_loop_iff index (str t ∷ rest) found h = refused_step index (str t) rest found _ refl h
  effects_loop_iff index (arr vs ∷ rest) found h = refused_step index (arr vs) rest found _ refl h

-- The proposals of a draft, none if they are no list.
abbrev pub proposals : Fields → List Json
proposals review_draft = list_or_empty (value_at "builder_action_proposals" review_draft)

-- The effects that are derived from a draft are complete exactly when every proposed action, at
-- its place in the list, is an object that normalizes; is decided; is forbidden by no entry of the
-- forbidden work; introduces no class outside the approved set and removes or replaces none inside
-- it, or has that permitted by the Architect; and, if it changes the tree, targets a node of the
-- accepted tree, fits it and has the change permitted. The replacement of a class outside the
-- approved set by one inside it asks for no permission.
pub derive_action_effects_iff :
    (host : Host) (architect_intake source_bundle review_draft : Fields) (r : ActionEffects)
    → derive_action_effects host architect_intake source_bundle review_draft ≡ ok r
    → (inputs : EffectInputs) × (effect_inputs host architect_intake source_bundle review_draft
        ≡ ok inputs)
      × ((r.complete ≡ true) ↔ AllAcceptable host inputs 0 (proposals review_draft))
unfolding derive_action_effects
derive_action_effects_iff host architect_intake source_bundle review_draft r h =
    let (inputs, read, h1) =
      >>=-eq-ok (effect_inputs host architect_intake source_bundle review_draft) _ h in
    let (found, looped, h2) =
      >>=-eq-ok (effects_loop host inputs 0 (proposals review_draft)) _ h1 in
    let same = ap (λ (x : ActionEffects). x.complete) (ok-injective h2) in
    let known = effects_loop_iff host inputs 0 (proposals review_draft) found looped in
    (
      inputs,
      read,
      (
        λ e. known.0 (is_empty-eq found.1 (same ∙ e)),
        λ accepted. sym same ∙ ap is_empty (known.1 accepted),
      ),
    )
