-- ===== src/Receipts/TraceLaws.antt =====
-- When a trace misses nothing.
use ev4_constructability_eng.Base.{
  ◌≡◌, refl, sym, ap, ◌∙◌, ◌↔◌, inl, inr, String, Bool, true, false, not, ◌&&◌, ◌||◌, List, [], ◌∷◌,
  ◌++◌, All, All-map, Bool-cases, Option-cases, arith, eq_iff, keep, str_in, ◌==◌,
}
use ev4_constructability_eng.Json.{Json, null, obj, Fields, has_key, is_arr, lookup, value_at}
use ev4_constructability_eng.Receipts.Trace.{
  collected_missing, is_nonempty_string, missing_machine_trace_fields, only_if, refs_valid,
  required_trace_fields, state_valid, text_trace_fields,
}

str_in-append :
    (s : String) (xs ys : List String) → str_in s (xs ++ ys) ≡ (str_in s xs || str_in s ys)
str_in-append s [] ys = refl
str_in-append s (x ∷ xs) ys = ground (arith, str_in-append s xs ys)

str_in-keep :
    (s : String) (p : String → Bool) (xs : List String)
    → str_in s (keep p xs) ≡ (str_in s xs && p s)
str_in-keep s p [] = refl
str_in-keep s p (x ∷ xs) = elim (Bool-cases (s == x)) [
  | inl e ↦
      let same : p s ≡ p x = ap p ((eq_iff s x).0 e) in
      elim (Bool-cases (p x)) [
        | inl h ↦ rw (h, e, same, h) refl
        | inr h ↦ let rest = str_in-keep s p xs in ground arith
      ]
  | inr e ↦ elim (Bool-cases (p x)) [
    | inl h ↦ rw (h, e) (str_in-keep s p xs)
    | inr h ↦ rw (h, e) (str_in-keep s p xs)
  ]
]

keep-eq-nil : (p : String → Bool) (xs : List String) → (keep p xs ≡ []) ↔ All (λ x. p x ≡ false) xs
keep-eq-nil p [] = (λ h. tt, λ h. refl)
keep-eq-nil p (x ∷ xs) =
    let (to, from) = keep-eq-nil p xs in
    elim (Bool-cases (p x)) [
      | inl e ↦ (λ h. cc (rw e at h), λ (here, later). cc)
      | inr e ↦ (λ h. (e, to (rw e at h)), λ (here, later). rw e (from later))
    ]

-- What each field of a complete trace holds.
pub record IsCompleteTrace (trace : Fields) : Type 0 where
  pub decision_family : is_nonempty_string (value_at "decision_family" trace) ≡ true
  pub decision_card_ref : is_nonempty_string (value_at "decision_card_ref" trace) ≡ true
  pub selected_option : is_nonempty_string (value_at "selected_option" trace) ≡ true
  pub consumer_stage : is_nonempty_string (value_at "consumer_stage" trace) ≡ true
  pub rejected_options : is_arr (value_at "rejected_options" trace) ≡ true
  pub evidence_refs : refs_valid (value_at "evidence_refs" trace) ≡ true
  pub evidence_state : state_valid (value_at "evidence_state" trace) ≡ true

-- A test that a missing field fails needs the field.
needs_key :
    (test : Json → Bool) (key : String) (trace : Fields)
    → test null ≡ false
    → test (value_at key trace) ≡ true
    → has_key key trace ≡ true
needs_key test key trace absent h = elim (Option-cases (lookup key trace)) [
  | inl e ↦ cc (sym absent ∙ rw e at h)
  | inr (v, e) ↦ rw e
]

-- Whether a field is collected, without the lists.
abbrev fails : String → Fields → Bool
fails name trace =
    (str_in name required_trace_fields && not (has_key name trace))
    || ((str_in name text_trace_fields
          && (has_key name trace && not (is_nonempty_string (value_at name trace))))
        || ((name == "rejected_options"
              && (has_key "rejected_options" trace
                  && not (is_arr (value_at "rejected_options" trace))))
            || ((name == "evidence_refs"
                  && (has_key "evidence_refs" trace
                      && not (refs_valid (value_at "evidence_refs" trace))))
                || (name == "evidence_state"
                    && (has_key "evidence_state" trace
                        && not (state_valid (value_at "evidence_state" trace)))))))

str_in-only_if :
    (name other : String) (b : Bool) → str_in name (only_if b other) ≡ (name == other && b)
str_in-only_if name other b = ground arith

collected-fails :
    (name : String) (trace : Fields) → str_in name (collected_missing trace) ≡ fails name trace
unfolding collected_missing
collected-fails name trace = simp (str_in-append, str_in-keep, str_in-only_if)

-- A field that fails no test is there and passes its own.
passes : (has good : Bool) → (not has || ((has && not good) || false)) ≡ false → good ≡ true
passes true true h = refl
passes true false h = cc
passes false good h = cc

last_passes : (has good : Bool) → (not has || (has && not good)) ≡ false → good ≡ true
last_passes true true h = refl
last_passes true false h = cc
last_passes false good h = cc

complete_sound :
    (trace : Fields)
    → All (λ name. fails name trace ≡ false) required_trace_fields
    → IsCompleteTrace trace
complete_sound trace (family, (card, (selected, (rejected, (refs, (state, (stage, _))))))) =
    record {
      decision_family = passes _ _ family;
      decision_card_ref = passes _ _ card;
      selected_option = passes _ _ selected;
      consumer_stage = passes _ _ stage;
      rejected_options = passes _ _ rejected;
      evidence_refs = passes _ _ refs;
      evidence_state = last_passes _ _ state;
    }

complete_complete :
    (trace : Fields)
    → IsCompleteTrace trace
    → All (λ name. fails name trace ≡ false) required_trace_fields
unfolding is_nonempty_string
complete_complete trace c =
    let family = needs_key is_nonempty_string "decision_family" trace refl c.decision_family in
    let card = needs_key is_nonempty_string "decision_card_ref" trace refl c.decision_card_ref in
    let selected = needs_key is_nonempty_string "selected_option" trace refl c.selected_option in
    let stage = needs_key is_nonempty_string "consumer_stage" trace refl c.consumer_stage in
    let rejected = needs_key is_arr "rejected_options" trace refl c.rejected_options in
    let refs = needs_key refs_valid "evidence_refs" trace refl c.evidence_refs in
    let state = needs_key state_valid "evidence_state" trace refl c.evidence_state in
    (
      rw (family, c.decision_family) refl,
      (
        rw (card, c.decision_card_ref) refl,
        (
          rw (selected, c.selected_option) refl,
          (
            rw (rejected, c.rejected_options) refl,
            (
              rw (refs, c.evidence_refs) refl,
              (rw (state, c.evidence_state) refl, (rw (stage, c.consumer_stage) refl, tt)),
            ),
          ),
        ),
      ),
    )

-- A trace misses nothing exactly when its family, card, option and consumer stage are texts that
-- are not blank, the rejected options are a list, the evidence references are a nonempty list of
-- texts that are not blank, and the evidence state is one of the valid ones.
pub missing_machine_trace_fields_iff :
    (trace : Fields) → (missing_machine_trace_fields (obj trace) ≡ []) ↔ IsCompleteTrace trace
unfolding missing_machine_trace_fields
missing_machine_trace_fields_iff trace =
    let Collected : String → Type 0 = (λ name. str_in name (collected_missing trace) ≡ false) in
    let Failing : String → Type 0 = (λ name. fails name trace ≡ false) in
    let (to, from) =
      keep-eq-nil (λ name. str_in name (collected_missing trace)) required_trace_fields in
    (
      λ h. complete_sound trace (
          All-map {P = Collected} {Q = Failing} required_trace_fields
            (λ name e. sym (collected-fails name trace) ∙ e) (to h)),
      λ c. from (
          All-map {P = Failing} {Q = Collected} required_trace_fields
            (λ name e. collected-fails name trace ∙ e) (complete_complete trace c)),
    )
