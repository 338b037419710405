-- ===== src/Effects/ReportLaws.antt =====
-- When the four parts of a record's diagnostics are empty.
use ev4_constructability_eng.Base.{
  ◌≡◌, ◌≢◌, refl, sym, ap, ◌∙◌, ◌↔◌, ◌⊎◌, inl, inr, suc, String, Bool, true, false, ◌==◌, Option,
  none, some, List, [], ◌∷◌, All, append-eq-nil, eq_iff, is_empty, keep, Bool-cases, str_in, length,
  arith, eq_refl, ◌||◌,
}
use ev4_constructability_eng.Base.Sorting.{distinct, length-sort_texts, sort_texts, str_in-distinct}
use ev4_constructability_eng.Base.Python.{Py, ok, >>=-eq-ok, ok-injective}
use ev4_constructability_eng.Actions.Normalize.{ActionIr}
use ev4_constructability_eng.Effects.ClassEffect.{sorted_set}
use ev4_constructability_eng.Effects.BuildRecord.{
  class_reports, classes_changed, conflict_reports, conflicts_of, conflicts_with,
  forbidden_conflicts, hidden_reports, record_reports, structure_reports, tree_changed,
}
use ev4_constructability_eng.Effects.Derive.{if_any}
use ev4_constructability_eng.Effects.Records.{ClassEffect, StructureEffect}

-- No entry of the forbidden work conflicts with an action of a type with some changes.
abbrev pub NoConflict : String → Bool → Bool → List String → Type 0
NoConflict action_type classes tree work =
    All (λ w. conflicts_with action_type classes tree w ≡ false) work

distinct-nil : (ss : List String) → distinct ss ≡ [] → ss ≡ []
distinct-nil [] h = refl
distinct-nil (s ∷ ss) h = cc (ap (str_in s) h, str_in-distinct s (s ∷ ss), here)
  where
    here : (s == s || str_in s ss) ≡ true
    here = rw (eq_refl s)

length-nil {ℓ} : {A : Type ℓ} (xs : List A) → length xs ≡ 0 → xs ≡ []
length-nil [] h = refl
length-nil (x ∷ xs) h = elim (impossible h) [ ]
  where
    impossible : suc (length xs) ≢ 0
    impossible e = omega arith

pub sorted_set-nil : (ss : List String) → (sorted_set ss ≡ []) ↔ (ss ≡ [])
unfolding sort_texts distinct
sorted_set-nil ss = (
  λ h.
      distinct-nil ss
        (length-nil (distinct ss) (sym (length-sort_texts (distinct ss)) ∙ ap length h)),
  λ h. rw h,
)

pub keep-nil {ℓ} :
    {A : Type ℓ} (p : A → Bool) (xs : List A) → (keep p xs ≡ []) ↔ All (λ x. p x ≡ false) xs
keep-nil p [] = (λ h. tt, λ h. refl)
keep-nil p (x ∷ xs) = elim (Bool-cases (p x)) [
  | inl e ↦ (λ h. cc (rw e at h), λ (h, _). cc)
  | inr e ↦ (λ h. (e, (keep-nil p xs).0 (rw e at h)), λ (_, h). rw e ((keep-nil p xs).1 h))
]

conflict_reports-nil : (ws : List String) → (conflict_reports ws ≡ []) ↔ (ws ≡ [])
conflict_reports-nil [] = (λ h. refl, λ h. refl)
conflict_reports-nil (w ∷ ws) = (λ h. cc, λ h. cc)

conflicts-nil :
    (action_type : String) (classes tree : Bool) (work : List String)
    → (conflict_reports (forbidden_conflicts action_type classes tree work) ≡ [])
      ↔ NoConflict action_type classes tree work
unfolding forbidden_conflicts
conflicts-nil action_type classes tree work =
    let reported =
      conflict_reports-nil (sorted_set (keep (conflicts_with action_type classes tree) work)) in
    let sorted = sorted_set-nil (keep (conflicts_with action_type classes tree) work) in
    let kept = keep-nil (conflicts_with action_type classes tree) work in
    (λ h. kept.0 (sorted.0 (reported.0 h)), λ h. reported.1 (sorted.1 (kept.1 h)))

hidden-nil : (ir : ActionIr) → (hidden_reports ir ≡ []) ↔ (ir.decision_state ≡ "resolved")
hidden-nil ir = elim (Bool-cases (ir.decision_state == "resolved")) [
  | inl e ↦ (λ h. (eq_iff ir.decision_state "resolved").0 e, λ h. rw e)
  | inr e ↦ (λ h. cc (rw e at h), λ h. cc ((eq_iff ir.decision_state "resolved").1 h))
]

-- The record reports nothing exactly if none of its four parts does.
pub record_reports-nil :
    (ir : ActionIr) (classes : Option ClassEffect) (structure : Option StructureEffect)
    (work : List String)
    → (record_reports ir classes structure work ≡ []) ↔ (
        (ir.decision_state ≡ "resolved")
        × NoConflict ir.action_type (classes_changed classes) (tree_changed structure) work
        × (class_reports classes ≡ [])
        × (structure_reports structure ≡ []))
unfolding record_reports
record_reports-nil ir classes structure work =
    let hidden = hidden-nil ir in
    let conflicts =
      conflicts-nil ir.action_type (classes_changed classes) (tree_changed structure) work in
    (
      λ h.
          let (a, h1) = append-eq-nil (hidden_reports ir) _ h in
          let (b, h2) =
            append-eq-nil (conflict_reports (conflicts_of ir classes structure work)) _ h1 in
          let (c, d) = append-eq-nil (class_reports classes) _ h2 in
          (hidden.0 a, conflicts.0 b, c, d),
      λ (a, b, c, d). rw (hidden.1 a, conflicts.1 b, c, d),
    )

-- An effect is computed exactly when the contract names one.
pub if_any-cases {ℓ} :
    {A : Type ℓ} (es : List String) (m : Py A) (o : Option A)
    → if_any es m ≡ ok o
    → ((es ≡ []) × (o ≡ none)) ⊎ ((is_empty es ≡ false) × ((a : A) × (m ≡ ok a) × (o ≡ some a)))
if_any-cases [] m o h = inl (refl, sym (ok-injective h))
if_any-cases (e ∷ es) m o h =
    let (a, called, h1) = >>=-eq-ok m _ h in inr (refl, (a, called, sym (ok-injective h1)))
