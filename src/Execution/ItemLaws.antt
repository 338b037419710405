-- ===== src/Execution/ItemLaws.antt =====
-- The runner of each claim passes a target exactly when it has what the claim asks.
use mathlib.Core.Option.{some-injective}
use ev4_constructability_eng.Base.{
  ◌≡◌, ◌≢◌, refl, sym, ap, subst, ◌∙◌, ◌↔◌, ◌⊎◌, inl, inr, String, Bool, true, false, not, ◌==◌,
  some, List, All-map, Bool-cases, eq_iff, if◌then◌else◌, with_iff, not_iff, not-true,
}
use ev4_constructability_eng.Json.{
  Json, null, bool, int, real, str, arr, obj, Fields, from_default, is_null, is_text, is_true,
  list_or_empty, lookup, value_at,
}
use ev4_constructability_eng.Effects.Permits.{str-injective}
use ev4_constructability_eng.Registry.Contract.{find}
use ev4_constructability_eng.Execution.Asked.{
  AgreesOn, AllItems, IsAccessible, IsDict, IsLaidOut, TargetPasses,
}
use ev4_constructability_eng.Execution.Runners.{
  Evaluated, Runner, accessibility_item, compared_item, interaction_item, is_string, qa_item,
  responsive_item, runner_by_claim, responsive_runner, interaction_runner, accessibility_runner,
  qa_runner,
}
use ev4_constructability_eng.Execution.RunLaws.{AllPass, Passes}

-- Whether an item is well formed and passes.
abbrev verdict : String ⊎ Evaluated → Bool
verdict (inl message) = false
verdict (inr e) = e.1

Passes-iff : (runner : Runner) (v : Json) → Passes runner v ↔ (verdict (runner.item v) ≡ true)
Passes-iff runner v = cases_iff (runner.item v)
  where
    cases_iff :
        (i : String ⊎ Evaluated)
        → ((fields : List (String × Json)) × (i ≡ inr (fields, true))) ↔ (verdict i ≡ true)
    cases_iff (inl m) = (λ (fields, e). ap verdict e, λ h. cc)
    cases_iff (inr (fields, true)) = (λ _. refl, λ _. (fields, refl))
    cases_iff (inr (fields, false)) = (λ (gs, e). ap verdict e, λ h. cc)

-- A verdict that waits for a test.
verdict_iff :
    (b q : Bool) (fields : List (String × Json)) (message : String)
    → (verdict (if b then inr (fields, q) else inl message) ≡ true) ↔ ((b ≡ true) × (q ≡ true))
verdict_iff true q fields message = (λ h. (refl, h), λ (_, h). h)
verdict_iff false q fields message = (λ h. cc, λ (h, _). cc)

is_string_iff : (v : Json) → (is_string v ≡ true) ↔ ((s : String) × (v ≡ str s))
is_string_iff (str s) = (λ h. (s, refl), λ h. refl)
is_string_iff null = (λ h. cc, λ (s, e). cc)
is_string_iff (bool b) = (λ h. cc, λ (s, e). cc)
is_string_iff (int n) = (λ h. cc, λ (s, e). cc)
is_string_iff (real n k) = (λ h. cc, λ (s, e). cc)
is_string_iff (arr vs) = (λ h. cc, λ (s, e). cc)
is_string_iff (obj fs) = (λ h. cc, λ (s, e). cc)

is_text_iff : (v : Json) → (is_text v ≡ true) ↔ ((s : String) × (v ≡ str s) × (s ≢ ""))
is_text_iff (str s) =
    let nonempty = not_iff (s == "") (eq_iff s "") in
    (
      λ h. (s, refl, nonempty.0 (not-true (s == "") h)),
      λ (u, e, filled). ap not (nonempty.1 (λ none. filled (str-injective (sym e) ∙ none))),
    )
is_text_iff null = (λ h. cc, λ (s, e, _). cc)
is_text_iff (bool b) = (λ h. cc, λ (s, e, _). cc)
is_text_iff (int n) = (λ h. cc, λ (s, e, _). cc)
is_text_iff (real n k) = (λ h. cc, λ (s, e, _). cc)
is_text_iff (arr vs) = (λ h. cc, λ (s, e, _). cc)
is_text_iff (obj fs) = (λ h. cc, λ (s, e, _). cc)

not_null_iff : (v : Json) → (not (is_null v) ≡ true) ↔ (v ≢ null)
not_null_iff null = (λ h. cc, λ given. elim (given refl) [ ])
not_null_iff (str s) = (λ h e. cc, λ given. refl)
not_null_iff (bool b) = (λ h e. cc, λ given. refl)
not_null_iff (int n) = (λ h e. cc, λ given. refl)
not_null_iff (real n k) = (λ h e. cc, λ given. refl)
not_null_iff (arr vs) = (λ h e. cc, λ given. refl)
not_null_iff (obj fs) = (λ h e. cc, λ given. refl)

is_true_iff : (v : Json) → (is_true v ≡ true) ↔ (v ≡ bool true)
is_true_iff (bool true) = (λ h. refl, λ e. refl)
is_true_iff (bool false) = (λ h. cc, λ e. ap is_true e)
is_true_iff null = (λ h. cc, λ e. cc)
is_true_iff (str s) = (λ h. cc, λ e. cc)
is_true_iff (int n) = (λ h. cc, λ e. cc)
is_true_iff (real n k) = (λ h. cc, λ e. cc)
is_true_iff (arr vs) = (λ h. cc, λ e. cc)
is_true_iff (obj fs) = (λ h. cc, λ e. cc)

iff_trans : {P Q X : Type 0} → (P ↔ Q) → (Q ↔ X) → (P ↔ X)
iff_trans first second = (λ p. second.0 (first.0 p), λ x. first.1 (second.1 x))

-- An item that is no dict does not pass, and a dict passes as its fields do.
IsDict-iff :
    {asked : Fields → Type 0} (item : Json → String ⊎ Evaluated)
    → ((fs : Fields) → (verdict (item (obj fs)) ≡ true) ↔ asked fs)
    → ((v : Json) → verdict (item v) ≡ true → (fs : Fields) × (v ≡ obj fs))
    → (v : Json) → (verdict (item v) ≡ true) ↔ IsDict asked v
IsDict-iff item on_fields only_dicts v = (
  λ h.
      let (fs, e) = only_dicts v h in
      (fs, e, (on_fields fs).0 (sym (ap (λ w. verdict (item w)) e) ∙ h)),
  λ (fs, e, holds). ap (λ w. verdict (item w)) e ∙ (on_fields fs).1 holds,
)

responsive_fields_iff : (fs : Fields) → (verdict (responsive_item (obj fs)) ≡ true) ↔ IsLaidOut fs
unfolding responsive_item
responsive_fields_iff fs =
    let expected = not_null_iff (value_at "expected_layout" fs) in
    let observed = not_null_iff (value_at "observed_layout" fs) in
    let complete =
      with_iff _ _ (is_string_iff (value_at "viewport" fs)) (with_iff _ _ expected observed) in
    let ready = verdict_iff _ _ _ _ in
    (
      λ h. let (b, q) = ready.0 h in let (n, given) = complete.0 b in (n, given, q),
      λ (n, given, q). ready.1 (complete.1 (n, given), q),
    )

compared_fields_iff :
    (id_key expected_key observed_key message : String) (fs : Fields)
    → (verdict (compared_item id_key expected_key observed_key message fs) ≡ true)
      ↔ AgreesOn id_key expected_key observed_key fs
compared_fields_iff id_key expected_key observed_key message fs =
    let named = is_string_iff (value_at id_key fs) in
    let ready = verdict_iff _ _ _ _ in
    (λ h. let (b, q) = ready.0 h in (named.0 b, q), λ (n, q). ready.1 (named.1 n, q))

accessibility_fields_iff :
    (fs : Fields) → (verdict (accessibility_item (obj fs)) ≡ true) ↔ IsAccessible fs
unfolding accessibility_item
accessibility_fields_iff fs =
    with_iff _ _
      (with_iff _ _ (is_text_iff (value_at "node_id" fs)) (
        with_iff _ _ (is_text_iff (value_at "role" fs))
          (is_text_iff (value_at "accessible_name" fs))))
      (is_true_iff (from_default (lookup "keyboard_operable" fs) (bool true)))

responsive_iff : (v : Json) → (verdict (responsive_item v) ≡ true) ↔ IsDict IsLaidOut v
unfolding responsive_item
responsive_iff = IsDict-iff responsive_item responsive_fields_iff only_dicts
  where
    only_dicts : (v : Json) → verdict (responsive_item v) ≡ true → (fs : Fields) × (v ≡ obj fs)
    only_dicts (obj fs) h = (fs, refl)
    only_dicts _ h = cc

interaction_iff :
    (v : Json)
    → (verdict (interaction_item v) ≡ true)
      ↔ IsDict (AgreesOn "transition_id" "expected_state" "observed_state") v
unfolding interaction_item
interaction_iff =
    IsDict-iff interaction_item
      (compared_fields_iff "transition_id" "expected_state" "observed_state" _) only_dicts
  where
    only_dicts : (v : Json) → verdict (interaction_item v) ≡ true → (fs : Fields) × (v ≡ obj fs)
    only_dicts (obj fs) h = (fs, refl)
    only_dicts _ h = cc

qa_iff :
    (v : Json)
    → (verdict (qa_item v) ≡ true) ↔ IsDict (AgreesOn "assertion_id" "expected" "observed") v
unfolding qa_item
qa_iff = IsDict-iff qa_item (compared_fields_iff "assertion_id" "expected" "observed" _) only_dicts
  where
    only_dicts : (v : Json) → verdict (qa_item v) ≡ true → (fs : Fields) × (v ≡ obj fs)
    only_dicts (obj fs) h = (fs, refl)
    only_dicts _ h = cc

accessibility_iff : (v : Json) → (verdict (accessibility_item v) ≡ true) ↔ IsDict IsAccessible v
unfolding accessibility_item
accessibility_iff = IsDict-iff accessibility_item accessibility_fields_iff only_dicts
  where
    only_dicts : (v : Json) → verdict (accessibility_item v) ≡ true → (fs : Fields) × (v ≡ obj fs)
    only_dicts (obj fs) h = (fs, refl)
    only_dicts _ h = cc

-- A runner passes a target exactly when its items are as asked.
runner_iff :
    {asked : Fields → Type 0} (runner : Runner) (target : Fields)
    → ((v : Json) → (verdict (runner.item v) ≡ true) ↔ IsDict asked v)
    → AllPass runner target ↔ AllItems runner.items_key asked target
runner_iff runner target on_item =
    let items = list_or_empty (value_at runner.items_key target) in
    let one = λ (v : Json). iff_trans (Passes-iff runner v) (on_item v) in
    (
      λ (given, passing). (given, All-map items (λ v. (one v).0) passing),
      λ (given, holding). (given, All-map items (λ v. (one v).1) holding),
    )

-- The runner of a claim passes a target exactly when the target has what is asked for the claim.
pub AllPass-iff :
    (claim_id : String) (runner : Runner) (target : Fields)
    → find claim_id runner_by_claim ≡ some runner
    → AllPass runner target ↔ TargetPasses claim_id target
AllPass-iff claim_id runner target known = elim (Bool-cases ("responsive_behavior" == claim_id)) [
  | inl e ↦ rw e (via (rw e at known) (runner_iff responsive_runner target responsive_iff))
  | inr e ↦ rw e (elim (Bool-cases ("interaction_validation" == claim_id)) [
    | inl f ↦ rw f (via (rw (e, f) at known) (runner_iff interaction_runner target interaction_iff))
    | inr f ↦ rw f (elim (Bool-cases ("accessibility" == claim_id)) [
      | inl g ↦
          rw g
            (via (rw (e, f, g) at known) (runner_iff accessibility_runner target accessibility_iff))
      | inr g ↦ rw g (elim (Bool-cases ("QA" == claim_id)) [
        | inl k ↦ rw k (via (rw (e, f, g, k) at known) (runner_iff qa_runner target qa_iff))
        | inr k ↦ cc (rw (e, f, g, k) at known)
      ])
    ])
  ])
]
  where
    via :
        {P : Type 0} {r : Runner}
        → some r ≡ some runner
        → AllPass r target ↔ P
        → AllPass runner target ↔ P
    via {P = P} same known_iff =
        subst (λ q. AllPass q target ↔ P) (some-injective _ _ same) known_iff
