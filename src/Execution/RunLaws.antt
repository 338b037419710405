-- ===== src/Execution/RunLaws.antt =====
-- When a run passes.
use ev4_constructability_eng.Base.{
  ◌≡◌, ◌≢◌, refl, sym, ap, ◌∙◌, ◌↔◌, ◌⊎◌, inl, inr, String, true, false, List, [], ◌∷◌, All, all,
  Bool-cases, is_empty, is_empty-eq,
}
use ev4_constructability_eng.Base.Python.{ok, >>=-eq-ok, ok-injective}
use ev4_constructability_eng.Json.{
  Json, Fields, arr, nil, list_or_empty, or_else, py_list, value_at,
}
use ev4_constructability_eng.Execution.Runners.{
  Evaluated, RunResult, Runner, add_item, evaluate_items, finish_run, run,
}

-- An item is well formed, and its verdict is that it passes.
abbrev pub Passes : Runner → Json → Type 0
Passes runner v = (fields : List (String × Json)) × (runner.item v ≡ inr (fields, true))

-- What is asked of a target: items, each of which passes.
abbrev pub AllPass : Runner → Fields → Type 0
AllPass runner target =
    (list_or_empty (value_at runner.items_key target) ≢ [])
    × All (Passes runner) (list_or_empty (value_at runner.items_key target))

-- The items are evaluated to a list whose verdicts are all true.
AllTrue : String ⊎ List Evaluated → Type 0
AllTrue (inl message) = ⊥
AllTrue (inr es) = all (λ e. e.1) es ≡ true

add_item_iff :
    (i : String ⊎ Evaluated) (rest : String ⊎ List Evaluated)
    → AllTrue (add_item i rest)
      ↔ (((fields : List (String × Json)) × (i ≡ inr (fields, true))) × AllTrue rest)
unfolding AllTrue
add_item_iff (inl m) rest = (λ h. elim h [ ], λ ((fs, e), _). cc)
add_item_iff (inr e) (inl m) = (λ h. elim h [ ], λ (_, h). h)
add_item_iff (inr (fs, true)) (inr es) = (λ h. ((fs, refl), h), λ (_, h). h)
add_item_iff (inr (fs, false)) (inr es) = (λ h. cc, λ ((gs, e), _). cc)

evaluate_items_iff :
    (runner : Runner) (vs : List Json)
    → AllTrue (evaluate_items runner.item vs) ↔ All (Passes runner) vs
unfolding evaluate_items AllTrue
evaluate_items_iff runner [] = (λ h. tt, λ h. refl)
evaluate_items_iff runner (v ∷ vs) =
    let here = add_item_iff (runner.item v) (evaluate_items runner.item vs) in
    let later = evaluate_items_iff runner vs in
    (λ h. let (a, b) = here.0 h in (a, later.0 b), λ (a, b). here.1 (a, later.1 b))

finish_run_iff :
    (key : String) (limitations : Json) (items : String ⊎ List Evaluated) (outcome : RunResult)
    → finish_run key limitations items ≡ ok outcome
    → (outcome.passed ≡ true) ↔ AllTrue items
unfolding AllTrue
finish_run_iff key limitations (inl m) outcome h =
    let same = ap (λ (x : RunResult). x.passed) (ok-injective h) in (λ e. cc, λ h. elim h [ ])
finish_run_iff key limitations (inr es) outcome h =
    let (limits, _, h1) = >>=-eq-ok (py_list (or_else limitations (arr nil))) _ h in
    let same = ap (λ (x : RunResult). x.passed) (ok-injective h1) in
    (λ e. same ∙ e, λ e. sym same ∙ e)

-- A run that returns has passed exactly when the target has items and each of them is well formed
-- and passes.
pub run_iff :
    (runner : Runner) (target : Fields) (outcome : RunResult)
    → run runner target ≡ ok outcome
    → (outcome.passed ≡ true) ↔ AllPass runner target
unfolding run
run_iff runner target outcome h =
    elim (Bool-cases (is_empty (list_or_empty (value_at runner.items_key target)))) [
      | inl e ↦
          let same = ap (λ (x : RunResult). x.passed) (ok-injective (rw e at h)) in
          (λ p. cc, λ (some_item, _). elim (some_item (is_empty-eq _ e)) [ ])
      | inr e ↦
          let known =
            finish_run_iff runner.items_key (value_at "limitations" target)
              (evaluate_items runner.item (list_or_empty (value_at runner.items_key target)))
              outcome (rw e at h) in
          let items =
            evaluate_items_iff runner (list_or_empty (value_at runner.items_key target)) in
          (
            λ p. (λ empty. cc (e, ap is_empty empty), items.0 (known.0 p)),
            λ (_, passing). known.1 (items.1 passing),
          )
    ]
