-- ===== src/Review/UnitLaws.antt =====
-- What the unit of a node contains, and when its diagnostics do not block.
use ev4_constructability_eng.Base.{
  ◌≡◌, refl, sym, ◌∙◌, ◌↔◌, ◌⊎◌, inl, inr, String, Bool, true, false, ◌||◌, Option, none, some,
  List, [], ◌∷◌, ◌++◌, All, any, is_empty, or_false, arith,
}
use ev4_constructability_eng.Registry.Claims.{derive_action_claims}
use ev4_constructability_eng.Effects.ClassEffect.{outside}
use ev4_constructability_eng.Effects.Records.{EffectRecord}
use ev4_constructability_eng.Review.Inputs.{ReviewAction}
use ev4_constructability_eng.Review.Derive.{is_blocking}
use ev4_constructability_eng.Review.Unit.{
  ReviewDiagnostic, coverage_reports, explicit_no_claim, omitted_reports, unit_reports,
  unknown_report, unknown_types,
}

-- No diagnostic of a list blocks.
abbrev pub NoneBlocks : List ReviewDiagnostic → Type 0
NoneBlocks ds = any is_blocking ds ≡ false

any-append {ℓ} :
    {A : Type ℓ} (p : A → Bool) (xs ys : List A) → any p (xs ++ ys) ≡ (any p xs || any p ys)
any-append p [] ys = refl
any-append p (x ∷ xs) ys = ground (arith, any-append p xs ys)

pub NoneBlocks-append :
    (ds es : List ReviewDiagnostic) → NoneBlocks (ds ++ es) ↔ (NoneBlocks ds × NoneBlocks es)
NoneBlocks-append ds es =
    let same = any-append is_blocking ds es in
    (
      λ h. or_false (any is_blocking ds) (any is_blocking es) (sym same ∙ h),
      λ (a, b). same ∙ (rw (a, b)),
    )

-- A type of actions is in the closed vocabulary.
abbrev pub IsKnownType : String → Type 0
IsKnownType t = (claims : List String) × (derive_action_claims t ≡ some claims)

-- A report for which the type is asked for blocks.
report-blocks :
    (node_id t : String) (claims : Option (List String))
    → NoneBlocks (unknown_report node_id t claims) ↔ ((cs : List String) × (claims ≡ some cs))
unfolding is_blocking
report-blocks node_id t none = (λ h. cc, λ (cs, h). cc)
report-blocks node_id t (some cs) = (λ h. (cs, refl), λ h. refl)

unknown_types_iff :
    (node_id : String) (actions : List ReviewAction)
    → NoneBlocks (unknown_types node_id actions)
      ↔ All (λ (a : ReviewAction). IsKnownType a.action_type) actions
unknown_types_iff node_id [] = (λ h. tt, λ h. refl)
unknown_types_iff node_id (a ∷ actions) =
    let both =
      NoneBlocks-append (unknown_report node_id a.action_type (derive_action_claims a.action_type))
        (unknown_types node_id actions) in
    let here = report-blocks node_id a.action_type (derive_action_claims a.action_type) in
    let later = unknown_types_iff node_id actions in
    (λ h. let (x, y) = both.0 h in (here.0 x, later.0 y), λ (x, y). both.1 (here.1 x, later.1 y))

coverage_reports_iff :
    (node_id : String) (no_actions no_claims shown : Bool)
    → NoneBlocks (coverage_reports node_id no_actions no_claims shown)
      ↔ ((no_actions ≡ false) × ((no_claims ≡ false) ⊎ (shown ≡ true)))
unfolding is_blocking
coverage_reports_iff node_id true c s = (λ h. cc, λ (h, _). cc)
coverage_reports_iff node_id false false s = (λ h. (refl, inl refl), λ h. refl)
coverage_reports_iff node_id false true true = (λ h. (refl, inr refl), λ h. refl)
coverage_reports_iff node_id false true false =
    (λ h. cc, λ (_, h). elim h [ inl e ↦ cc | inr e ↦ cc ])

-- Claims left out by the draft are reported and do not block.
omitted_reports-NoneBlocks :
    (node_id : String) (claims : List String) → NoneBlocks (omitted_reports node_id claims)
unfolding is_blocking
omitted_reports-NoneBlocks node_id [] = refl
omitted_reports-NoneBlocks node_id (c ∷ cs) = refl

pub unit_reports_iff :
    (node_id : String) (records : List EffectRecord) (actions : List ReviewAction)
    (mandatory requested : List String)
    → NoneBlocks (unit_reports node_id records actions mandatory requested) ↔ (
        All (λ (a : ReviewAction). IsKnownType a.action_type) actions
        × (is_empty actions ≡ false)
        × ((is_empty (mandatory ++ requested) ≡ false)
            ⊎ (explicit_no_claim records actions ≡ true)))
unfolding unit_reports
unit_reports_iff node_id records actions mandatory requested =
    let covered =
      coverage_reports node_id (is_empty actions) (is_empty (mandatory ++ requested))
        (explicit_no_claim records actions) in
    let omitted = omitted_reports node_id (outside requested mandatory) in
    let first = NoneBlocks-append (unknown_types node_id actions) (covered ++ omitted) in
    let second = NoneBlocks-append covered omitted in
    let known = unknown_types_iff node_id actions in
    let shown =
      coverage_reports_iff node_id (is_empty actions) (is_empty (mandatory ++ requested))
        (explicit_no_claim records actions) in
    (
      λ h.
          let (a, rest) = first.0 h in
          let (b, _) = second.0 rest in let (c, d) = shown.0 b in (known.0 a, c, d),
      λ (a, c, d). first.1 (
        known.1 a,
        second.1 (shown.1 (c, d), omitted_reports-NoneBlocks node_id (outside requested mandatory)),
      ),
    )
