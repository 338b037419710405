-- ===== src/Base/Tests.antt =====
-- Boolean tests on numbers, the conditional, and case splits that keep the equation.
use Prim.Native.Nat.{ℕ, compare, Ordering}
use mathlib.Core.Path.{◌≡◌, refl}
use mathlib.Core.Logic.{◌⊎◌, inl, inr, ◌↔◌}
use mathlib.Core.Bool.{Bool, true, false, ◌&&◌, ◌||◌, not}
use mathlib.Core.Option.{Option, none, some}
use native.Mathlib.Omega.{arith}

abbrev pub leb : ℕ → ℕ → Bool
leb a b = elim (compare a b) [ Ordering.gt ↦ false | _ ↦ true ]

abbrev pub nat_eq : ℕ → ℕ → Bool
nat_eq a b = elim (compare a b) [ Ordering.eq ↦ true | _ ↦ false ]

infix 1 if◌then◌else◌
abbrev pub if◌then◌else◌ {ℓ} : {A : Type ℓ} → Bool → A → A → A
if true then x else y = x
if false then x else y = y

pub Bool-cases : (b : Bool) → (b ≡ true) ⊎ (b ≡ false)
Bool-cases true = inl refl
Bool-cases false = inr refl

pub Option-cases {ℓ} : {A : Type ℓ} (o : Option A) → (o ≡ none) ⊎ ((a : A) × (o ≡ some a))
Option-cases none = inl refl
Option-cases (some a) = inr (a, refl)

pub nat_eq_iff : (a b : ℕ) → (nat_eq a b ≡ true) ↔ (a ≡ b)
nat_eq_iff a b = ground arith

pub and_true : (a b : Bool) → (a && b) ≡ true → (a ≡ true) × (b ≡ true)
and_true a b h = ground arith

pub or_true : (a b : Bool) → (a || b) ≡ true → (a ≡ true) ⊎ (b ≡ true)
or_true true b h = inl refl
or_true false b h = inr h

pub or_false : (a b : Bool) → (a || b) ≡ false → (a ≡ false) × (b ≡ false)
or_false a b h = ground arith

pub not-true : (a : Bool) → not a ≡ true → a ≡ false
not-true a h = ground arith

-- Tests and what they say, in both directions.
pub and_iff : (a b : Bool) → ((a && b) ≡ true) ↔ ((a ≡ true) × (b ≡ true))
and_iff a b = (and_true a b, λ (e, f). ground (arith, e, f))

pub or_iff : (a b : Bool) → ((a || b) ≡ true) ↔ ((a ≡ true) ⊎ (b ≡ true))
or_iff a b = (or_true a b, λ h. elim h [ inl e ↦ ground (arith, e) | inr e ↦ ground (arith, e) ])

-- Tests that are combined, of what each of them says.
pub with_iff :
    {P X : Type 0} (b c : Bool) → ((b ≡ true) ↔ P) → ((c ≡ true) ↔ X) → ((b && c) ≡ true) ↔ (P × X)
with_iff b c first second =
    let both_ways = and_iff b c in
    (
      λ h. let (x, y) = both_ways.0 h in (first.0 x, second.0 y),
      λ (x, y). both_ways.1 (first.1 x, second.1 y),
    )

pub either_iff :
    {P X : Type 0} (b c : Bool) → ((b ≡ true) ↔ P) → ((c ≡ true) ↔ X) → ((b || c) ≡ true) ↔ (P ⊎ X)
either_iff b c first second =
    let either = or_iff b c in
    (
      λ h. elim (either.0 h) [ inl e ↦ inl (first.0 e) | inr e ↦ inr (second.0 e) ],
      λ h. either.1 (elim h [ inl p ↦ inl (first.1 p) | inr x ↦ inr (second.1 x) ]),
    )

pub not_iff : {X : Type 0} (b : Bool) → ((b ≡ true) ↔ X) → (b ≡ false) ↔ (¬ X)
not_iff true known = (λ h. cc, λ none. elim (none (known.0 refl)) [ ])
not_iff false known = (λ h x. cc (known.1 x), λ none. refl)
