-- ===== src/Base/Lists.antt =====
-- Lists over the native numbers, and membership of a text in a set that is written as a list.
use Prim.Native.Nat.{ℕ, suc}
use Prim.Native.String.{String}
use mathlib.Core.Path.{◌≡◌, refl, sym, subst}
use mathlib.Core.Logic.{inl, inr}
use mathlib.Core.Bool.{Bool, true, false, ◌&&◌, ◌||◌}
use mathlib.Core.List.{List, [], ◌∷◌, ◌++◌, Memᴰ}
use native.Mathlib.Omega.{arith}
use text.Mathlib.Text.{◌==◌}
use text.Mathlib.TextEquality.{eq_iff}
use ev4_constructability_eng.Base.Tests.{if◌then◌else◌, or_true}

module _ {ℓ} {A : Type ℓ} where
  abbrev pub length : List A → ℕ
  length [] = 0
  length (x ∷ xs) = suc (length xs)

  abbrev pub any : (A → Bool) → List A → Bool
  any p [] = false
  any p (x ∷ xs) = p x || any p xs

  abbrev pub all : (A → Bool) → List A → Bool
  all p [] = true
  all p (x ∷ xs) = p x && all p xs

  abbrev pub is_empty : List A → Bool
  is_empty [] = true
  is_empty (x ∷ xs) = false

  -- `[x for x in xs if p(x)]`
  abbrev pub keep : (A → Bool) → List A → List A
  keep p [] = []
  keep p (x ∷ xs) = if p x then x ∷ keep p xs else keep p xs

  abbrev pub All {κ} : (A → Type κ) → List A → Type κ
  All P [] = Unit
  All P (x ∷ xs) = P x × All P xs

  pub append-eq-nil : (xs ys : List A) → xs ++ ys ≡ [] → (xs ≡ []) × (ys ≡ [])
  append-eq-nil [] ys h = (refl, h)
  append-eq-nil (x ∷ xs) ys h = cc

  pub is_empty-eq : (xs : List A) → is_empty xs ≡ true → xs ≡ []
  is_empty-eq [] h = refl
  is_empty-eq (x ∷ xs) h = cc

  pub All-map {κ μ} :
      {P : A → Type κ} {Q : A → Type μ} (xs : List A) → ((x : A) → P x → Q x) → All P xs → All Q xs
  All-map [] f h = tt
  All-map (x ∷ xs) f (p, h) = (f x p, All-map xs f h)

  pub All-Memᴰ {κ} : (P : A → Type κ) (x : A) (xs : List A) → All P xs → Memᴰ x xs → P x
  All-Memᴰ P x [] h m = elim m [ ]
  All-Memᴰ P x (y ∷ ys) (here, later) m = elim m [
    | Memᴰ.head e ↦ subst P (sym e) here
    | Memᴰ.tail n ↦ All-Memᴰ P x ys later n
  ]

-- `s in {…}` for a set of texts.
abbrev pub str_in : String → List String → Bool
str_in s [] = false
str_in s (t ∷ ts) = s == t || str_in s ts

pub str_in-Memᴰ : (s : String) (ts : List String) → str_in s ts ≡ true → Memᴰ s ts
str_in-Memᴰ s [] h = cc
str_in-Memᴰ s (t ∷ ts) h = elim (or_true (s == t) (str_in s ts) h) [
  | inl e ↦ Memᴰ.head ((eq_iff s t).0 e)
  | inr r ↦ Memᴰ.tail (str_in-Memᴰ s ts r)
]

pub Memᴰ-str_in : {s : String} (ts : List String) → Memᴰ s ts → str_in s ts ≡ true
Memᴰ-str_in [] m = elim m [ ]
Memᴰ-str_in {s} (t ∷ ts) (Memᴰ.head e) = ground (arith, eq_iff s t)
Memᴰ-str_in {s} (t ∷ ts) (Memᴰ.tail m) = ground (arith, Memᴰ-str_in ts m)
