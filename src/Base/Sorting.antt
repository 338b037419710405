-- ===== src/Base/Sorting.antt =====
-- `sorted(…)` and `sorted(set(…))` of texts, by insertion, and stable sorting by a key.
use Prim.Native.Nat.{suc}
use Prim.Native.String.{String}
use mathlib.Core.Path.{◌≡◌, refl, sym, ap, ◌∙◌}
use mathlib.Core.Logic.{inl, inr}
use mathlib.Core.Bool.{Bool, true, ◌||◌}
use mathlib.Core.List.{List, [], ◌∷◌, Perm}
use mathlib.Core.List.Perm
use native.Mathlib.Omega.{arith}
use text.Mathlib.Text.{◌==◌}
use text.Mathlib.TextEquality.{eq_iff}
use ev4_constructability_eng.Base.Tests.{if◌then◌else◌, Bool-cases}
use ev4_constructability_eng.Base.Lists.{All, keep, length, str_in}
use ev4_constructability_eng.Base.Text.{str_le}

pub insert_text : String → List String → List String
insert_text s [] = s ∷ []
insert_text s (t ∷ ts) = if str_le s t then s ∷ t ∷ ts else t ∷ insert_text s ts

-- `sorted(texts)`
unfoldable pub sort_texts : List String → List String
unfolding insert_text
sort_texts [] = []
sort_texts (s ∷ ss) = insert_text s (sort_texts ss)

-- The set of some texts, as a list with each text once.
unfoldable pub distinct : List String → List String
distinct [] = []
distinct (s ∷ ss) = if str_in s ss then distinct ss else s ∷ distinct ss

pub str_in-insert_text :
    (c s : String) (ts : List String) → str_in c (insert_text s ts) ≡ (c == s || str_in c ts)
unfolding insert_text
str_in-insert_text c s [] = refl
str_in-insert_text c s (t ∷ ts) = ground (arith, str_in-insert_text c s ts)

-- Sorting keeps the members.
pub str_in-sort_texts : (c : String) (ss : List String) → str_in c (sort_texts ss) ≡ str_in c ss
unfolding sort_texts
str_in-sort_texts c [] = refl
str_in-sort_texts c (s ∷ ss) =
    str_in-insert_text c s (sort_texts ss) ∙ ap (λ (b : Bool). c == s || b) (str_in-sort_texts c ss)

pub str_in-distinct : (c : String) (ss : List String) → str_in c (distinct ss) ≡ str_in c ss
unfolding distinct
str_in-distinct c [] = refl
str_in-distinct c (s ∷ ss) = elim (Bool-cases (str_in s ss)) [
  | inl e ↦ rw e (str_in-distinct c ss ∙ sym (known c s ss e))
  | inr e ↦ rw e (ap (λ (b : Bool). c == s || b) (str_in-distinct c ss))
]
  where
    known :
        (c s : String) (ss : List String)
        → str_in s ss ≡ true
        → (c == s || str_in c ss) ≡ str_in c ss
    known c s ss e = elim (Bool-cases (c == s)) [
      | inl same ↦ rw same (sym (rw (← (eq_iff c s).0 same) at e))
      | inr other ↦ rw other
    ]

pub length-insert_text :
    (s : String) (ts : List String) → length (insert_text s ts) ≡ suc (length ts)
unfolding insert_text
length-insert_text s [] = refl
length-insert_text s (t ∷ ts) = ground (arith, length-insert_text s ts)

pub length-sort_texts : (ss : List String) → length (sort_texts ss) ≡ length ss
unfolding sort_texts
length-sort_texts [] = refl
length-sort_texts (s ∷ ss) =
    omega (arith, length-insert_text s (sort_texts ss), length-sort_texts ss)

-- `sorted(values, key=…)`, where le compares the keys; equal keys keep their order.
module _ {ℓ} {A : Type ℓ} (le : A → A → Bool) where
  unfoldable pub insert_by : A → List A → List A
  insert_by a [] = a ∷ []
  insert_by a (b ∷ bs) = if le a b then a ∷ b ∷ bs else b ∷ insert_by a bs

  unfoldable pub sort_by : List A → List A
  unfolding insert_by
  sort_by [] = []
  sort_by (a ∷ bs) = insert_by a (sort_by bs)

  insert_by-Perm : (a : A) (bs : List A) → Perm (insert_by a bs) (a ∷ bs)
  unfolding insert_by
  insert_by-Perm a [] = Perm.refl (a ∷ [])
  insert_by-Perm a (b ∷ bs) = elim (Bool-cases (le a b)) [
    | inl e ↦ rw e (Perm.refl (a ∷ b ∷ bs))
    | inr e ↦ rw e (Perm.trans (Perm.cons b (insert_by-Perm a bs)) (Perm.swap a b bs))
  ]

  pub sort_by-Perm : (bs : List A) → Perm (sort_by bs) bs
  unfolding sort_by
  sort_by-Perm [] = Perm.refl []
  sort_by-Perm (a ∷ bs) = Perm.trans (insert_by-Perm a (sort_by bs)) (Perm.cons a (sort_by-Perm bs))

  -- What holds of every value holds of every sorted one.
  module _ {κ} (P : A → Type κ) where
    All-insert_by : (a : A) (bs : List A) → P a → All P bs → All P (insert_by a bs)
    unfolding insert_by
    All-insert_by a [] h hs = (h, hs)
    All-insert_by a (b ∷ bs) h (k, ks) = elim (Bool-cases (le a b)) [
      | inl e ↦ rw e (h, (k, ks))
      | inr e ↦ rw e (k, All-insert_by a bs h ks)
    ]

    pub All-sort_by : (bs : List A) → All P bs → All P (sort_by bs)
    unfolding sort_by
    All-sort_by [] h = tt
    All-sort_by (a ∷ bs) (h, hs) = All-insert_by a (sort_by bs) h (All-sort_by bs hs)

  -- Sorting keeps the number of elements that pass a test.
  module _ (p : A → Bool) where
    kept-insert_by :
        (a : A) (bs : List A) → length (keep p (insert_by a bs)) ≡ length (keep p (a ∷ bs))
    unfolding insert_by
    kept-insert_by a [] = refl
    kept-insert_by a (b ∷ bs) = ground (arith, kept-insert_by a bs)

    pub kept-sort_by : (bs : List A) → length (keep p (sort_by bs)) ≡ length (keep p bs)
    unfolding sort_by
    kept-sort_by [] = refl
    kept-sort_by (a ∷ bs) = ground (arith, kept-insert_by a (sort_by bs), kept-sort_by bs)
