-- ===== src/Effects/Permits.antt =====
-- What each test on a permission of the Architect asks of the value that it reads.
use mathlib.Core.List.{Memᴰ}
use ev4_constructability_eng.Base.{
  ◌≡◌, ◌≢◌, refl, sym, ap, subst, ◌∙◌, ◌↔◌, ◌⊎◌, inl, inr, String, true, List, [], ◌∷◌, All, any,
  all, map, and_true, or_true, eq_refl, arith, str_in, str_in-Memᴰ, Memᴰ-str_in,
}
use ev4_constructability_eng.Base.Python.{ok, ok-injective}
use ev4_constructability_eng.Json.{
  Json, null, bool, int, real, str, arr, obj, Items, elems, is_one, is_str,
}
use ev4_constructability_eng.Json.Host.{Host}
use ev4_constructability_eng.Json.Laws.{is_str-eq}
use ev4_constructability_eng.Effects.Permissions.{absent_or_in, action_allowed, approved_status}

-- An approval: one of two texts, or a value that is equal to True.
abbrev pub IsApproval : Json → Type 0
IsApproval v = (v ≡ str "approved") ⊎ (v ≡ str "explicitly_approved") ⊎ (is_one v ≡ true)

-- Null, or one of some texts.
abbrev pub AbsentOrIn : List String → Json → Type 0
AbsentOrIn ts v = (v ≡ null) ⊎ ((s : String) × (v ≡ str s) × Memᴰ s ts)

-- A value that is a list has the text as an element.
abbrev pub AllowsAction : String → Json → Type 0
AllowsAction t v = (vs : Items) → v ≡ arr vs → Memᴰ (str t) (elems vs)

-- There are no names, or a list that has each of them.
abbrev pub AllowsNames : Host → List String → Json → Type 0
AllowsNames host names v =
    (names ≡ [])
    ⊎ ((vs : Items) × (v ≡ arr vs) × All (λ n. Memᴰ n (map host.py_str (elems vs))) names)

-- Of a text, membership in a set of two texts; of any other value, whether it is equal to 1.
pub in_two : (s t u : String) → (str_in s (t ∷ u ∷ []) ≡ true) ↔ ((s ≡ t) ⊎ (s ≡ u))
in_two s t u = (
  λ h. elim (str_in-Memᴰ s (t ∷ u ∷ []) h) [
    | Memᴰ.head e ↦ inl e
    | Memᴰ.tail m ↦ inr (elim m [ Memᴰ.head e ↦ e | Memᴰ.tail n ↦ elim n [ ] ])
  ],
  λ h. Memᴰ-str_in (t ∷ u ∷ []) (elim h [ inl e ↦ Memᴰ.head e | inr e ↦ Memᴰ.tail (Memᴰ.head e) ]),
)

pub str-injective : {s t : String} → str s ≡ str t → s ≡ t
str-injective e = cc

approved_text : (s : String) → (approved_status (str s) ≡ ok true) ↔ IsApproval (str s)
approved_text s =
    let two = in_two s "approved" "explicitly_approved" in
    (
      λ h. elim (two.0 (ok-injective h)) [ inl e ↦ inl (ap str e) | inr e ↦ inr (inl (ap str e)) ],
      λ h. elim h [
        | inl e ↦ ap ok (two.1 (inl (str-injective e)))
        | inr (inl e) ↦ ap ok (two.1 (inr (str-injective e)))
        | inr (inr e) ↦ cc
      ],
    )

approved_number :
    (v : Json)
    → v ≢ str "approved"
    → v ≢ str "explicitly_approved"
    → approved_status v ≡ ok (is_one v)
    → (approved_status v ≡ ok true) ↔ IsApproval v
approved_number v no_text no_other_text number = (
  λ h. inr (inr (ok-injective (sym number ∙ h))),
  λ h. elim h [
    | inl e ↦ elim (no_text e) [ ]
    | inr (inl e) ↦ elim (no_other_text e) [ ]
    | inr (inr e) ↦ number ∙ ap ok e
  ],
)

pub approved_status_iff : (v : Json) → (approved_status v ≡ ok true) ↔ IsApproval v
approved_status_iff (str s) = approved_text s
approved_status_iff null = approved_number null (λ e. cc) (λ e. cc) refl
approved_status_iff (bool b) = approved_number (bool b) (λ e. cc) (λ e. cc) refl
approved_status_iff (int n) = approved_number (int n) (λ e. cc) (λ e. cc) refl
approved_status_iff (real n k) = approved_number (real n k) (λ e. cc) (λ e. cc) refl
approved_status_iff (arr vs) =
    (λ h. cc, λ h. elim h [ inl e ↦ cc | inr (inl e) ↦ cc | inr (inr e) ↦ cc ])
approved_status_iff (obj fs) =
    (λ h. cc, λ h. elim h [ inl e ↦ cc | inr (inl e) ↦ cc | inr (inr e) ↦ cc ])

pub absent_or_in_iff :
    (ts : List String) (v : Json) → (absent_or_in ts v ≡ ok true) ↔ AbsentOrIn ts v
absent_or_in_iff ts (str s) = (
  λ h. inr (s, refl, str_in-Memᴰ s ts (ok-injective h)),
  λ h. elim h [
    | inl e ↦ cc
    | inr (t, e, m) ↦ ap ok (Memᴰ-str_in ts (subst (λ u. Memᴰ u ts) (sym (str-injective e)) m))
  ],
)
absent_or_in_iff ts null = (λ h. inl refl, λ h. refl)
absent_or_in_iff ts (bool b) = (λ h. cc, λ h. elim h [ inl e ↦ cc | inr (t, e, m) ↦ cc ])
absent_or_in_iff ts (int n) = (λ h. cc, λ h. elim h [ inl e ↦ cc | inr (t, e, m) ↦ cc ])
absent_or_in_iff ts (real n k) = (λ h. cc, λ h. elim h [ inl e ↦ cc | inr (t, e, m) ↦ cc ])
absent_or_in_iff ts (arr vs) = (λ h. cc, λ h. elim h [ inl e ↦ cc | inr (t, e, m) ↦ cc ])
absent_or_in_iff ts (obj fs) = (λ h. cc, λ h. elim h [ inl e ↦ cc | inr (t, e, m) ↦ cc ])

pub any_str-Memᴰ : (t : String) (vs : List Json) → (any (is_str t) vs ≡ true) ↔ Memᴰ (str t) vs
any_str-Memᴰ t [] = (λ h. cc, λ m. elim m [ ])
any_str-Memᴰ t (v ∷ vs) = (
  λ h. elim (or_true (is_str t v) (any (is_str t) vs) h) [
    | inl e ↦ Memᴰ.head (sym (is_str-eq t v e))
    | inr r ↦ Memᴰ.tail ((any_str-Memᴰ t vs).0 r)
  ],
  λ m. elim m [
    | Memᴰ.head e ↦ rw (← e, eq_refl t)
    | Memᴰ.tail n ↦ ground (arith, (any_str-Memᴰ t vs).1 n)
  ],
)

pub arr-injective : {us ws : Items} → arr us ≡ arr ws → us ≡ ws
arr-injective e = cc

pub action_allowed_iff : (t : String) (v : Json) → (action_allowed t v ≡ true) ↔ AllowsAction t v
action_allowed_iff t (arr vs) = (
  λ h ws e.
      subst (λ us. Memᴰ (str t) (elems us)) (arr-injective e) ((any_str-Memᴰ t (elems vs)).0 h),
  λ m. (any_str-Memᴰ t (elems vs)).1 (m vs refl),
)
action_allowed_iff t null = (λ h ws e. cc, λ m. refl)
action_allowed_iff t (bool b) = (λ h ws e. cc, λ m. refl)
action_allowed_iff t (int n) = (λ h ws e. cc, λ m. refl)
action_allowed_iff t (real n k) = (λ h ws e. cc, λ m. refl)
action_allowed_iff t (str s) = (λ h ws e. cc, λ m. refl)
action_allowed_iff t (obj fs) = (λ h ws e. cc, λ m. refl)

pub all_in-All :
    (ts names : List String) → (all (λ n. str_in n ts) names ≡ true) ↔ All (λ n. Memᴰ n ts) names
all_in-All ts [] = (λ h. tt, λ h. refl)
all_in-All ts (n ∷ names) = (
  λ h.
      let (here, later) = and_true (str_in n ts) (all (λ m. str_in m ts) names) h in
      (str_in-Memᴰ n ts here, (all_in-All ts names).0 later),
  λ (here, later). rw (Memᴰ-str_in ts here, (all_in-All ts names).1 later),
)
