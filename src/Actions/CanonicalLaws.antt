-- ===== src/Actions/CanonicalLaws.antt =====
-- Looking a key up in a canonical value.
use ev4_constructability_eng.Base.{
  ◌≡◌, refl, ap, ◌∙◌, String, true, ◌==◌, Option, none, some, arith, eq_iff, if◌then◌else◌,
}
use text.Mathlib.TextPositions.{compare_refl}
use ev4_constructability_eng.Base.Text.{str_le}
use ev4_constructability_eng.Json.{Json, Fields, end, field, lookup, or_null, value_at}
use ev4_constructability_eng.Actions.Canonical.{canonical, canonical_fields, insert_field}

str_le_refl : (s : String) → str_le s s ≡ true
str_le_refl s = rw (compare_refl s)

lookup-insert_field :
    (k j : String) (w : Json) (fs : Fields)
    → lookup k (insert_field j w fs) ≡ (if j == k then some w else lookup k fs)
unfolding insert_field
lookup-insert_field k j w end = refl
lookup-insert_field k j w (field i v fs) =
    ground (arith, lookup-insert_field k j w fs, eq_iff j k, eq_iff i k, eq_iff i j, str_le_refl j)

abbrev pub canonical_option : Option Json → Option Json
canonical_option none = none
canonical_option (some v) = some (canonical v)

pub lookup-canonical_fields :
    (k : String) (fs : Fields) → lookup k (canonical_fields fs) ≡ canonical_option (lookup k fs)
unfolding canonical
lookup-canonical_fields k end = refl
lookup-canonical_fields k (field j v fs) =
    lookup-insert_field k j (canonical v) (canonical_fields fs)
    ∙ ground (arith, lookup-canonical_fields k fs)

pub value_at-canonical_fields :
    (k : String) (fs : Fields) → value_at k (canonical_fields fs) ≡ canonical (value_at k fs)
unfolding canonical
value_at-canonical_fields k fs = ap or_null (lookup-canonical_fields k fs) ∙ through (lookup k fs)
  where
    through : (o : Option Json) → or_null (canonical_option o) ≡ canonical (or_null o)
    through none = refl
    through (some v) = refl
