-- ===== src/Base/Text.antt =====
-- Python's `str` methods that the validators call: `strip`, `lower`, `casefold`, `startswith`,
-- `endswith`, `in`, decimal printing and the order that `sorted` uses. Case mapping is written out
-- for ASCII and for every other character whose full mapping has an ASCII letter in it; the
-- characters that are left map to texts without ASCII letters, and are kept. The code only compares
-- the results with ASCII words, for which that gives the answers of the full mapping.
use Prim.Native.Nat.{ℕ, zero, suc, ◌-◌, ◌/◌, ◌%◌}
use Prim.Native.Char.{Char, code}
use Prim.Native.String.{String, [], ◌∷◌, ◌++◌ as ◌<>◌, char_at, compare}
use mathlib.Core.Bool.{Bool, true, false, ◌&&◌, ◌||◌}
use text.Mathlib.Text.{◌==◌, starts_with, is_le}
use ev4_constructability_eng.Base.Tests.{leb, nat_eq, if◌then◌else◌}

-- `str.isspace` for one character.
abbrev pub is_space : ℕ → Bool
is_space c =
    (leb 9 c && leb c 13)
    || (leb 28 c && leb c 32)
    || nat_eq c 133
    || nat_eq c 160
    || nat_eq c 5760
    || (leb 8192 c && leb c 8202)
    || nat_eq c 8232
    || nat_eq c 8233
    || nat_eq c 8239
    || nat_eq c 8287
    || nat_eq c 12288

abbrev lower_letters : String
lower_letters = "abcdefghijklmnopqrstuvwxyz"

abbrev lower_char : Char → Char
lower_char c = if leb 65 (code c) && leb (code c) 90 then char_at lower_letters (code c - 65) else c

-- A character outside ASCII whose lower case has an ASCII letter: I with a dot or the Kelvin sign.
abbrev lower_other : Char → String
lower_other c = if nat_eq (code c) 304 then "i̇" else if nat_eq (code c) 8490 then "k" else c ∷ []

-- The Latin ligatures.
abbrev fold_ligature : Char → String
fold_ligature c =
    if nat_eq (code c) 64256
    then "ff"
    else if nat_eq (code c) 64257
    then "fi"
    else if nat_eq (code c) 64258
    then "fl"
    else if nat_eq (code c) 64259
    then "ffi"
    else if nat_eq (code c) 64260
    then "ffl"
    else if nat_eq (code c) 64261 || nat_eq (code c) 64262
    then "st"
    else c ∷ []

-- Letters with a mark, which have no composed small form.
abbrev fold_marked : Char → String
fold_marked c =
    if nat_eq (code c) 329
    then "ʼn"
    else if nat_eq (code c) 496
    then "ǰ"
    else if nat_eq (code c) 7830
    then "ẖ"
    else if nat_eq (code c) 7831
    then "ẗ"
    else if nat_eq (code c) 7832
    then "ẘ"
    else if nat_eq (code c) 7833
    then "ẙ"
    else if nat_eq (code c) 7834
    then "aʾ"
    else fold_ligature c

-- A character outside ASCII that folds to a text with an ASCII letter: also the sharp s and the
-- long s.
abbrev fold_other : Char → String
fold_other c =
    if nat_eq (code c) 223 || nat_eq (code c) 7838
    then "ss"
    else if nat_eq (code c) 383
    then "s"
    else if nat_eq (code c) 304 || nat_eq (code c) 8490
    then lower_other c
    else fold_marked c

-- The texts that a character maps to.
abbrev lower_text : Char → String
lower_text c = if leb (code c) 127 then lower_char c ∷ [] else lower_other c

abbrev fold_text : Char → String
fold_text c = if leb (code c) 127 then lower_char c ∷ [] else fold_other c

-- `s.lower()` and `s.casefold()`
unfoldable pub lower : String → String
lower [] = []
lower (c ∷ s) = lower_text c <> lower s

unfoldable pub casefold : String → String
casefold [] = []
casefold (c ∷ s) = fold_text c <> casefold s

unfoldable pub lstrip : String → String
lstrip [] = []
lstrip (c ∷ s) = let rest = lstrip s in if is_space (code c) then rest else c ∷ s

unfoldable pub rstrip : String → String
rstrip [] = []
rstrip (c ∷ s) = let rest = rstrip s in if is_space (code c) && rest == "" then [] else c ∷ rest

-- `s.strip()`
unfoldable pub strip : String → String
unfolding lstrip rstrip
strip s = rstrip (lstrip s)

-- `t in s`: some suffix of s starts with t.
unfoldable pub contains : String → String → Bool
contains [] t = t == ""
contains (c ∷ s) t = starts_with (c ∷ s) t || contains s t

-- `s.endswith(t)`
unfoldable pub ends_with : String → String → Bool
ends_with [] t = t == ""
ends_with (c ∷ s) t = (c ∷ s) == t || ends_with s t

digits_of : ℕ → ℕ → String → String
digits_of zero n acc = acc
digits_of (suc fuel) n acc =
    let acc' = char_at "0123456789" (n % 10) ∷ acc in
    let rest = digits_of fuel (n / 10) acc' in if nat_eq (n / 10) 0 then acc' else rest

-- `str(n)`; n + 1 rounds are enough, since the quotient by ten falls.
unfoldable pub show : ℕ → String
unfolding digits_of
show n = digits_of (suc n) n ""

-- `s <= t`, by code points.
abbrev pub str_le : String → String → Bool
str_le s t = is_le (compare s t)

-- A pattern of `re` with IGNORECASE compares one character with one: beside the ASCII letters it
-- takes the two other letters i for i, the long s for s and the Kelvin sign for k.
abbrev regex_char : Char → Char
regex_char c =
    if nat_eq (code c) 304 || nat_eq (code c) 305
    then char_at lower_letters 8
    else if nat_eq (code c) 383
    then char_at lower_letters 18
    else if nat_eq (code c) 8490
    then char_at lower_letters 10
    else lower_char c

-- `[a-z]` with IGNORECASE
abbrev is_letter : Char → Bool
is_letter c = leb 97 (code (regex_char c)) && leb (code (regex_char c)) 122

-- `left([^a-z]|$)` at the start of a text, for any lower-case word in place of left.
unfoldable pub word_here : String → String → Bool
word_here [] [] = true
word_here (c ∷ s) [] = if is_letter c then false else true
word_here [] (d ∷ word) = false
word_here (c ∷ s) (d ∷ word) = nat_eq (code (regex_char c)) (code d) && word_here s word

-- The search from a place that is or is not just after a letter.
unfoldable pub search_word : Bool → String → String → Bool
search_word after_letter [] word = false
search_word after_letter (c ∷ s) word =
    (if after_letter then false else word_here (c ∷ s) word) || search_word (is_letter c) s word

-- `re.search(r"(^|[^a-z])left([^a-z]|$)", s, re.IGNORECASE)`, for a nonempty word
unfoldable pub has_word : String → String → Bool
unfolding search_word word_here
has_word s word = search_word false s word
