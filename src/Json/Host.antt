-- ===== src/Json/Host.antt =====
-- What the code takes from Python's runtime and the models leave open: the text that `str` prints
-- for a value, and the SHA-256 digest, in hexadecimal, of a value's canonical bytes.
use ev4_constructability_eng.Base.{◌≡◌, String}
use ev4_constructability_eng.Json.Access.{Json, str}

pub record Host : Type 0 where
  pub py_str : Json → String
  -- `str(s)` of a text is the text.
  pub py_str-text : (s : String) → py_str (str s) ≡ s
  pub sha256_json : Json → String
