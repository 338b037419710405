-- ===== src/Json.antt =====
-- The JSON and YAML documents that the validators read, as one type of values with Python's
-- operations on them: truth, `==`, `dict.get`, `list(…)` and membership in a set of texts.
-- A finite float is a decimal, m / 10^k; NaN and the infinities are not modelled.
mod Access
pub mod Laws
pub mod Build
pub mod Host
unfoldable pub use Access.*
