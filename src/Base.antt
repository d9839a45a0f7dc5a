-- ===== src/Base.antt =====
-- What the other modules share: library names, tests, lists over the native numbers, text keys,
-- results with Go's `error`, and the signed 64-bit numbers of Go's int64.
mod Tests
mod Lists
mod Text
pub mod Int64
pub use Tests.*
pub use Lists.*
pub use Text.{Result, ok, err, Result-cases, ◌>>=◌, StringMap, empty_map, insert, delete}
unfoldable pub use Text.{string_dec, same_text}
pub use Prim.Native.Nat.{ℕ, zero, suc, ◌+◌, ◌-◌, ◌*◌, ◌/◌, ◌%◌, ◌^◌, ◌≤◌, ◌<◌}
pub use Prim.Native.String.{String}
pub use mathlib.Core.Path.{◌≡◌, refl, sym, ap, subst, ◌∙◌}
pub use mathlib.Core.Logic.{◌≢◌, ◌↔◌, ◌⊎◌, inl, inr, ite, if_pos, if_neg}
pub use mathlib.Core.Bool.{Bool, true, false, not, ◌&&◌, ◌||◌}
pub use mathlib.Core.Option.{Option, none, some}
pub use mathlib.Core.List.{List, [], ◌∷◌, ◌++◌, map}
pub use native.Mathlib.Omega.{arith}
unfoldable pub use native.Mathlib.Decide.{dec_lt, dec_le, ℕ_discrete}
