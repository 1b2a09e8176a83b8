-- ===== src/Base.antt =====
-- The names that the other modules share: the libraries', passed on, and those of the children.
mod Tests
mod Lists
mod Text
mod Maps
mod Results
pub use Tests.*
pub use Lists.*
unfoldable pub use Text.{byte_len, rune_count, has_prefix, contains}
pub use Text.{◌⧺◌, str_eq, eq_iff, str_eq_refl, byte_len-append, rune_count-append}
pub use Text.{rune_count-le-byte_len, text_append_assoc}
unfoldable pub use Maps.{lookup, insert, delete, has_key}
pub use Maps.{Dict, has_key-lookup, lookup-insert, lookup-delete, has_key-insert}
pub use Results.*
pub use Prim.Native.Nat.{ℕ, zero, suc, ◌+◌, ◌-◌, ◌*◌, ◌/◌, ◌%◌, ◌^◌, ◌≤◌, ◌<◌, max, min}
pub use Prim.Native.Char.{Char, code}
pub use Prim.Native.String.{String}
pub use mathlib.Core.Path.{◌≡◌, refl, sym, ap, subst, ◌∙◌}
pub use mathlib.Core.Logic.{◌≢◌, ◌↔◌, ◌⊎◌, inl, inr}
pub use mathlib.Core.Bool.{Bool, true, false, not, ◌&&◌, ◌||◌}
pub use mathlib.Core.Option.{Option, none, some}
pub use mathlib.Core.List.{List, [], ◌∷◌, ◌++◌, map, append-nil, append_assoc}
pub use native.Mathlib.Omega.{arith}
