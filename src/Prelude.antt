-- ===== src/Prelude.antt =====
-- The names that the other modules share: the libraries', passed on, and those of the children.
mod Tests
mod Lists
mod Texts
mod Results
mod Words
mod Tables
mod Sorting
mod Decimal
pub mod Map
pub use Tests.*
pub use Lists.*
pub use Texts.*
pub use Results.*
pub use Words.*
pub use Tables.*
pub use Sorting.*
pub use Decimal.*
unfoldable pub use Tables.{find, delete_key, update_key}
unfoldable pub use Decimal.{format_int, parse_int, cut}
unfoldable pub use Sorting.{filter, insert_sorted, order_by, last}
unfoldable pub use Words.{put_uint, fold_bytes}
unfoldable pub use Texts.{text_dec, precedes}
pub use Prim.Native.Nat.{ℕ, zero, suc, ◌+◌, ◌-◌, ◌*◌, ◌/◌, ◌%◌, ◌^◌, ◌≤◌, ◌<◌}
pub use mathlib.Core.Path.{◌≡◌, refl, sym, ap, ◌∙◌, subst}
pub use mathlib.Core.Logic.{◌≢◌, ◌↔◌, ◌⊎◌, inl, inr}
pub use mathlib.Core.Bool.{Bool, true, false, ◌&&◌, ◌||◌, not}
pub use mathlib.Core.Option.{Option, none, some}
pub use mathlib.Core.List.{List, [], ◌∷◌, ◌++◌, map, map-append, append-nil, append_assoc}
pub use native.Mathlib.Omega.{arith}
unfoldable pub use native.Mathlib.Decide.{ℕ_discrete}
