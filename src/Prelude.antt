-- ===== src/Prelude.antt =====
-- The names that the other modules share: the libraries', passed on, and those of the children.
pub mod Tests
pub mod Lists
pub mod Membership
pub mod Names
pub mod Errors
pub mod Text
pub use Tests.*
pub use Lists.*
unfoldable pub use Errors.{join}
pub use Errors.{report, report-nil, append-nil, concat_map, concat_map-nil, join-nil}
pub use Membership.*
pub use Names.{same_of_name, any_name-find_all}
unfoldable pub use Text.{equal_fold, ◌+++◌, is_blank, is_storage_account_name, ends_with}
pub use Text.{equal_fold_refl}
pub use Prim.Native.Nat.{ℕ, zero, suc, ◌+◌, ◌-◌, ◌*◌, ◌≤◌, ◌<◌}
pub use Prim.Native.String.{String}
pub use mathlib.Core.Path.{◌≡◌, refl, sym, ap, ap₂, ◌∙◌, subst}
pub use mathlib.Core.Logic.{◌≢◌, ◌↔◌, ◌⊎◌, inl, inr}
pub use mathlib.Core.Bool.{Bool, true, false, not, ◌&&◌, ◌||◌}
pub use mathlib.Core.Option.{Option, none, some}
pub use mathlib.Core.List.{List, [], ◌∷◌, ◌++◌, map, Memᴰ}
pub use native.Mathlib.Omega.{arith}
pub use text.Mathlib.Text.{◌==◌, starts_with}
pub use text.Mathlib.TextEquality.{eq_iff}
