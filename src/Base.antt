-- ===== src/Base.antt =====
-- The names that the other modules share: the libraries', passed on, and those of the children.
mod Tests
mod Lists
mod Bytes
mod Results
mod Cuts
pub use Tests.*
pub use Lists.*
unfoldable pub use Results.{lookup, insert, delete, member}
pub use Results.{
  Result, ok, err, ◌>>=◌, >>=-eq-ok, Ensures, Ensures-eq, Ensures-if, Ensures->>=, Ensures-all,
  wrap, lookup-insert, lookup-insert_self, lookup-delete, ≐_ne, ne_of_test,
}
unfoldable pub use Bytes.{◌≐◌, has_prefix, contains, cut}
unfoldable pub use Cuts.{cut_last}
pub use Cuts.{Lacks, cut-append, cut-Lacks, cut_sound, cut_last-append, cut_last_sound}
pub use Bytes.{Text, codes, ≐_sound, ≐_refl, ≐_iff, is_empty, cons_first}
pub use Prim.Native.Nat.{ℕ, zero, suc, ◌+◌, ◌-◌, ◌*◌, ◌/◌, ◌%◌, ◌^◌, ◌≤◌, ◌<◌, min}
pub use mathlib.Core.Path.{◌≡◌, refl, sym, ap, ◌∙◌}
pub use mathlib.Core.Logic.{◌≢◌, ◌↔◌, ◌⊎◌, inl, inr}
pub use mathlib.Core.Bool.{Bool, true, false, not, ◌&&◌, ◌||◌}
pub use mathlib.Core.Option.{Option, none, some}
pub use mathlib.Core.List.{List, [], ◌∷◌, ◌++◌, map, append-nil, append_assoc}
pub use native.Mathlib.Omega.{arith}
