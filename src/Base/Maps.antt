-- ===== src/Base/Maps.antt =====
-- A Go map is the function that looks a key up. `delete`, `m[k] = v` and a loop that deletes.
use mathlib.Core.Bool.{Bool}
use mathlib.Core.Option.{Option, none, some}
use buzzhive.Base.Tests.{if◌then◌else◌}
use buzzhive.Base.Eq.{HasEq, ◌==◌}

abbrev pub Map : Type 0 → Type 0 → Type 0
Map K V = K → Option V

abbrev pub empty : {K V : Type 0} → Map K V
empty _ = none

abbrev pub get_or : {V : Type 0} → Option V → V → V
get_or none d = d
get_or (some v) d = v

module _ {K V : Type 0} where
  abbrev pub insert : ⦃e : HasEq K⦄ → K → V → Map K V → Map K V
  insert k v m j = if k == j then some v else m j

  abbrev pub delete : ⦃e : HasEq K⦄ → K → Map K V → Map K V
  delete k m j = if k == j then none else m j

  -- Deletes the entries that pass the test.
  abbrev pub delete_if : (K → V → Bool) → Map K V → Map K V
  delete_if test m j = elim (m j) [ none ↦ none | some v ↦ if test j v then none else some v ]
