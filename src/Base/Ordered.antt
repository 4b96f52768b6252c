-- ===== src/Base/Ordered.antt =====
-- A Go map whose keys are numbers and are read in ascending order: its entries, in that order.
use Prim.Native.Nat.{ℕ, ◌+◌, ◌≤◌, ◌<◌}
use mathlib.Core.Path.{◌≡◌, refl}
use mathlib.Core.Bool.{Bool, true, false, ◌&&◌, ◌||◌}
use mathlib.Core.Option.{Option, none, some}
use mathlib.Core.List.{List, [], ◌∷◌}
use native.Mathlib.Omega.{arith}
use buzzhive.Base.Tests.{ltb, if◌then◌else◌, ◌==◌}

abbrev pub Ordered : Type 0 → Type 0
Ordered V = List (ℕ × V)

unfoldable pub member : ℕ → List ℕ → Bool
member k [] = false
member k (j ∷ js) = k == j || member k js

module _ {V : Type 0} where
  unfoldable pub lookup : ℕ → Ordered V → Option V
  lookup k [] = none
  lookup k ((j, w) ∷ m) = let rest = lookup k m in if k == j then some w else rest

  unfoldable pub insert : ℕ → V → Ordered V → Ordered V
  insert k v [] = (k, v) ∷ []
  insert k v ((j, w) ∷ m) =
      let rest = insert k v m in
      if k == j then (k, v) ∷ m else if ltb k j then (k, v) ∷ (j, w) ∷ m else (j, w) ∷ rest

  unfoldable pub keys : Ordered V → List ℕ
  keys [] = []
  keys ((j, w) ∷ m) = j ∷ keys m

  pub lookup_missing : (k : ℕ) (m : Ordered V) → member k (keys m) ≡ false → lookup k m ≡ none
  unfolding lookup member keys
  lookup_missing k [] h = refl
  lookup_missing k ((j, w) ∷ m) h = ground (arith, lookup_missing k m)

  -- Each key is above the bound and the ones before it.
  unfoldable pub ascends : ℕ → Ordered V → Bool
  ascends b [] = true
  ascends b ((j, w) ∷ m) = ltb b (j + 1) && ascends (j + 1) m

  pub lookup-insert :
      (k j : ℕ) (v : V) (m : Ordered V)
      → lookup j (insert k v m) ≡ (if k == j then some v else lookup j m)
  unfolding lookup insert
  lookup-insert k j v [] = ground arith
  lookup-insert k j v ((i, w) ∷ m) = ground (arith, lookup-insert k j v m)

  pub ascends-insert :
      (b k : ℕ) (v : V) (m : Ordered V)
      → b ≤ k
      → ascends b m ≡ true
      → ascends b (insert k v m) ≡ true
  unfolding ascends insert
  ascends-insert b k v [] h a = ground arith
  ascends-insert b k v ((j, w) ∷ m) h a = ground (arith, ascends-insert (j + 1) k v m)

  pub lookup_below : (b k : ℕ) (m : Ordered V) → k < b → ascends b m ≡ true → lookup k m ≡ none
  unfolding lookup ascends
  lookup_below b k [] h a = refl
  lookup_below b k ((j, w) ∷ m) h a = ground (arith, lookup_below (j + 1) k m)

  -- The sum of a measure over the values.
  unfoldable pub total : (V → ℕ) → Ordered V → ℕ
  total f [] = 0
  total f ((j, w) ∷ m) = f w + total f m

  abbrev pub measure : (V → ℕ) → Option V → ℕ
  measure f none = 0
  measure f (some v) = f v

  pub total-insert :
      (f : V → ℕ) (b k : ℕ) (v : V) (m : Ordered V)
      → ascends b m ≡ true
      → total f (insert k v m) + measure f (lookup k m) ≡ total f m + f v
  unfolding total insert lookup ascends
  total-insert f b k v [] a = ground arith
  total-insert f b k v ((j, w) ∷ m) a =
      ground (arith, total-insert f (j + 1) k v m, lookup_below (j + 1) k m)

  pub total_zero :
      (f : V → ℕ) (b : ℕ) (m : Ordered V)
      → ascends b m ≡ true
      → ((k : ℕ) → measure f (lookup k m) ≡ 0)
      → total f m ≡ 0
  unfolding total lookup ascends
  total_zero f b [] a h = refl
  total_zero f b ((j, w) ∷ m) a h =
      let rest =
        total_zero f (j + 1) m (ground (arith, a))
          (λ k. ground (arith, h k, lookup_below (j + 1) k m, a)) in
      ground (arith, rest, h j)
