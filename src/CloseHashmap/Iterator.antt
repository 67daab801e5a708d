-- ===== src/CloseHashmap/Iterator.antt =====
-- The iterator of close_hashmap.hpp. Its map pointer is the map that the functions take.
use public_cpp.Base.{
  ℕ, zero, suc, ◌+◌, ◌-◌, true, false, List, [], ◌∷◌, Option, none, some, ◌==◌, if◌then◌else◌,
}
use public_cpp.CloseHashmap.{Item, free, live, dead, Map, at, is_live}

module _ {ℓ} {K V : Type ℓ} where
  -- `for (; pos_ < Capacity(); ++pos_)`, with the rounds that are left.
  scan : List (Item K V) → ℕ → ℕ → ℕ
  scan items zero pos = pos
  scan items (suc rounds) pos = elim (is_live (at items pos)) [
    | true ↦ pos
    | false ↦ scan items rounds (pos + 1)
  ]

  pub iter_begin : Map K V → ℕ
  unfolding scan
  iter_begin m = scan m.items m.size_array 0

  pub iter_next : Map K V → ℕ → ℕ
  unfolding scan
  iter_next m pos =
      if m.size_array == pos then pos else scan m.items (m.size_array - (pos + 1)) (pos + 1)

  -- `operator->` of a free item would give zeroed bytes, which stand for no pair.
  pair_of : Item K V → Option (K × V)
  pair_of free = none
  pair_of (live k v) = some (k, v)
  pair_of (dead k v) = some (k, v)

  pub iter_pair : Map K V → ℕ → Option (K × V)
  unfolding pair_of
  iter_pair m pos = if pos == m.size_array then none else pair_of (at m.items pos)

  -- The loop `for (iter = Begin(); iter != End(); iter.Next())`, collecting `*iter`.
  pub walk : ℕ → Map K V → ℕ → List (K × V)
  walk zero m pos = []
  walk (suc fuel) m pos = elim (iter_pair m pos) [
    | none ↦ []
    | some kv ↦ kv ∷ walk fuel m (iter_next m pos)
  ]

  -- The pairs of the live items, in the array's order.
  pub live_pairs : List (Item K V) → List (K × V)
  live_pairs [] = []
  live_pairs (free ∷ items) = live_pairs items
  live_pairs (live k v ∷ items) = (k, v) ∷ live_pairs items
  live_pairs (dead k v ∷ items) = live_pairs items
