-- ===== src/CloseHashmap/Erase.antt =====
-- `Erase` of close_hashmap.hpp under the invariant.
use public_cpp.Base.{◌+◌, ◌≡◌, refl, inl, inr, none, arith, if◌then◌else◌, is_some}
use public_cpp.CloseHashmap.{Key, Map, get, erase}
use public_cpp.CloseHashmap.Invariant.{IsValid, get_item-cases, get-of-Stores, get-of-Lacks, at-lt}
use public_cpp.CloseHashmap.Writes.{Updates, erase_write}

module _ {ℓ} {K V : Type ℓ} ⦃key : Key K⦄ where
  -- `Erase` says whether the key was there. It clears the key, keeps every other lookup, and counts
  -- one element less for a key that was there.
  pub erase_correct :
      (m : Map K V) (k : K)
      → IsValid m
      → IsValid (erase m k).1
        × ((erase m k).0 ≡ is_some (get m k))
        × (m.num_elm ≡ (erase m k).1.num_elm + (if (erase m k).0 then 1 else 0))
        × Updates m k none (erase m k).1
  unfolding erase
  erase_correct m k h = elim (get_item-cases m k h.sized h.table) [
    | inl (n, lacks) ↦
        let g = get-of-Lacks m k h.sized h.table lacks in
        rw (n, erase) (h, rw g refl, omega arith, λ j. ground (arith, (key.key_equal_iff k j).0))
    | inr (p, w, s, a) ↦
        let g = get-of-Stores m k w h.sized h.table (p, a) in
        let (valid, reads, count) =
          erase_write m k w p h a (omega (arith, at-lt m.items p k w a, h.table.measured)) in
        rw (s, erase) (valid, rw g refl, count, reads)
  ]
