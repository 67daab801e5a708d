-- ===== src/Heap/Feature.antt =====
-- `Compare_` of heap.hpp by a feature: the order that the theorems on heaps ask for.
use public_cpp.Base.{ℕ, ◌≤◌, ◌≡◌, inl, inr, Bool, true, false, some, arith}
use public_cpp.Heap.{Less, Heap, compare, top}
use public_cpp.Heap.Invariant.{IsHeap, Contains, top-first}

module _ {ℓ} {V : Type ℓ} (order : Bool) (feature : V → ℕ) where
  pub compare_asymm :
      (a b : V) → compare order feature a b ≡ true → compare order feature b a ≡ false
  unfolding compare
  compare_asymm a b h = ground arith

  pub compare_trans :
      (a b c : V)
      → compare order feature b a ≡ false
      → compare order feature c b ≡ false
      → compare order feature c a ≡ false
  unfolding compare
  compare_trans a b c h k = ground arith

  abbrev pub by_feature : Less V
  by_feature = record {
    before = compare order feature;
    before_asymm = compare_asymm;
    before_trans = compare_trans;
  }

-- The top of a min heap has the least feature of all items, and that of a max heap the greatest.
pub top-extreme {ℓ} :
    {V : Type ℓ} (order : Bool) (feature : V → ℕ) (h : Heap V)
    → IsHeap ⦃less = by_feature order feature⦄ h
    → {v : V} → top h ≡ some v
    → (x : ℕ) → Contains ⦃less = by_feature order feature⦄ h x
    → (order ≡ false → feature v ≤ feature (h.val x))
      × (order ≡ true → feature (h.val x) ≤ feature v)
unfolding compare
top-extreme order feature h w {v} t x m = elim (top-first ⦃less = by_feature order feature⦄ h w) [
  | inl (e, n) ↦ absurd (ground arith)
  | inr (n, c, s, least) ↦ (λ e. ground (arith, least x m), λ e. ground (arith, least x m))
]
