-- ===== src/Heap/Order.antt =====
-- The order of heap.hpp's nodes.
use public_cpp.Base.{
  ℕ, zero, suc, ◌/◌, ◌≤◌, ◌<◌, ◌≡◌, ◌≢◌, inl, inr, false, arith, ◌==◌, Bool-cases,
}
use public_cpp.Heap.{Less, Links}

module _ {ℓ} {V : Type ℓ} ⦃less : Less V⦄ where
  -- `b` does not come before `a`.
  abbrev pub NotAfter : V → V → Type 0
  NotAfter a b = less.before b a ≡ false

  pub NotAfter-refl : (a : V) → NotAfter a a
  NotAfter-refl a = elim (Bool-cases (less.before a a)) [
    | inl e ↦ less.before_asymm a a e
    | inr e ↦ e
  ]

  module _ (val : ℕ → V) (a : Links) where
    -- The node of the place `c` does not come before that of the place `p`.
    abbrev pub IsOk : ℕ → ℕ → Type 0
    IsOk p c = NotAfter (val (a.slot p)) (val (a.slot c))

    abbrev pub IsOrdered : ℕ → Type 0
    IsOrdered num = (c : ℕ) → 1 < c → c ≤ num → IsOk (c / 2) c

    -- The children of `i` do not come before its parent.
    abbrev pub IsBridged : ℕ → ℕ → Type 0
    IsBridged num i = (c : ℕ) → c ≤ num → c / 2 ≡ i → 1 < i → IsOk (i / 2) c

    -- Every edge is in order but that from `i` up.
    pub record UpInv (num i : ℕ) : Type 0 where
      pub edges : (c : ℕ) → 1 < c → c ≤ num → c ≢ i → IsOk (c / 2) c
      pub bridge : IsBridged num i

    -- Every edge is in order but those from `i` down.
    pub record DownInv (num i : ℕ) : Type 0 where
      pub edges : (c : ℕ) → 1 < c → c ≤ num → c / 2 ≢ i → IsOk (c / 2) c
      pub bridge : IsBridged num i

    -- Every edge is in order but those of `i`.
    pub record ExceptAt (num i : ℕ) : Type 0 where
      pub edges : (c : ℕ) → 1 < c → c ≤ num → c ≢ i → c / 2 ≢ i → IsOk (c / 2) c
      pub bridge : IsBridged num i

    root_least_below : (fuel num c : ℕ) → IsOrdered num → c < fuel → 1 ≤ c → c ≤ num → IsOk 1 c
    root_least_below zero num c o f lo hi = absurd (omega arith)
    root_least_below (suc fuel) num c o f lo hi = elim (Bool-cases (c == 1)) [
      | inl e ↦ let root : c ≡ 1 = ground arith in rw root (NotAfter-refl _)
      | inr e ↦
          less.before_trans (val (a.slot 1)) (val (a.slot (c / 2))) (val (a.slot c))
            (root_least_below fuel num (c / 2) o (ground arith) (ground arith) (ground arith))
            (o c (ground arith) hi)
    ]

    -- In an ordered heap no node comes before that of the root.
    pub root_least : (num c : ℕ) → IsOrdered num → 1 ≤ c → c ≤ num → IsOk 1 c
    root_least num c o lo hi = root_least_below (suc c) num c o (omega arith) lo hi
