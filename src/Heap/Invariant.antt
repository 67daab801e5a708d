-- ===== src/Heap/Invariant.antt =====
-- The invariant of heap.hpp, and its root.
use public_cpp.Base.{
  ℕ, ◌+◌, ◌≤◌, ◌<◌, ◌≡◌, ◌⊎◌, inl, inr, refl, none, some, true, false, arith, ◌==◌, ==_iff,
  Bool-cases,
}
use public_cpp.Heap.{Less, Heap, ensure, init_heap, resize, top}
use public_cpp.Heap.Moves.{IsLinked, Has}
use public_cpp.Heap.Order.{NotAfter, IsOrdered, root_least}

module _ {ℓ} {V : Type ℓ} ⦃less : Less V⦄ where
  pub record IsHeap (h : Heap V) : Type 0 where
    pub ready : h.init ≡ true
    pub sized : h.num_items < h.size_container
    pub whole : IsLinked h.num_items h.size_container h.links
    pub ordered : IsOrdered h.val h.links h.num_items

  -- The node is an item of the heap.
  abbrev pub Contains : Heap V → ℕ → Type 0
  Contains h n = Has h.num_items h.links n

  -- A node of an item knows its place.
  pub place_of :
      (h : Heap V) (n : ℕ)
      → IsHeap h
      → Contains h n
      → (h.links.slot (h.links.index n) ≡ n)
        × (1 ≤ h.links.index n)
        × (h.links.index n ≤ h.num_items)
  place_of h n v (k, lo, hi, e) =
      let at : h.links.index n ≡ k = ground (arith, v.whole.linked k lo hi) in
      (rw at e, rw at lo, rw at hi)

  -- The first call on a new heap meets an empty one in order.
  pub ensure-new :
      (h : Heap V)
      → h.init ≡ false
      → 0 < h.init_size_heap
      → IsHeap (ensure h) × ((ensure h).num_items ≡ 0) × ((n : ℕ) → ¬ Contains (ensure h) n)
  unfolding ensure init_heap
  ensure-new h e pos =
      rw (e, ensure)
        (
          record {
            ready = refl;
            sized = pos;
            whole = record {
              linked = λ k lo hi. absurd (omega arith);
              distinct = λ k l p q s. s;
              bounded = λ k p. p;
            };
            ordered = λ c lo hi. absurd (omega arith);
          },
          refl,
          λ n (k, lo, hi, s). absurd (omega arith),
        )

  pub ensure-init : (h : Heap V) → h.init ≡ true → ensure h ≡ h
  unfolding ensure
  ensure-init h e = rw (e, ensure)

  pub ensure-ready : (h : Heap V) → IsHeap h → ensure h ≡ h
  ensure-ready h v = ensure-init h v.ready

  pub resize-IsHeap :
      (h : Heap V)
      → IsHeap h
      → h.num_items + 1 ≡ h.size_container
      → IsHeap (resize h) × ((resize h).num_items + 1 < (resize h).size_container)
  unfolding resize
  resize-IsHeap h v full = (
    record {
      ready = v.ready;
      sized = ground (arith, v.sized);
      whole = record {
        linked = λ k lo hi. ground (arith, v.whole.linked k, v.sized);
        distinct =
            λ k l p q s. ground (arith, v.whole.distinct k l, v.whole.bounded k, v.whole.bounded l);
        bounded = λ k p. ground (arith, v.whole.bounded k);
      };
      ordered = λ c lo hi. ground (arith, v.ordered c, v.sized);
    },
    ground (arith, v.sized),
  )

  -- `Top` returns the value of an item, before which no item's value comes; it is null on an empty
  -- heap alone.
  pub top-first :
      (h : Heap V)
      → IsHeap h
      → ((h.num_items ≡ 0) × (top h ≡ none))
        ⊎ ((n : ℕ) × Contains h n
            × (top h ≡ some (h.val n))
            × ((x : ℕ) → Contains h x → NotAfter (h.val n) (h.val x)))
  unfolding top
  top-first h v = elim (Bool-cases (h.num_items == 0)) [
    | inl e ↦ inl ((==_iff h.num_items 0).0 e, rw (e, top))
    | inr e ↦ inr (
      h.links.slot 1,
      (1, omega arith, ground arith, refl),
      rw (e, top),
      λ x (k, lo, hi, s). rw (← s) (root_least h.val h.links h.num_items k v.ordered lo hi),
    )
  ]
