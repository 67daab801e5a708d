-- ===== src/Heap/Erase.antt =====
-- `Erase` and `Pop` of heap.hpp.
use public_cpp.Base.{
  ℕ, ◌+◌, ◌-◌, ◌/◌, ◌≤◌, ◌≡◌, ◌≢◌, ◌⊎◌, inl, inr, refl, ap, ◌∙◌, some, true, false, arith, ◌==◌,
  ==_iff, Bool-cases,
}
use public_cpp.Heap.{
  Less, Links, Heap, update, ensure, erase, erase_ready, pop, top, adjusted, unlink,
}
use public_cpp.Heap.Moves.{IsLinked, Has}
use public_cpp.Heap.Order.{NotAfter, ExceptAt, root_least}
use public_cpp.Heap.Adjust.{adjust_correct}
use public_cpp.Heap.Invariant.{IsHeap, Contains, place_of, ensure-ready}

unlink-index : (a : Links) (num n : ℕ) → (unlink a num n).index n ≡ a.index n
unfolding unlink
unlink-index a num n = ground arith

module _ {ℓ} {V : Type ℓ} ⦃less : Less V⦄ where
  -- What `Erase` of the item `n` leaves.
  pub record Erased (h : Heap V) (n : ℕ) (r : Heap V) : Type ℓ where
    pub valid : IsHeap r
    pub counted : h.num_items ≡ r.num_items + 1
    pub gone : ¬ Contains r n
    pub kept : (x : ℕ) → Contains h x → x ≢ n → Contains r x
    pub only : (x : ℕ) → Contains r x → Contains h x
    pub values : (x : ℕ) → r.val x ≡ h.val x

  module _ (h : Heap V) (n : ℕ) (v : IsHeap h) (i : ℕ) (at : h.links.slot i ≡ n) (lo : 1 ≤ i)
      (hi : i ≤ h.num_items) where
    -- The links between the writes of `Erase` and its call of `AdjustNode_`.
    abbrev cut : Links
    cut =
        let slot = update (update h.links.slot i (h.links.slot h.num_items)) h.num_items n in
        record { slot = slot; index = update h.links.index (slot i) i }

    cut-IsLinked : IsLinked (h.num_items - 1) h.size_container cut
    cut-IsLinked =
        let num = h.num_items in
        let w = v.whole in
        record {
          linked = λ k low high.
              ground
                (arith, v.sized, w.linked k, w.distinct k num, w.distinct k i, w.distinct i num);
          distinct = λ k l p q s. ground (
            arith,
            v.sized,
            w.distinct k l,
            w.distinct k i,
            w.distinct k num,
            w.distinct i l,
            w.distinct num l,
            w.distinct i num,
          );
          bounded = λ k p. ground (arith, v.sized, w.bounded k, w.bounded i, w.bounded num);
        }

    cut-ExceptAt : ExceptAt h.val cut (h.num_items - 1) i
    cut-ExceptAt = record {
      edges = λ c low high a b. ground (arith, v.ordered c);
      bridge = λ c high same above.
          let p = h.links.slot (i / 2) in
          ground (
            arith,
            v.ordered c,
            v.ordered i,
            less.before_trans (h.val p) (h.val (h.links.slot i)) (h.val (h.links.slot c)),
          );
    }

    cut-kept : (x : ℕ) → Contains h x → x ≢ n → Has (h.num_items - 1) cut x
    cut-kept x (k, low, high, e) other = elim (Bool-cases (k == h.num_items)) [
      | inl s ↦ (i, lo, ground arith, ground arith)
      | inr s ↦ (k, low, ground arith, ground arith)
    ]

    cut-only : (x : ℕ) → Has (h.num_items - 1) cut x → Contains h x × (x ≢ n)
    cut-only x (k, low, high, e) = elim (Bool-cases (k == i)) [
      | inl s ↦ (
        (h.num_items, omega arith, omega arith, ground arith),
        λ same. ground (arith, v.sized, v.whole.distinct i h.num_items),
      )
      | inr s ↦ (
        (k, low, omega arith, ground arith),
        λ same. ground (arith, v.sized, v.whole.distinct k i),
      )
    ]

  erase_ready-unlink :
      (h : Heap V) (n : ℕ)
      → (h.num_items == 0) ≡ false
      → erase_ready h n
        ≡ adjusted
            (record h { num_items = h.num_items - 1; links = unlink h.links h.num_items n })
            ((unlink h.links h.num_items n).index n)
  unfolding erase_ready
  erase_ready-unlink h n pos = rw (pos, erase_ready)

  erase_ready-Erased : (h : Heap V) (n : ℕ) → IsHeap h → Contains h n → Erased h n (erase_ready h n)
  unfolding unlink
  erase_ready-Erased h n v m =
      let (at, lo, hi) = place_of h n v m in
      let i = h.links.index n in
      let num = h.num_items - 1 in
      let s =
        adjust_correct h.val num h.size_container i (cut h n v i at lo hi) (omega (arith, v.sized))
          lo (cut-IsLinked h n v i at lo hi) (cut-ExceptAt h n v i at lo hi) in
      rw (erase_ready-unlink h n (ground arith), unlink-index h.links h.num_items n)
        (record {
          valid = record {
            ready = v.ready;
            sized = omega (arith, v.sized);
            whole = s.whole;
            ordered = s.ordered;
          };
          counted = omega arith;
          gone = λ c. (cut-only h n v i at lo hi n (s.only n c)).1 refl;
          kept = λ x c other. s.kept x (cut-kept h n v i at lo hi x c other);
          only = λ x c. (cut-only h n v i at lo hi x (s.only x c)).0;
          values = λ x. refl;
        })

  erase-ready : (h : Heap V) (n : ℕ) → erase h n ≡ erase_ready (ensure h) n
  unfolding erase
  erase-ready h n = refl

  -- `Erase` of an item removes exactly it, keeps every other with its value, and keeps the heap in
  -- order.
  pub erase-Erased :
      (h : Heap V) (n : ℕ)
      → IsHeap (ensure h)
      → Contains (ensure h) n
      → Erased (ensure h) n (erase h n)
  erase-Erased h n v m = rw (erase-ready h n) (erase_ready-Erased (ensure h) n v m)

  pop-ready :
      (h : Heap V) → IsHeap (ensure h) → pop h ≡ erase_ready (ensure h) ((ensure h).links.slot 1)
  pop-ready h v =
      pop-erase h ∙ erase-ready (ensure h) n ∙ ap (λ t. erase_ready t n) (ensure-ready (ensure h) v)
    where
      n : ℕ
      n = (ensure h).links.slot 1

      pop-erase : (h : Heap V) → pop h ≡ erase (ensure h) ((ensure h).links.slot 1)
      pop-erase h = unfold pop in refl

  -- `Pop` of a heap that is not empty removes the item of `Top`: exactly one item, before whose value
  -- no item's value comes. A `Pop` of an empty heap changes nothing.
  pub pop-Erased :
      (h : Heap V)
      → IsHeap (ensure h)
      → (((ensure h).num_items ≡ 0) × (pop h ≡ ensure h))
        ⊎ ((n : ℕ) × (top (ensure h) ≡ some ((ensure h).val n))
            × Contains (ensure h) n
            × ((x : ℕ) → Contains (ensure h) x → NotAfter ((ensure h).val n) ((ensure h).val x))
            × Erased (ensure h) n (pop h))
  pop-Erased h v =
      let h₀ = ensure h in
      let n = h₀.links.slot 1 in
      elim (Bool-cases (h₀.num_items == 0)) [
        | inl e ↦ inl ((==_iff h₀.num_items 0).0 e, pop-ready h v ∙ erase_ready-empty h₀ n e)
        | inr e ↦
            let in_heap : Contains h₀ n = (1, omega arith, ground arith, refl) in
            inr (
              n,
              top-root h₀ e,
              in_heap,
              λ x (k, lo, hi, s).
                  rw (← s) (root_least h₀.val h₀.links h₀.num_items k v.ordered lo hi),
              rw (pop-ready h v) (erase_ready-Erased h₀ n v in_heap),
            )
      ]
    where
      erase_ready-empty : (h : Heap V) (n : ℕ) → (h.num_items == 0) ≡ true → erase_ready h n ≡ h
      erase_ready-empty h n e = unfold erase_ready in rw (e, erase_ready)

      top-root : (h : Heap V) → (h.num_items == 0) ≡ false → top h ≡ some (h.val (h.links.slot 1))
      top-root h e = unfold top in rw (e, top)
