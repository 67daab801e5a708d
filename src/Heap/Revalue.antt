-- ===== src/Heap/Revalue.antt =====
-- `Update`, `UpdateTop`, `Refresh` and `RefreshTop` of heap.hpp.
use public_cpp.Base.{
  ℕ, ◌/◌, ◌≤◌, ◌<◌, ◌≡◌, ◌≢◌, ◌⊎◌, inl, inr, refl, ap, ◌∙◌, true, false, arith, ◌==◌, ==_iff,
  Bool-cases,
}
use public_cpp.Heap.{
  Less, Heap, update, ensure, adjusted, update_top_ready, update_item, update_top, refresh,
  refresh_top,
}
use public_cpp.Heap.Order.{ExceptAt}
use public_cpp.Heap.Adjust.{adjust_correct}
use public_cpp.Heap.Invariant.{IsHeap, Contains, place_of, ensure-init}

module _ {ℓ} {V : Type ℓ} ⦃less : Less V⦄ where
  -- The same items in order, with the value `v` at `n`.
  pub record Revalued (h : Heap V) (n : ℕ) (v : V) (r : Heap V) : Type ℓ where
    pub valid : IsHeap r
    pub counted : r.num_items ≡ h.num_items
    pub value : r.val n ≡ v
    pub others : (x : ℕ) → x ≢ n → r.val x ≡ h.val x
    pub kept : (x : ℕ) → Contains h x → Contains r x
    pub only : (x : ℕ) → Contains r x → Contains h x

  -- The heap with a value written through the pointer that `Item` gives.
  abbrev pub poke : Heap V → ℕ → V → Heap V
  poke h n v = record h { val = update h.val n v }

  poke-ExceptAt :
      (h : Heap V) (n i : ℕ) (v : V)
      → IsHeap h
      → h.links.slot i ≡ n
      → i ≤ h.num_items
      → ExceptAt (update h.val n v) h.links h.num_items i
  poke-ExceptAt h n i v w at hi = record {
    edges = λ c low high a b.
        ground (arith, w.sized, w.ordered c, w.whole.distinct c i, w.whole.distinct (c / 2) i);
    bridge = λ c high same above.
        let p = h.links.slot (i / 2) in
        ground (
          arith,
          w.sized,
          w.ordered c,
          w.ordered i,
          w.whole.distinct c i,
          w.whole.distinct (i / 2) i,
          less.before_trans (h.val p) (h.val (h.links.slot i)) (h.val (h.links.slot c)),
        );
  }

  -- `AdjustNode_` at the place of the item whose value was written.
  poked-Revalued :
      (h : Heap V) (n i : ℕ) (v : V)
      → IsHeap h
      → h.links.slot i ≡ n
      → 1 ≤ i
      → i ≤ h.num_items
      → Revalued h n v (adjusted (poke h n v) i)
  poked-Revalued h n i v w at lo hi =
      let s =
        adjust_correct (update h.val n v) h.num_items h.size_container i h.links w.sized lo w.whole
          (poke-ExceptAt h n i v w at hi) in
      record {
        valid = record { ready = w.ready; sized = w.sized; whole = s.whole; ordered = s.ordered };
        counted = refl;
        value = ground arith;
        others = λ x other. ground arith;
        kept = s.kept;
        only = s.only;
      }

  update-ready :
      (h : Heap V) (n : ℕ) (v : V)
      → update_item h n v ≡ adjusted (poke (ensure h) n v) ((ensure h).links.index n)
  unfolding update_item
  update-ready h n v = refl

  -- `Update` of an item gives it the value, keeps all else, and keeps the heap in order.
  pub update_item-Revalued :
      (h : Heap V) (n : ℕ) (v : V)
      → IsHeap (ensure h)
      → Contains (ensure h) n
      → Revalued (ensure h) n v (update_item h n v)
  update_item-Revalued h n v w m =
      let (at, lo, hi) = place_of (ensure h) n w m in
      rw (update-ready h n v) (poked-Revalued (ensure h) n ((ensure h).links.index n) v w at lo hi)

  refresh-ready :
      (h : Heap V) (n : ℕ) (v : V)
      → h.init ≡ true
      → refresh (poke h n v) n ≡ adjusted (poke h n v) (h.links.index n)
  refresh-ready h n v e =
      by_body (poke h n v) ∙ ap (λ t. adjusted t (t.links.index n)) (ensure-init (poke h n v) e)
    where
      by_body : (t : Heap V) → refresh t n ≡ adjusted (ensure t) ((ensure t).links.index n)
      by_body t = unfold refresh in refl

  -- `Refresh` of an item whose value was changed in place puts the heap in order again, with all
  -- items and values as they are then.
  pub refresh-Revalued :
      (h : Heap V) (n : ℕ) (v : V)
      → IsHeap h
      → Contains h n
      → Revalued h n v (refresh (poke h n v) n)
  refresh-Revalued h n v w m =
      let (at, lo, hi) = place_of h n w m in
      rw (refresh-ready h n v w.ready) (poked-Revalued h n (h.links.index n) v w at lo hi)

  -- `UpdateTop` gives the value to the item at the top, keeps all else, and keeps the heap in order;
  -- on an empty heap it does nothing.
  pub update_top-Revalued :
      (h : Heap V) (v : V)
      → IsHeap (ensure h)
      → (((ensure h).num_items ≡ 0) × (update_top h v ≡ ensure h))
        ⊎ Contains (ensure h) ((ensure h).links.slot 1)
          × Revalued (ensure h) ((ensure h).links.slot 1) v (update_top h v)
  update_top-Revalued h v w =
      let h₀ = ensure h in
      elim (Bool-cases (h₀.num_items == 0)) [
        | inl e ↦ inl ((==_iff h₀.num_items 0).0 e, by_body h ∙ empty h₀ e)
        | inr e ↦ inr (
          (1, omega arith, ground arith, refl),
          rw (by_body h ∙ full h₀ e)
              (poked-Revalued h₀ (h₀.links.slot 1) 1 v w refl (omega arith) (ground arith)),
        )
      ]
    where
      by_body : (t : Heap V) → update_top t v ≡ update_top_ready (ensure t) v
      by_body t = unfold update_top in refl

      empty : (t : Heap V) → (t.num_items == 0) ≡ true → update_top_ready t v ≡ t
      empty t e = unfold update_top_ready in rw (e, update_top_ready)

      full :
          (t : Heap V)
          → (t.num_items == 0) ≡ false
          → update_top_ready t v ≡ adjusted (poke t (t.links.slot 1) v) 1
      full t e = unfold update_top_ready in rw (e, update_top_ready)

  -- `RefreshTop` does for the item at the top what `Refresh` does.
  pub refresh_top-Revalued :
      (h : Heap V) (v : V)
      → IsHeap h
      → 0 < h.num_items
      → Revalued h (h.links.slot 1) v (refresh_top (poke h (h.links.slot 1) v))
  refresh_top-Revalued h v w pos =
      rw
        (by_body (poke h (h.links.slot 1) v)
          ∙ ap (λ t. adjusted t 1) (ensure-init (poke h (h.links.slot 1) v) w.ready))
        (poked-Revalued h (h.links.slot 1) 1 v w refl (omega arith) (omega arith))
    where
      by_body : (t : Heap V) → refresh_top t ≡ adjusted (ensure t) 1
      by_body t = unfold refresh_top in refl
