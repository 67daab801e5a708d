-- ===== src/Heap/Insert.antt =====
-- `Insert` of heap.hpp.
use public_cpp.Base.{
  ℕ, ◌+◌, ◌*◌, ◌/◌, ◌≤◌, ◌<◌, ◌≡◌, ◌≢◌, ◌⊎◌, inl, inr, refl, arith, ◌==◌, ==_iff, if◌then◌else◌,
  Bool-cases,
}
use public_cpp.Heap.{Less, Heap, link, update, ensure, resize, insert, up_loop}
use public_cpp.Heap.Moves.{IsLinked, Has}
use public_cpp.Heap.Order.{UpInv}
use public_cpp.Heap.Up.{up_loop-Sifted}
use public_cpp.Heap.Invariant.{IsHeap, Contains, resize-IsHeap}

module _ {ℓ} {V : Type ℓ} ⦃less : Less V⦄ where
  -- What `Insert` returns: a heap with one more item, and that item as the sign; the array has twice
  -- the size where the new item would have taken its last place.
  pub record Inserted (h : Heap V) (v : V) (r : Heap V × ℕ) : Type ℓ where
    pub valid : IsHeap r.0
    pub counted : r.0.num_items ≡ h.num_items + 1
    pub size :
        r.0.size_container
        ≡ (if h.num_items + 1 == h.size_container then 2 * h.size_container else h.size_container)
    pub fresh : ¬ Contains h r.1
    pub added : Contains r.0 r.1
    pub value : r.0.val r.1 ≡ v
    pub kept : (x : ℕ) → Contains h x → Contains r.0 x
    pub only : (x : ℕ) → Contains r.0 x → (x ≡ r.1) ⊎ Contains h x
    pub others : (x : ℕ) → Contains h x → r.0.val x ≡ h.val x

  -- The part of `Insert` behind the test for a full array.
  abbrev placed : Heap V → V → Heap V × ℕ
  placed h v =
      let num = h.num_items + 1 in
      let n = h.links.slot num in
      (
        record h {
          num_items = num;
          val = update h.val n v;
          links = up_loop (update h.val n v) num h.links num n;
        },
        n,
      )

  module _ (h : Heap V) (v : V) (valid : IsHeap h)
      (roomy : h.num_items + 1 < h.size_container) where
    apart : (k : ℕ) → k ≤ h.num_items → h.links.slot k ≢ h.links.slot (h.num_items + 1)
    apart k p e =
        let same = valid.whole.distinct k (h.num_items + 1) (omega arith) roomy e in
        absurd (omega arith)

    hole-IsLinked :
        IsLinked
          (h.num_items + 1)
          h.size_container
          (link h.links (h.num_items + 1) (h.links.slot (h.num_items + 1)))
    hole-IsLinked =
        let i = h.num_items + 1 in
        record {
          linked = λ k lo hi. ground (arith, valid.whole.linked k, apart k);
          distinct = λ k l p q.
              ground (
                arith,
                valid.whole.distinct k l,
                valid.whole.distinct i k,
                valid.whole.distinct i l,
              );
          bounded = λ k p. ground (arith, valid.whole.bounded k);
        }

    hole-UpInv :
        UpInv
          (update h.val (h.links.slot (h.num_items + 1)) v)
          (link h.links (h.num_items + 1) (h.links.slot (h.num_items + 1)))
          (h.num_items + 1)
          (h.num_items + 1)
    hole-UpInv = record {
      edges = λ c lo hi other. ground (arith, valid.ordered c, apart c, apart (c / 2));
      bridge = λ c hi same above. absurd (omega arith);
    }

    placed-Inserted : Inserted h v (placed h v)
    placed-Inserted =
        let num = h.num_items + 1 in
        let n = h.links.slot num in
        let val = update h.val n v in
        let s =
          up_loop-Sifted val num num h.size_container h.links num n roomy (omega arith)
            (omega arith) (omega arith) hole-IsLinked hole-UpInv in
        record {
          valid = record {
            ready = valid.ready;
            sized = roomy;
            whole = s.whole;
            ordered = s.ordered;
          };
          counted = refl;
          size = ground arith;
          fresh = λ (k, lo, hi, e). apart k hi e;
          added = s.kept n (num, omega arith, omega arith, ground arith);
          value = ground arith;
          kept = λ x (k, lo, hi, e). s.kept x (k, lo, omega arith, ground arith);
          only = λ x m. within x (s.only x m);
          others = λ x (k, lo, hi, e). ground (arith, apart k);
        }
      where
        within :
            (x : ℕ)
            → Has
                (h.num_items + 1)
                (link h.links (h.num_items + 1) (h.links.slot (h.num_items + 1)))
                x
            → (x ≡ h.links.slot (h.num_items + 1)) ⊎ Contains h x
        within x (k, lo, hi, e) = elim (Bool-cases (k == h.num_items + 1)) [
          | inl s ↦ inl (ground arith)
          | inr s ↦ inr (k, lo, ground arith, ground arith)
        ]

  resize-Contains : (h : Heap V) (x : ℕ) → IsHeap h → Contains h x → Contains (resize h) x
  unfolding resize
  resize-Contains h x v (k, lo, hi, e) = (k, lo, hi, ground (arith, v.sized))

  resize-Contains_back : (h : Heap V) (x : ℕ) → IsHeap h → Contains (resize h) x → Contains h x
  unfolding resize
  resize-Contains_back h x v (k, lo, hi, e) = (k, lo, hi, ground (arith, v.sized))

  resized-Inserted :
      (h : Heap V) (v : V) (r : Heap V × ℕ)
      → IsHeap h
      → h.num_items + 1 ≡ h.size_container
      → Inserted (resize h) v r
      → Inserted h v r
  unfolding resize
  resized-Inserted h v r w full i = record {
    valid = i.valid;
    counted = i.counted;
    size = ground (arith, i.size, full);
    fresh = λ m. i.fresh (resize-Contains h r.1 w m);
    added = i.added;
    value = i.value;
    kept = λ x m. i.kept x (resize-Contains h x w m);
    only = λ x m. elim (i.only x m) [ inl e ↦ inl e | inr b ↦ inr (resize-Contains_back h x w b) ];
    others = λ x m. i.others x (resize-Contains h x w m);
  }

  insert-placed :
      (h : Heap V) (v : V)
      → insert h v
        ≡ placed
            (if (ensure h).num_items + 1 == (ensure h).size_container
              then resize (ensure h)
              else ensure h)
            v
  unfolding insert
  insert-placed h v = refl

  pub insert-Inserted :
      (h : Heap V) (v : V) → IsHeap (ensure h) → Inserted (ensure h) v (insert h v)
  insert-Inserted h v w =
      let h₀ = ensure h in
      elim (Bool-cases (h₀.num_items + 1 == h₀.size_container)) [
        | inl e ↦
            let full = (==_iff _ _).0 e in
            let (w', roomy) = resize-IsHeap h₀ w full in
            rw (insert-placed h v, e)
              (resized-Inserted h₀ v _ w full (placed-Inserted (resize h₀) v w' roomy))
        | inr e ↦ rw (insert-placed h v, e) (placed-Inserted h₀ v w (ground (arith, w.sized)))
      ]
