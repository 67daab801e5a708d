-- ===== src/Heap/Down.antt =====
-- The loop downwards of heap.hpp.
use public_cpp.Base.{
  ℕ, zero, suc, ◌+◌, ◌*◌, ◌/◌, ◌≤◌, ◌<◌, ◌≡◌, ◌≢◌, inl, inr, arith, leb, Bool-cases,
}
use public_cpp.Heap.{Less, Links, link, min_child, down_loop}
use public_cpp.Heap.Moves.{IsLinked, move-IsLinked, move-Has, move-Has_back}
use public_cpp.Heap.Order.{NotAfter, NotAfter-refl, DownInv}
use public_cpp.Heap.Up.{Sifted}

module _ {ℓ} {V : Type ℓ} ⦃less : Less V⦄ where
  -- The chosen child is one of the two, and the other does not come before it.
  min_child_lem :
      (val : ℕ → V) (num : ℕ) (a : Links) (i : ℕ)
      → 1 ≤ i
      → 2 * i ≤ num
      → (min_child val num a i / 2 ≡ i)
        × (min_child val num a i ≤ num)
        × ((c : ℕ)
            → c ≤ num
            → c / 2 ≡ i
            → NotAfter (val (a.slot (min_child val num a i))) (val (a.slot c)))
  unfolding min_child
  min_child_lem val num a i lo h = (
    ground arith,
    ground arith,
    λ c hi same. ground (
      arith,
      less.before_asymm (val (a.slot (2 * i))) (val (a.slot (2 * i + 1))),
      NotAfter-refl (val (a.slot c)),
    ),
  )

  -- One round downwards: the hole moves from `i` to its child `m`.
  module _ (val : ℕ → V) (num i m n : ℕ) (a : Links) (lo : 1 ≤ i) (child : m / 2 ≡ i) (hi : m ≤ num)
      (least : (c : ℕ) → c ≤ num → c / 2 ≡ i → NotAfter (val (a.slot m)) (val (a.slot c)))
      (b : NotAfter (val (a.slot m)) (val n)) (u : DownInv val (link a i n) num i) where
    down-DownInv : DownInv val (link (link a i (a.slot m)) m n) num m
    down-DownInv = record {
      edges = λ c one high other. ground (arith, u.edges c, u.bridge m, least c);
      bridge = λ c high same above. ground (arith, u.edges c);
    }

  -- From an order with a hole at `i` the loop ends in an order, with the node in its place.
  pub down_loop-Sifted :
      (val : ℕ → V) (fuel num size : ℕ) (a : Links) (i n : ℕ)
      → num < size
      → num ≤ fuel + i
      → 1 ≤ i
      → i ≤ num
      → IsLinked num size (link a i n)
      → DownInv val (link a i n) num i
      → Sifted val num size (link a i n) (down_loop val fuel num a i n)
  unfolding down_loop
  down_loop-Sifted val zero num size a i n below f lo hi t u = record {
    whole = t;
    ordered = λ c lo' hi'. u.edges c lo' hi' (omega arith);
    kept = λ x h. h;
    only = λ x h. h;
  }
  down_loop-Sifted val (suc fuel) num size a i n below f lo hi t u =
      elim (Bool-cases (leb (2 * i) num)) [
        | inr e ↦
            rw (e, down_loop)
              (record {
                whole = t;
                ordered = λ c lo' hi'. u.edges c lo' hi' (ground arith);
                kept = λ x h. h;
                only = λ x h. h;
              })
        | inl e ↦
            let m = min_child val num a i in
            let (child, hi', least) = min_child_lem val num a i lo (ground arith) in
            elim (Bool-cases (less.before (val n) (val (a.slot m)))) [
              | inl b ↦
                  rw (e, b, down_loop)
                    (record {
                      whole = t;
                      ordered = λ c one high. ground (
                        arith,
                        u.edges c,
                        least c,
                        less.before_asymm (val n) (val (a.slot m)),
                        less.before_trans (val n) (val (a.slot m)) (val (a.slot c)),
                      );
                      kept = λ x h. h;
                      only = λ x h. h;
                    })
              | inr b ↦
                  let apart : i ≢ m = omega arith in
                  let lo' : 1 ≤ m = omega arith in
                  let s =
                    down_loop-Sifted val fuel num size (link a i (a.slot m)) m n below (omega arith)
                      lo' hi' (move-IsLinked num size i m n a below lo hi lo' hi' apart t)
                      (down-DownInv val num i m n a lo child hi' least b u) in
                  rw (e, b, down_loop)
                    (record {
                      whole = s.whole;
                      ordered = s.ordered;
                      kept =
                          λ x h. s.kept x (move-Has num size i m n a below lo hi lo' hi' apart x h);
                      only = λ x h.
                          move-Has_back num size i m n a below lo hi lo' hi' apart x (s.only x h);
                    })
            ]
      ]
