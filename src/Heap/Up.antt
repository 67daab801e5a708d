-- ===== src/Heap/Up.antt =====
-- The loop upwards of heap.hpp.
use public_cpp.Base.{
  ℕ, zero, suc, ◌/◌, ◌≤◌, ◌<◌, ◌≡◌, ◌≢◌, inl, inr, true, false, arith, Bool-cases,
}
use public_cpp.Heap.{Less, Links, link, rises, up_loop}
use public_cpp.Heap.Moves.{IsLinked, Has, move-IsLinked, move-Has, move-Has_back}
use public_cpp.Heap.Order.{NotAfter, IsOrdered, UpInv}

module _ {ℓ} {V : Type ℓ} ⦃less : Less V⦄ where
  -- An ordered heap of the nodes that `a` holds.
  pub record Sifted (val : ℕ → V) (num size : ℕ) (a r : Links) : Type 0 where
    pub whole : IsLinked num size r
    pub ordered : IsOrdered val r num
    pub kept : (x : ℕ) → Has num a x → Has num r x
    pub only : (x : ℕ) → Has num r x → Has num a x

  pub rises-parts :
      (val : ℕ → V) (a : Links) (i n : ℕ)
      → rises val a i n ≡ true
      → (1 < i) × (less.before (val n) (val (a.slot (i / 2))) ≡ true)
  unfolding rises
  rises-parts val a i n e = ground arith

  pub rises-not :
      (val : ℕ → V) (a : Links) (i n : ℕ)
      → rises val a i n ≡ false
      → 1 < i
      → NotAfter (val (a.slot (i / 2))) (val n)
  unfolding rises
  rises-not val a i n e h = ground arith

  -- One round upwards: the hole moves from `i` to its parent.
  module _ (val : ℕ → V) (num i n : ℕ) (a : Links) (one : 1 < i)
      (b : less.before (val n) (val (a.slot (i / 2))) ≡ true)
      (u : UpInv val (link a i n) num i) where
    up-UpInv : UpInv val (link (link a i (a.slot (i / 2))) (i / 2) n) num (i / 2)
    up-UpInv = record {
      edges = λ c lo hi other. ground (
        arith,
        u.edges c,
        u.bridge c,
        less.before_asymm (val n) (val (a.slot (i / 2))) b,
        less.before_trans (val n) (val (a.slot (i / 2))) (val (a.slot c)),
      );
      bridge = λ c hi same above. ground (
        arith,
        u.edges c,
        u.edges (i / 2),
        less.before_trans (val (a.slot (i / 2 / 2))) (val (a.slot (i / 2))) (val (a.slot c)),
      );
    }

  -- From an order with a hole at `i` the loop ends in an order, with the node in its place.
  pub up_loop-Sifted :
      (val : ℕ → V) (fuel num size : ℕ) (a : Links) (i n : ℕ)
      → num < size
      → i ≤ fuel
      → 1 ≤ i
      → i ≤ num
      → IsLinked num size (link a i n)
      → UpInv val (link a i n) num i
      → Sifted val num size (link a i n) (up_loop val fuel a i n)
  unfolding up_loop
  up_loop-Sifted val zero num size a i n below f lo hi t u = absurd (omega arith)
  up_loop-Sifted val (suc fuel) num size a i n below f lo hi t u =
      elim (Bool-cases (rises val a i n)) [
        | inr e ↦
            rw (e, up_loop)
              (record {
                whole = t;
                ordered = λ c lo' hi'. ground (arith, u.edges c, rises-not val a i n e);
                kept = λ x h. h;
                only = λ x h. h;
              })
        | inl e ↦
            let (one, b) = rises-parts val a i n e in
            let m = i / 2 in
            let apart : i ≢ m = omega arith in
            let lo' : 1 ≤ m = omega arith in
            let hi' : m ≤ num = omega arith in
            let s =
              up_loop-Sifted val fuel num size (link a i (a.slot m)) m n below (omega arith) lo' hi'
                (move-IsLinked num size i m n a below lo hi lo' hi' apart t)
                (up-UpInv val num i n a one b u) in
            rw (e, up_loop)
              (record {
                whole = s.whole;
                ordered = s.ordered;
                kept = λ x h. s.kept x (move-Has num size i m n a below lo hi lo' hi' apart x h);
                only =
                    λ x h. move-Has_back num size i m n a below lo hi lo' hi' apart x (s.only x h);
              })
      ]
