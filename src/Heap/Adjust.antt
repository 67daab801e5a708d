-- ===== src/Heap/Adjust.antt =====
-- `AdjustNode_` of heap.hpp.
use public_cpp.Base.{ℕ, suc, ◌/◌, ◌≤◌, ◌<◌, ◌≡◌, inl, inr, true, false, arith, ltb, Bool-cases}
use public_cpp.Heap.{Less, Links, link, rises, up_loop, down_loop, adjust_node}
use public_cpp.Heap.Moves.{IsLinked, Has}
use public_cpp.Heap.Order.{UpInv, DownInv, ExceptAt}
use public_cpp.Heap.Up.{Sifted, rises-parts, rises-not, up_loop-Sifted}
use public_cpp.Heap.Down.{down_loop-Sifted}

-- Writing a node where it stands changes nothing.
module _ (num size i : ℕ) (a : Links) (hi : i ≤ num) (lo : 1 ≤ i) (below : num < size)
    (t : IsLinked num size a) where
  again-IsLinked : IsLinked num size (link a i (a.slot i))
  again-IsLinked = record {
    linked = λ k low high. ground (arith, t.linked k, t.distinct i k);
    distinct = λ k l p q. ground (arith, t.distinct k l, t.distinct i k, t.distinct i l);
    bounded = λ k p. ground (arith, t.bounded k);
  }

  again-Has : (x : ℕ) → Has num a x → Has num (link a i (a.slot i)) x
  again-Has x (k, low, high, e) = (k, low, high, ground arith)

  again-Has_back : (x : ℕ) → Has num (link a i (a.slot i)) x → Has num a x
  again-Has_back x (k, low, high, e) = (k, low, high, ground arith)

module _ {ℓ} {V : Type ℓ} ⦃less : Less V⦄ (val : ℕ → V) where
  module _ (num i : ℕ) (a : Links) (x : ExceptAt val a num i) where
    rising-UpInv : rises val a i (a.slot i) ≡ true → UpInv val (link a i (a.slot i)) num i
    rising-UpInv e =
        let (one, b) = rises-parts val a i (a.slot i) e in
        let n = val (a.slot i) in
        let p = val (a.slot (i / 2)) in
        record {
          edges = λ c low high other. ground (
            arith,
            x.edges c,
            x.bridge c,
            less.before_asymm n p b,
            less.before_trans n p (val (a.slot c)),
          );
          bridge = λ c high same above. ground (arith, x.bridge c);
        }

    resting-DownInv : rises val a i (a.slot i) ≡ false → DownInv val (link a i (a.slot i)) num i
    resting-DownInv e = record {
      edges = λ c low high other. ground (arith, x.edges c, rises-not val a i (a.slot i) e);
      bridge = λ c high same above. ground (arith, x.bridge c);
    }

  adjust-up :
      (num i : ℕ) (a : Links)
      → i ≤ num
      → rises val a i (a.slot i) ≡ true
      → adjust_node val num a i ≡ up_loop val (suc i) a i (a.slot i)
  unfolding adjust_node
  adjust-up num i a h e = ground arith

  adjust-down :
      (num i : ℕ) (a : Links)
      → i ≤ num
      → rises val a i (a.slot i) ≡ false
      → adjust_node val num a i ≡ down_loop val num num a i (a.slot i)
  unfolding adjust_node
  adjust-down num i a h e = ground arith

  adjust-above : (num i : ℕ) (a : Links) → num < i → adjust_node val num a i ≡ a
  unfolding adjust_node
  adjust-above num i a h = ground arith

  -- A heap in order but for the edges of one place is put in order, with the same nodes.
  pub adjust_correct :
      (num size i : ℕ) (a : Links)
      → num < size
      → 1 ≤ i
      → IsLinked num size a
      → ExceptAt val a num i
      → Sifted val num size a (adjust_node val num a i)
  adjust_correct num size i a below lo t x = elim (Bool-cases (ltb num i)) [
    | inl e ↦ rw (adjust-above num i a (ground arith)) (record {
      whole = t;
      ordered = λ c low high. x.edges c low high (ground arith) (ground arith);
      kept = λ y h. h;
      only = λ y h. h;
    })
    | inr e ↦
        let hi : i ≤ num = ground arith in
        let n = a.slot i in
        let t' = again-IsLinked num size i a hi lo below t in
        let finish = finish_from hi in
        elim (Bool-cases (rises val a i n)) [
          | inl r ↦ rw (adjust-up num i a hi r) (
              finish _ (
                up_loop-Sifted val (suc i) num size a i n below (omega arith) lo hi t'
                  (rising-UpInv num i a x r)))
          | inr r ↦ rw (adjust-down num i a hi r) (
              finish _ (
                down_loop-Sifted val num num size a i n below (omega arith) lo hi t'
                  (resting-DownInv num i a x r)))
        ]
  ]
    where
      finish_from :
          i ≤ num
          → (r : Links) → Sifted val num size (link a i (a.slot i)) r
          → Sifted val num size a r
      finish_from hi r s = record {
        whole = s.whole;
        ordered = s.ordered;
        kept = λ y h. s.kept y (again-Has num size i a hi lo below t y h);
        only = λ y h. again-Has_back num size i a hi lo below t y (s.only y h);
      }
