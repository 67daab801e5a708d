-- ===== src/Heap/Moves.antt =====
-- The pointers of heap.hpp: every node knows its place, and no node stands twice.
use public_cpp.Base.{ℕ, ◌≤◌, ◌<◌, ◌≡◌, ◌≢◌, inl, inr, arith, ◌==◌, if◌then◌else◌, Bool-cases}
use public_cpp.Heap.{Links, link}

-- Of the `size` places those from 1 to `num` are in use.
pub record IsLinked (num size : ℕ) (a : Links) : Type 0 where
  pub linked : (k : ℕ) → 1 ≤ k → k ≤ num → a.index (a.slot k) ≡ k
  pub distinct : (k l : ℕ) → k < size → l < size → a.slot k ≡ a.slot l → k ≡ l
  pub bounded : (k : ℕ) → k < size → a.slot k < size

-- The node stands in the heap.
abbrev pub Has : ℕ → Links → ℕ → Type 0
Has num a n = (k : ℕ) × (1 ≤ k) × (k ≤ num) × (a.slot k ≡ n)

-- Moving the node of `j` to `i`, and writing `n` to `j` instead of `i`, exchanges two nodes.
module _ (num size i j n : ℕ) (a : Links) (below : num < size) (hi : 1 ≤ i) (hi' : i ≤ num)
    (hj : 1 ≤ j) (hj' : j ≤ num) (apart : i ≢ j) where
  abbrev pub before_move : Links
  before_move = link a i n

  abbrev pub after_move : Links
  after_move = link (link a i (a.slot j)) j n

  pub move-slot :
      (k : ℕ)
      → after_move.slot k
        ≡ (if k == j then n else if k == i then before_move.slot j else before_move.slot k)
  move-slot k = ground arith

  pub move-IsLinked : IsLinked num size before_move → IsLinked num size after_move
  move-IsLinked t = record {
    linked = λ k lo hi. ground (arith, t.linked k, t.distinct k i, t.distinct k j, t.distinct i j);
    distinct = λ k l p q. ground (
      arith,
      t.distinct k l,
      t.distinct k i,
      t.distinct k j,
      t.distinct i l,
      t.distinct j l,
      t.distinct i j,
    );
    bounded = λ k p. ground (arith, t.bounded k, t.bounded i, t.bounded j);
  }

  pub move-Has : (x : ℕ) → Has num before_move x → Has num after_move x
  move-Has x (k, low, high, e) = elim (Bool-cases (k == i)) [
    | inl s ↦ (j, hj, hj', ground arith)
    | inr s ↦ elim (Bool-cases (k == j)) [
      | inl s' ↦ (i, hi, hi', ground arith)
      | inr s' ↦ (k, low, high, ground arith)
    ]
  ]

  pub move-Has_back : (x : ℕ) → Has num after_move x → Has num before_move x
  move-Has_back x (k, low, high, e) = elim (Bool-cases (k == i)) [
    | inl s ↦ (j, hj, hj', ground arith)
    | inr s ↦ elim (Bool-cases (k == j)) [
      | inl s' ↦ (i, hi, hi', ground arith)
      | inr s' ↦ (k, low, high, ground arith)
    ]
  ]
