-- ===== src/CloseHashmap/Update.antt =====
-- Writes to one item of the table of close_hashmap.hpp.
use public_cpp.Base.{
  ℕ, ◌+◌, ◌<◌, ◌≡◌, refl, ◌∙◌, ◌≢◌, inl, inr, false, List, arith, set, get_or-set, length-set, ◌==◌,
  if◌then◌else◌, Bool-cases, ==_iff,
}
use public_cpp.CloseHashmap.{Key, Item, free, live, at, is_live, is_free, step}
use public_cpp.CloseHashmap.Probe.{Reaches, Reaches-mono}
use public_cpp.CloseHashmap.Invariant.{count_live, count_live-set, Stores, Lacks, home, IsTable}

module _ {ℓ} {K V : Type ℓ} ⦃key : Key K⦄ where
  module _ (size : ℕ) (items : List (Item K V)) (q : ℕ) (i : Item K V) (t : IsTable size items)
      (b : q < size) where
    pub at-set : (p : ℕ) → at (set items q i) p ≡ (if q == p then i else at items p)
    at-set p = get_or-set items q p i free (rw t.measured b)

    pub set-IsTable :
        is_free i ≡ false
        → ((k : K) (v : V)
            → i ≡ live k v
            → Reaches items size (step (home k size)) size (home k size) q)
        → ((p : ℕ) (k : K) (v w : V) → i ≡ live k v → at items p ≡ live k w → p ≡ q)
        → IsTable size (set items q i)
    set-IsTable n r u = record {
      measured = length-set items q i ∙ t.measured;
      reached = λ p k v e.
          let reach = reaches p k v e in
          Reaches-mono items (set items q i) size _ size _ p keep reach;
      unique = λ p p' k v w e e'.
          ground (arith, at-set p, at-set p', t.unique p p' k v w, u p k w v, u p' k v w);
    }
      where
        keep : (p : ℕ) → is_free (at items p) ≡ false → is_free (at (set items q i) p) ≡ false
        keep p h = rw (at-set p) (ground arith)

        reaches :
            (p : ℕ) (k : K) (v : V)
            → at (set items q i) p ≡ live k v
            → Reaches items size (step (home k size)) size (home k size) p
        reaches p k v e = elim (Bool-cases (q == p)) [
          | inl s ↦
              let same : q ≡ p = (==_iff q p).0 s in rw (← same) (r k v (ground (arith, at-set p)))
          | inr s ↦ t.reached p k v (ground (arith, at-set p))
        ]

    -- What stands elsewhere stays, and nothing else comes.
    pub set-keeps :
        (k : K) (v : V)
        → ((w : V) → at items q ≢ live k w)
        → Stores items k v
        → Stores (set items q i) k v
    set-keeps k v other (p, a) = (
      p,
      elim (Bool-cases (q == p)) [
        | inl s ↦ let same : q ≡ p = (==_iff q p).0 s in absurd (other v (rw same a))
        | inr s ↦ rw (at-set p, s) a
      ],
    )

    pub set-adds :
        (k : K) (v : V) → ((w : V) → i ≢ live k w) → Stores (set items q i) k v → Stores items k v
    set-adds k v other (p, a) = elim (Bool-cases (q == p)) [
      | inl s ↦ absurd (other v (ground (arith, at-set p)))
      | inr s ↦ (p, ground (arith, at-set p))
    ]

    pub set-Stores : (k : K) (v : V) → i ≡ live k v → Stores (set items q i) k v
    set-Stores k v e = (q, ground (arith, at-set q))

    pub set-count :
        count_live (set items q i) + (if is_live (at items q) then 1 else 0)
        ≡ count_live items + (if is_live i then 1 else 0)
    set-count = count_live-set items q i (rw t.measured b)

    -- A key that the table lacks can be written where its probes reach.
    pub new-IsTable :
        (k : K) (v : V)
        → i ≡ live k v
        → Lacks items k
        → Reaches items size (step (home k size)) size (home k size) q
        → IsTable size (set items q i)
    new-IsTable k v e l r =
        set-IsTable (rw e refl) (λ k' v' e'. let same : k ≡ k' = ground arith in rw (← same) r)
          (λ p k' v' w e' a. let same : k ≡ k' = ground arith in absurd (l p w (rw same a)))
