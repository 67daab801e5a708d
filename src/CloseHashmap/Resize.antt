-- ===== src/CloseHashmap/Resize.antt =====
-- `Resize` of close_hashmap.hpp: every live item is placed anew in a longer array.
use public_cpp.Base.{
  ℕ, zero, suc, ◌+◌, ◌≤◌, ◌<◌, ◌≡◌, refl, ◌≢◌, ◌⊎◌, inl, inr, true, false, List, [], ◌∷◌, some,
  arith, get_or, set, replicate, length-replicate, get_or-replicate, ◌==◌, Bool-cases,
}
use public_cpp.CloseHashmap.{
  Key, Item, free, live, dead, Map, at, is_live, is_free, step, get, probe_not_live, place,
  move_items, new_size, resize,
}
use public_cpp.CloseHashmap.Probe.{Reaches, probe_not_live-some, probe_free-eq}
use public_cpp.CloseHashmap.Invariant.{
  Covers, count_live, count_live-le, not_live_exists, Stores, Lacks, home, IsTable, IsValid, get-eq,
}
use public_cpp.CloseHashmap.Update.{at-set, set-keeps, set-count, new-IsTable}

pub count_live-replicate {ℓ} :
    (K V : Type ℓ) (n : ℕ) → count_live (replicate {A = Item K V} n free) ≡ 0
unfolding count_live replicate
count_live-replicate K V zero = refl
count_live-replicate K V (suc n) = count_live-replicate K V n

module _ {ℓ} {K V : Type ℓ} where
  abbrev pub HasNoDead : List (Item K V) → Type 0
  HasNoDead items = (q : ℕ) → (is_free (at items q) ≡ true) ⊎ (is_live (at items q) ≡ true)

  abbrev pub IsOnceEach : List (Item K V) → Type ℓ
  IsOnceEach items =
      (p q : ℕ) (k : K) (v w : V) → at items p ≡ live k v → at items q ≡ live k w → p ≡ q

module _ {ℓ} {K V : Type ℓ} ⦃key : Key K⦄ where
  module _ (size : ℕ) (items : List (Item K V)) (s : 0 < size) (c : Covers size)
      (t : IsTable size items) where
    -- A table with room has an item that the probes for a key reach and that is not live.
    pub room :
        (k : K)
        → count_live items < size
        → (q : ℕ) × (probe_not_live items size (step (home k size)) size (home k size) ≡ some q)
          × (is_live (at items q) ≡ false)
          × (q < size)
          × Reaches items size (step (home k size)) size (home k size) q
    room k h =
        let (p, b, n) = not_live_exists items (rw t.measured h) in
        let in_range : home k size < size = omega arith in
        probe_not_live-some items size (step (home k size)) size (home k size) p s in_range
          (c (home k size) p in_range (rw t.measured at b)) n

  place-eq :
      (size : ℕ) (k : K) (v : V) (items : List (Item K V)) {q : ℕ}
      → 0 < size
      → HasNoDead items
      → probe_not_live items size (step (home k size)) size (home k size) ≡ some q
      → place size k v items ≡ set items q (live k v)
  unfolding place probe_not_live
  place-eq zero k v items s d e = absurd (omega arith)
  place-eq (suc n) k v items s d e =
      let pos = home k (suc n) in
      ground (arith, d pos, probe_free-eq items (suc n) (step pos) n pos d)

  -- What moving the items `old` into `items` gives.
  pub record Moved (size : ℕ) (old items r : List (Item K V)) : Type ℓ where
    pub table : IsTable size r
    pub no_dead : HasNoDead r
    pub counted : count_live r ≡ count_live items + count_live old
    pub kept : (k : K) (v : V) → Stores items k v → Stores r k v
    pub moved : (k : K) (v : V) → Stores old k v → Stores r k v
    pub only : (k : K) (v : V) → Stores r k v → Stores items k v ⊎ Stores old k v

  -- An item that is not live is skipped.
  skip :
      (size : ℕ) (i : Item K V) (old items r : List (Item K V))
      → is_live i ≡ false
      → Moved size old items r
      → Moved size (i ∷ old) items r
  unfolding count_live get_or
  skip size i old items r n m = record {
    table = m.table;
    no_dead = m.no_dead;
    counted = rw n m.counted;
    kept = m.kept;
    moved = λ k v st. m.moved k v (down k v st);
    only = λ k v st. elim (m.only k v st) [ inl a ↦ inl a | inr (p, a) ↦ inr (suc p, a) ];
  }
    where
      down : (k : K) (v : V) → Stores (i ∷ old) k v → Stores old k v
      down k v (zero, a) = absurd (ground arith)
      down k v (suc p, a) = (p, a)

  -- A live item goes to an item that is not live.
  placed :
      (size : ℕ) (j : K) (w : V) (old items r : List (Item K V)) (q : ℕ)
      → IsTable size items
      → q < size
      → is_live (at items q) ≡ false
      → Moved size old (set items q (live j w)) r
      → Moved size (live j w ∷ old) items r
  unfolding count_live get_or
  placed size j w old items r q t b n m = record {
    table = m.table;
    no_dead = m.no_dead;
    counted = ground (arith, m.counted, set-count size items q (live j w) t b);
    kept = λ k v st. m.kept k v (set-keeps size items q (live j w) t b k v other st);
    moved = moves;
    only =
        λ k v st. elim (m.only k v st) [ inl (p, a) ↦ back k v p a | inr (p, a) ↦ inr (suc p, a) ];
  }
    where
      other : {k : K} (v : V) → at items q ≢ live k v
      other v a = ground arith

      moves : (k : K) (v : V) → Stores (live j w ∷ old) k v → Stores r k v
      moves k v (zero, a) = m.kept k v (q, ground (arith, at-set size items q (live j w) t b q))
      moves k v (suc p, a) = m.moved k v (p, a)

      back :
          (k : K) (v : V) (p : ℕ)
          → at (set items q (live j w)) p ≡ live k v
          → Stores items k v ⊎ Stores (live j w ∷ old) k v
      back k v p a = elim (Bool-cases (q == p)) [
        | inl e ↦ inr (0, ground (arith, at-set size items q (live j w) t b p))
        | inr e ↦ inl (p, ground (arith, at-set size items q (live j w) t b p))
      ]

  module _ (size : ℕ) (s : 0 < size) (c : Covers size) where
    move_items-Moved :
        (old items : List (Item K V))
        → IsTable size items
        → HasNoDead items
        → IsOnceEach old
        → ((k : K) (v : V) → Stores old k v → Lacks items k)
        → count_live items + count_live old ≤ size
        → Moved size old items (move_items size old items)
    unfolding move_items count_live get_or
    move_items-Moved [] items t d o l h = record {
      table = t;
      no_dead = d;
      counted = omega arith;
      kept = λ k v st. st;
      moved = λ k v (p, a). absurd (ground arith);
      only = λ k v st. inl st;
    }
    move_items-Moved (free ∷ old) items t d o l h = skip size free old items _ refl (
        move_items-Moved old items t d (λ p q k v w a b. omega (arith, o (suc p) (suc q) k v w a b))
          (λ k v (p, a). l k v (suc p, a)) h)
    move_items-Moved (dead j w ∷ old) items t d o l h = skip size (dead j w) old items _ refl (
        move_items-Moved old items t d (λ p q k v w a b. omega (arith, o (suc p) (suc q) k v w a b))
          (λ k v (p, a). l k v (suc p, a)) h)
    move_items-Moved (live j w ∷ old) items t d o l h =
        let (q, run, n, b, r) = room size items s c t j (omega arith) in
        let lacks = l j w (0, refl) in
        let t' = new-IsTable size items q (live j w) t b j w refl lacks r in
        rw (place-eq size j w items s d run) (
          placed size j w old items _ q t b n (
            move_items-Moved old (set items q (live j w)) t'
              (λ p. ground (arith, d p, at-set size items q (live j w) t b p))
              (λ p p' k v w a a'. omega (arith, o (suc p) (suc p') k v w a a'))
              (λ k v (p, a) p' v' a'. ground (
                arith,
                l k v (suc p, a) p' v',
                o 0 (suc p) k w v,
                at-set size items q (live j w) t b p',
              ))
              (ground (arith, set-count size items q (live j w) t b))))

  pub empty-IsTable : (size : ℕ) → IsTable size (replicate {A = Item K V} size free)
  empty-IsTable size = record {
    measured = length-replicate size free;
    reached = λ p k v a. absurd (ground (arith, get_or-replicate {A = Item K V} size p free));
    unique = λ p q k v w a b. absurd (ground (arith, get_or-replicate {A = Item K V} size p free));
  }

  -- `Resize` keeps the table whole and all that it stores, where the new size is covered.
  pub resize-Moved :
      (m : Map K V)
      → IsValid m
      → Covers (new_size m.size_array)
      → Moved
          (new_size m.size_array)
          m.items
          (replicate (new_size m.size_array) free)
          (resize m).items
  unfolding resize
  resize-Moved m v c =
      let size = new_size m.size_array in
      let none_live = count_live-replicate K V size in
      move_items-Moved size (grows m.size_array v.sized) c m.items _ (empty-IsTable size)
        (λ q. inl (rw (get_or-replicate {A = Item K V} size q free) refl)) v.table.unique
        (λ k w st p u a. ground (arith, get_or-replicate {A = Item K V} size p free))
        (omega (arith, none_live, count_live-le m.items, v.table.measured, larger m.size_array))
    where
      larger : (n : ℕ) → n < new_size n
      larger n = ground arith

      grows : (n : ℕ) → 0 < n → 0 < new_size n
      grows n h = omega (arith, larger n)

  pub resize-IsValid :
      (m : Map K V) → IsValid m → Covers (new_size m.size_array) → IsValid (resize m)
  unfolding resize
  resize-IsValid m v c =
      let r = resize-Moved m v c in
      record {
        sized = larger m.size_array;
        table = r.table;
        covered = c;
        counted =
            ground (arith, v.counted, r.counted, count_live-replicate K V (new_size m.size_array));
      }
    where
      larger : (n : ℕ) → 0 < new_size n
      larger n = ground arith

  -- `Resize` keeps the invariant, the number of elements and every lookup, where the probes for any
  -- key cover the new array, which is longer than the old one.
  pub resize_correct :
      (m : Map K V)
      → IsValid m
      → Covers (new_size m.size_array)
      → IsValid (resize m)
        × (m.size_array < (resize m).size_array)
        × ((resize m).num_elm ≡ m.num_elm)
        × ((k : K) → get (resize m) k ≡ get m k)
  resize_correct m v c = let h = resize-IsValid m v c in (h, grows m, same_count m, reads)
    where
      grows : (m : Map K V) → m.size_array < (resize m).size_array
      grows m = unfold resize in ground arith

      same_count : (m : Map K V) → (resize m).num_elm ≡ m.num_elm
      same_count m = unfold resize in refl

      reads : (k : K) → get (resize m) k ≡ get m k
      reads k =
          let r = resize-Moved m v c in
          let h = resize-IsValid m v c in
          let none_stored : (w : V)
              → Stores (replicate {A = Item K V} (new_size m.size_array) free) k w
              → ⊥ =
            λ w (p, a).
              ground (arith, get_or-replicate {A = Item K V} (new_size m.size_array) p free) in
          get-eq m (resize m) k v.sized v.table h.sized h.table (r.moved k)
            (λ w st. elim (r.only k w st) [ inl e ↦ absurd (none_stored w e) | inr e ↦ e ])
