-- ===== src/CloseHashmap/Writes.antt =====
-- What the writes of close_hashmap.hpp's methods do to the invariant and to every lookup.
use public_cpp.Base.{
  ℕ, ◌+◌, ◌-◌, ◌<◌, ◌≡◌, refl, ◌≢◌, inl, inr, true, false, Option, none, some, arith, set,
  if◌then◌else◌, Bool-cases,
}
use public_cpp.CloseHashmap.{
  Key, Item, live, dead, Map, at, is_live, step, get, write, write_new, erased,
}
use public_cpp.CloseHashmap.Invariant.{Lacks, home, IsValid, get-of-Stores, get-of-Lacks, get-eq}
use public_cpp.CloseHashmap.Probe.{Reaches}
use public_cpp.CloseHashmap.Update.{
  at-set, set-IsTable, set-keeps, set-adds, set-Stores, set-count, new-IsTable,
}

pub key_refl {ℓ} : {K : Type ℓ} ⦃key : Key K⦄ (k : K) → key.key_equal k k ≡ true
key_refl ⦃key⦄ k = (key.key_equal_iff k k).1 refl

module _ {ℓ} {K V : Type ℓ} ⦃key : Key K⦄ where
  -- What a write of `v` under `k` leaves: every lookup of another key is as before.
  abbrev pub Updates : Map K V → K → Option V → Map K V → Type ℓ
  Updates m k v m' = (j : K) → get m' j ≡ (if key.key_equal k j then v else get m j)

  -- `m'` differs from `m` at the position `q` alone, where it has `i`.
  pub update_by_set :
      (m m' : Map K V) (k : K) (v : Option V) (q : ℕ) (i : Item K V)
      → IsValid m
      → IsValid m'
      → m'.size_array ≡ m.size_array
      → m'.items ≡ set m.items q i
      → q < m.size_array
      → get m' k ≡ v
      → ((j : K) (w : V) → j ≢ k → at m.items q ≢ live j w)
      → ((j : K) (w : V) → j ≢ k → i ≢ live j w)
      → Updates m k v m'
  update_by_set m m' k v q i h h' s e b g o n j = elim (Bool-cases (key.key_equal k j)) [
    | inl y ↦ let same : k ≡ j = (key.key_equal_iff k j).0 y in rw (y, ← same) g
    | inr y ↦
        let other : j ≢ k = λ p. ground (arith, (key.key_equal_iff k j).1) in
        rw y (
          get-eq m m' j h.sized h.table h'.sized h'.table
            (λ w st. rw e (set-keeps m.size_array m.items q i h.table b j w (λ u. o j u other) st))
            (λ w st.
              set-adds m.size_array m.items q i h.table b j w (λ u. n j u other) (rw e at st)))
  ]

  pub not_live : (i : Item K V) → is_live i ≡ false → (j : K) (w : V) → i ≢ live j w
  not_live i n j w a = ground arith

  pub new_write :
      (m : Map K V) (k : K) (v : V) (q : ℕ)
      → IsValid m
      → Lacks m.items k
      → q < m.size_array
      → is_live (at m.items q) ≡ false
      → Reaches m.items m.size_array
          (step (home k m.size_array))
          m.size_array
          (home k m.size_array)
          q
      → IsValid (write_new m q k v) × Updates m k (some v) (write_new m q k v)
  new_write m k v q h l b n r =
      let size = m.size_array in
      let t = new-IsTable size m.items q (live k v) h.table b k v refl l r in
      let valid : IsValid (write_new m q k v) = record {
        sized = h.sized;
        table = t;
        covered = h.covered;
        counted = ground (arith, h.counted, set-count size m.items q (live k v) h.table b);
      } in
      (
        valid,
        update_by_set m (write_new m q k v) k (some v) q (live k v) h valid refl refl b
            (get-of-Stores (write_new m q k v) k v h.sized t
              (set-Stores size m.items q (live k v) h.table b k v refl))
            (λ j w _. not_live (at m.items q) n j w) (λ j w o e. o (ground arith)),
      )

  pub old_write :
      (m : Map K V) (k : K) (v w : V) (q : ℕ)
      → IsValid m
      → at m.items q ≡ live k w
      → q < m.size_array
      → IsValid (write m q k v) × Updates m k (some v) (write m q k v)
  old_write m k v w q h a b =
      let size = m.size_array in
      let t =
        set-IsTable size m.items q (live k v) h.table b refl
          (λ j u e. let same : k ≡ j = ground arith in rw (← same) (h.table.reached q k w a))
          (λ p j u x e a'.
            let same : k ≡ j = ground arith in h.table.unique p q k x w (rw same a') a) in
      let valid : IsValid (write m q k v) = record {
        sized = h.sized;
        table = t;
        covered = h.covered;
        counted = ground (arith, h.counted, set-count size m.items q (live k v) h.table b);
      } in
      (
        valid,
        update_by_set m (write m q k v) k (some v) q (live k v) h valid refl refl b
            (get-of-Stores (write m q k v) k v h.sized t
              (set-Stores size m.items q (live k v) h.table b k v refl))
            (λ j u o e. o (ground arith)) (λ j u o e. o (ground arith)),
      )

  abbrev pub erase_at : Map K V → ℕ → Map K V
  erase_at m q = record m { items = set m.items q (erased (at m.items q)); num_elm = m.num_elm - 1 }

  pub erase_write :
      (m : Map K V) (k : K) (w : V) (q : ℕ)
      → IsValid m
      → at m.items q ≡ live k w
      → q < m.size_array
      → IsValid (erase_at m q)
        × Updates m k none (erase_at m q)
        × (m.num_elm ≡ (erase_at m q).num_elm + 1)
  erase_write m k w q h a b =
      let size = m.size_array in
      let i = erased (at m.items q) in
      let gone : i ≡ dead k w = rw a refl in
      let t =
        set-IsTable size m.items q i h.table b (rw gone refl) (λ j u e. absurd (ground arith))
          (λ p j u x e a'. absurd (ground arith)) in
      let count = set-count size m.items q i h.table b in
      let valid : IsValid (erase_at m q) = record {
        sized = h.sized;
        table = t;
        covered = h.covered;
        counted = ground (arith, h.counted, count);
      } in
      (
        valid,
        update_by_set m (erase_at m q) k none q i h valid refl refl b
            (get-of-Lacks (erase_at m q) k h.sized t (λ p u e.
              ground (arith, at-set size m.items q i h.table b p, h.table.unique p q k u w)))
            (λ j u o e. o (ground arith)) (λ j u o e. ground arith),
        ground (arith, h.counted, count),
      )
