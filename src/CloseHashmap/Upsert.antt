-- ===== src/CloseHashmap/Upsert.antt =====
-- `Upsert` of close_hashmap.hpp under the invariant.
use public_cpp.Base.{
  ℕ, ◌+◌, ◌<◌, ◌≡◌, refl, ap, ◌∙◌, inl, inr, Bool, true, Option, none, some, arith, ◌==◌,
  if◌then◌else◌, Bool-cases, is_none, ==_iff, Option-cases,
}
use public_cpp.CloseHashmap.{
  Key, live, Map, at, step, get, probe_not_live, resize, get_item_or_null, get_item_or_free, write,
  write_new, upsert_new, upsert,
}
use public_cpp.CloseHashmap.Invariant.{
  home, IsValid, get_item-cases, get-of-Stores, get-of-Lacks, at-lt,
}
use public_cpp.CloseHashmap.Probe.{probe_not_live-not_live}
use public_cpp.CloseHashmap.Writes.{Updates, new_write, old_write}
use public_cpp.CloseHashmap.Insert.{HasRoom, get_item_or_free-cases, num_elm-le, resized}

module _ {ℓ} {K V : Type ℓ} ⦃key : Key K⦄ where
  -- What `Upsert` returns: true, and a map in which the key has the value.
  pub record Upserted (m : Map K V) (k : K) (v : V) (r : Bool × Map K V) : Type ℓ where
    pub valid : IsValid r.1
    pub done : r.0 ≡ true
    pub counted : r.1.num_elm ≡ m.num_elm + (if is_none (get m k) then 1 else 0)
    pub reads : Updates m k (some v) r.1

  upsert_below :
      (m : Map K V) (k : K) (v : V)
      → IsValid m
      → m.num_elm < m.size_array
      → (r : Bool × Map K V) × (upsert m k v ≡ some r) × Upserted m k v r
  unfolding upsert
  upsert_below m k v h l = elim (get_item_or_free-cases m k h l) [
    | inl (p, w, s, a, b, g) ↦
        let (valid, reads) = old_write m k v w p h a b in
        (
          (true, write m p k v),
          ground arith,
          record { valid = valid; done = refl; counted = rw g (omega arith); reads = reads },
        )
    | inr (q, s, n, b, r, lacks, g) ↦
        let (valid, reads) = new_write m k v q h lacks b n r in
        (
          (true, write_new m q k v),
          ground arith,
          record { valid = valid; done = refl; counted = rw g refl; reads = reads },
        )
  ]

  -- Where the key is absent, the item that `Upsert` first finds is not live, or null.
  upsert-absent :
      (m : Map K V) (k : K) (v : V)
      → get_item_or_null m k ≡ none
      → upsert m k v ≡ upsert_new m (get_item_or_free m k) k v
  unfolding upsert get_item_or_free
  upsert-absent m k v n =
      let pos = home k m.size_array in
      let size = m.size_array in
      elim (Option-cases (probe_not_live m.items size (step pos) size pos)) [
        | inl e ↦ ground arith
        | inr (q, e) ↦ ground (arith, probe_not_live-not_live m.items size (step pos) size pos q e)
      ]

  upsert-present :
      (m : Map K V) (k : K) (v w : V) (p : ℕ)
      → get_item_or_null m k ≡ some p
      → at m.items p ≡ live k w
      → upsert m k v ≡ some (true, write m p k v)
  unfolding upsert get_item_or_free
  upsert-present m k v w p s a = ground arith

  upsert_new-grown :
      (m : Map K V) (item : Option ℕ) (k : K) (v : V) (q : ℕ)
      → (m.size_array == m.num_elm) ≡ true
      → m.to_resize ≡ true
      → get_item_or_free (resize m) k ≡ some q
      → upsert_new m item k v ≡ some (true, write_new (resize m) q k v)
  unfolding upsert_new
  upsert_new-grown m item k v q e to r = ground arith

  upsert_full :
      (m : Map K V) (k : K) (v : V)
      → IsValid m
      → HasRoom m
      → (m.size_array == m.num_elm) ≡ true
      → get_item_or_null m k ≡ none
      → get m k ≡ none
      → (r : Bool × Map K V) × (upsert m k v ≡ some r) × Upserted m k v r
  upsert_full m k v h has_room e n g =
      let (to, valid, below, count, reads) = resized m h has_room ((==_iff _ _).0 e) in
      elim (get_item_or_free-cases (resize m) k valid below) [
        | inl (p, w, s, a, b, g') ↦ absurd (ground (arith, reads k))
        | inr (q, s, l, b, r, lacks, g') ↦
            let (valid', reads') = new_write (resize m) k v q valid lacks b l r in
            (
              (true, write_new (resize m) q k v),
              upsert-absent m k v n ∙ upsert_new-grown m (get_item_or_free m k) k v q e to s,
              record {
                valid = valid';
                done = refl;
                counted = rw g (omega arith);
                reads = λ j. reads' j ∙ ap (λ o. if key.key_equal k j then some v else o) (reads j);
              },
            )
      ]

  -- `Upsert` returns true, under the invariant and with room, and writes the value under the key,
  -- new or not; every other lookup is as before, and the number of elements grows by a new key alone.
  pub upsert_correct :
      (m : Map K V) (k : K) (v : V)
      → IsValid m
      → HasRoom m
      → (r : Bool × Map K V) × (upsert m k v ≡ some r) × Upserted m k v r
  upsert_correct m k v h has_room = elim (Bool-cases (m.size_array == m.num_elm)) [
    | inr e ↦ upsert_below m k v h (ground (arith, num_elm-le m h))
    | inl e ↦ elim (get_item-cases m k h.sized h.table) [
      | inl (n, lacks) ↦ upsert_full m k v h has_room e n (get-of-Lacks m k h.sized h.table lacks)
      | inr (p, w, s, a) ↦
          let (valid, reads) =
            old_write m k v w p h a (omega (arith, at-lt m.items p k w a, h.table.measured)) in
          let g = get-of-Stores m k w h.sized h.table (p, a) in
          (
            (true, write m p k v),
            upsert-present m k v w p s a,
            record { valid = valid; done = refl; counted = rw g (omega arith); reads = reads },
          )
    ]
  ]
