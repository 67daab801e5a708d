-- ===== src/CloseHashmap/Insert.antt =====
-- `Insert` of close_hashmap.hpp under the invariant.
use public_cpp.Base.{
  ℕ, ◌+◌, ◌≤◌, ◌<◌, ◌≡◌, refl, ap, ◌∙◌, ◌⊎◌, inl, inr, Bool, true, false, ◌&&◌, none, some, arith,
  ◌==◌, if◌then◌else◌, Bool-cases, is_none, ==_iff,
}
use public_cpp.CloseHashmap.{
  Key, live, Map, at, is_live, step, get, new_size, resize, get_item_or_free, insert_item, insert,
  write_new,
}
use public_cpp.CloseHashmap.Invariant.{
  Covers, count_live-le, Lacks, home, IsValid, get_item-cases, at-lt,
}
use public_cpp.CloseHashmap.Probe.{Reaches}
use public_cpp.CloseHashmap.Resize.{room}
use public_cpp.CloseHashmap.Resize.{resize_correct}
use public_cpp.CloseHashmap.Writes.{new_write}

module _ {ℓ} {K V : Type ℓ} ⦃key : Key K⦄ where
  -- The array is not full, or `Resize` can make room in it.
  abbrev pub HasRoom : Map K V → Type 0
  HasRoom m = (m.num_elm < m.size_array) ⊎ (m.to_resize ≡ true) × Covers (new_size m.size_array)

  -- `GetItemOrFree_` finds the key's item, or where the key can be written.
  pub get_item_or_free-cases :
      (m : Map K V) (k : K)
      → IsValid m
      → m.num_elm < m.size_array
      → ((p : ℕ) × (w : V) × (get_item_or_free m k ≡ some p)
          × (at m.items p ≡ live k w)
          × (p < m.size_array)
          × (get m k ≡ some w))
        ⊎ ((q : ℕ) × (get_item_or_free m k ≡ some q)
            × (is_live (at m.items q) ≡ false)
            × (q < m.size_array)
            × Reaches m.items m.size_array
                (step (home k m.size_array))
                m.size_array
                (home k m.size_array)
                q
            × Lacks m.items k
            × (get m k ≡ none))
  unfolding get_item_or_free get
  get_item_or_free-cases m k h l = elim (get_item-cases m k h.sized h.table) [
    | inr (p, w, s, a) ↦ inl (
      p,
      w,
      ground arith,
      a,
      omega (arith, at-lt m.items p k w a, h.table.measured),
      ground arith,
    )
    | inl (n, lacks) ↦
        let (q, run, not_live, b, r) =
          room m.size_array m.items h.sized h.covered h.table k (omega (arith, h.counted)) in
        inr (q, ground arith, not_live, b, r, lacks, ground arith)
  ]

  -- What `Insert` returns: whether the key was new, and the map in which it stands.
  pub record Inserted (m : Map K V) (k : K) (v : V) (r : Bool × Map K V) : Type ℓ where
    pub valid : IsValid r.1
    pub fresh : r.0 ≡ is_none (get m k)
    pub counted : r.1.num_elm ≡ m.num_elm + (if r.0 then 1 else 0)
    pub reads : (j : K) → get r.1 j ≡ (if r.0 && key.key_equal k j then some v else get m j)

  insert_item-Inserted :
      (m : Map K V) (k : K) (v : V)
      → IsValid m
      → m.num_elm < m.size_array
      → (r : Bool × Map K V) × (insert_item m k v ≡ some r) × Inserted m k v r
  unfolding insert_item
  insert_item-Inserted m k v h l = elim (get_item_or_free-cases m k h l) [
    | inl (p, w, s, a, b, g) ↦ (
      (false, m),
      ground arith,
      record { valid = h; fresh = rw g refl; counted = omega arith; reads = λ j. refl },
    )
    | inr (q, s, n, b, r, lacks, g) ↦
        let (valid, reads) = new_write m k v q h lacks b n r in
        (
          (true, write_new m q k v),
          ground arith,
          record { valid = valid; fresh = rw g refl; counted = refl; reads = λ j. reads j },
        )
  ]

  pub num_elm-le : (m : Map K V) → IsValid m → m.num_elm ≤ m.size_array
  num_elm-le m h = omega (arith, h.counted, count_live-le m.items, h.table.measured)

  -- A full array with room to come is replaced by one that answers alike and is not full.
  pub resized :
      (m : Map K V)
      → IsValid m
      → HasRoom m
      → m.size_array ≡ m.num_elm
      → (m.to_resize ≡ true)
        × IsValid (resize m)
        × ((resize m).num_elm < (resize m).size_array)
        × ((resize m).num_elm ≡ m.num_elm)
        × ((j : K) → get (resize m) j ≡ get m j)
  resized m h (inl l) full = absurd (omega arith)
  resized m h (inr (to, c)) full =
      let (valid, larger, count, reads) = resize_correct m h c in
      (to, valid, omega arith, count, reads)

  insert-below :
      (m : Map K V) (k : K) (v : V)
      → (m.size_array == m.num_elm) ≡ false
      → insert m k v ≡ insert_item m k v
  unfolding insert
  insert-below m k v e = rw (e, insert)

  insert-grown :
      (m : Map K V) (k : K) (v : V)
      → (m.size_array == m.num_elm) ≡ true
      → m.to_resize ≡ true
      → insert m k v ≡ insert_item (resize m) k v
  unfolding insert
  insert-grown m k v e to = ground arith

  -- `Insert` returns, under the invariant and with room. It adds a new key with its value and says so;
  -- for a key that is there it changes no lookup and says false.
  pub insert_correct :
      (m : Map K V) (k : K) (v : V)
      → IsValid m
      → HasRoom m
      → (r : Bool × Map K V) × (insert m k v ≡ some r) × Inserted m k v r
  insert_correct m k v h has_room = elim (Bool-cases (m.size_array == m.num_elm)) [
    | inr e ↦
        let below : m.num_elm < m.size_array = ground (arith, num_elm-le m h) in
        let (r, run, i) = insert_item-Inserted m k v h below in (r, insert-below m k v e ∙ run, i)
    | inl e ↦
        let (to, valid, below, count, reads) = resized m h has_room ((==_iff _ _).0 e) in
        let (r, run, i) = insert_item-Inserted (resize m) k v valid below in
        (
          r,
          insert-grown m k v e to ∙ run,
          record {
            valid = i.valid;
            fresh = i.fresh ∙ ap is_none (reads k);
            counted = omega (arith, i.counted);
            reads =
                λ j. i.reads j ∙ ap (λ o. if r.0 && key.key_equal k j then some v else o) (reads j);
          },
        )
  ]

  -- `Insert` refuses a full map that may not be resized, and leaves it as it is.
  pub insert-full :
      (m : Map K V) (k : K) (v : V)
      → m.num_elm ≡ m.size_array
      → m.to_resize ≡ false
      → insert m k v ≡ some (false, m)
  unfolding insert
  insert-full m k v full fixed = ground arith
