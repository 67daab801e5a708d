-- ===== src/JsonRefs/Safe.antt =====
-- The operations keep the counts right, all but one case of the assignment of a plain value, which loses a
-- cell.
use public_cpp.Base.{
  ℕ, ◌-◌, ◌<◌, ◌≡◌, refl, sym, ap, subst, Bool, true, false, not, Option, none, some, ◌==◌, ◌||◌,
  if◌then◌else◌, length, length-set, set, count, ltb, ==_iff, if-elim, arith,
}
use public_cpp.JsonRefs.{Shared, Store, write, dec_ref_cnt, cell_of, assign_naive, reset}
use public_cpp.JsonRefs.Counts.{set-set}
use public_cpp.JsonRefs.Counted.{
  Referred, Counted, CountedBut, new_cell-Counted, null-CountedBut, refs, refs-pos, refs-le,
  ref_cnt-refs, is_there, written-CountedBut, kept-Counted,
}

-- The count of `DecRefCnt`, for a cell with `n` references
dec_ref_cnt-of :
    (c : Shared) (n : ℕ) → c.ref_cnt ≡ n → 0 < n → n < 65536 → (dec_ref_cnt c).ref_cnt ≡ n - 1
dec_ref_cnt-of c n same pos few = omega (arith, same)

pub assign_naive-Counted :
    (s : Store) (i type value : ℕ)
    → i < length s.objects
    → Counted s
    → Counted (assign_naive s i type value)
unfolding assign_naive
assign_naive-Counted s i type value inside counted =
    if-elim Counted (cell_of s i == 0)
      (λ null.
        new_cell-Counted s i type value inside
          (null-CountedBut s i inside counted ((==_iff _ 0).0 null)))
      λ some_cell.
        if-elim Counted (c₁.ref_cnt == 0)
          (λ last.
            kept-Counted s i inside counted (pos some_cell)
              (record c₁ { ref_cnt = 1; type = type; value = value })
              (only (pos some_cell) drops last) (there (pos some_cell) drops))
          λ more.
            new_cell-Counted (record s { cells = write s.cells (cell_of s i) c₁ }) i type value
              inside
              (written-CountedBut s i inside counted (pos some_cell) c₁
                λ shared. (one_less (pos some_cell) shared drops refl, there (pos some_cell) drops))
  where
    c : Shared
    c = s.cells (cell_of s i)

    drops : Bool
    drops = ltb 1 c.ref_cnt || not (type == c.type)

    after : Bool → Shared
    after b = if b then dec_ref_cnt c else c

    c₁ : Shared
    c₁ = after drops

    pos : (cell_of s i == 0) ≡ false → 0 < cell_of s i
    pos h = ground (arith, h)

    there : 0 < cell_of s i → (b : Bool) → (after b).deleted ≡ false
    there some_cell true = (is_there s i inside counted some_cell).0
    there some_cell false = (is_there s i inside counted some_cell).0

    dropped :
        (some_cell : 0 < cell_of s i)
        → (dec_ref_cnt c).ref_cnt ≡ refs s i inside counted some_cell - 1
    dropped some_cell =
        dec_ref_cnt-of c _ (ref_cnt-refs s i inside counted some_cell)
          (refs-pos s i inside counted some_cell) (refs-le s i inside counted some_cell)

    only :
        (some_cell : 0 < cell_of s i) (b : Bool)
        → ((after b).ref_cnt == 0) ≡ true
        → 1 ≡ refs s i inside counted some_cell
    only some_cell true last =
        omega (arith, (==_iff _ 0).0 last, dropped some_cell, refs-pos s i inside counted some_cell)
    only some_cell false last = absurd (
        omega (
          arith,
          (==_iff _ 0).0 last,
          ref_cnt-refs s i inside counted some_cell,
          refs-pos s i inside counted some_cell,
        ))

    one_less :
        (some_cell : 0 < cell_of s i)
        → 1 < refs s i inside counted some_cell
        → (b : Bool) → drops ≡ b
        → (after b).ref_cnt ≡ refs s i inside counted some_cell - 1
    one_less some_cell shared true eq = dropped some_cell
    one_less some_cell shared false eq =
        absurd (kept_shared _ _ (ref_cnt-refs s i inside counted some_cell) shared eq)
      where
        kept_shared :
            (b : Bool) (n : ℕ) → c.ref_cnt ≡ n → 1 < n → (ltb 1 c.ref_cnt || b) ≡ false → ⊥
        kept_shared b n same shared eq = ground arith

-- What `Reset_` does once the object has let go of its cell
module _ (s : Store) (i : ℕ) (inside : i < length s.objects) where
  let_go-Counted : CountedBut s i → Counted (record s { objects = set s.objects i 0 })
  let_go-Counted but = record {
    few = omega (arith, length-set s.objects i 0, CountedBut.few but);
    started = CountedBut.started but;
    refers = CountedBut.refers but;
  }

  let_go-CountedBut : CountedBut s i → CountedBut (record s { objects = set s.objects i 0 }) i
  let_go-CountedBut but = record {
    few = omega (arith, length-set s.objects i 0, CountedBut.few but);
    started = CountedBut.started but;
    refers = λ a pos.
        subst (Referred s a) (ap (count a) (sym (set-set s.objects i 0 0)))
          (CountedBut.refers but a pos);
  }

-- `DecRefCnt` of the cell of an object
module _ (s : Store) (i : ℕ) (inside : i < length s.objects) (counted : Counted s)
    (some_cell : 0 < cell_of s i) where
  abbrev pub less : Shared
  less = dec_ref_cnt (s.cells (cell_of s i))

  less-refs : less.ref_cnt ≡ refs s i inside counted some_cell - 1
  less-refs =
      dec_ref_cnt-of (s.cells (cell_of s i)) _ (ref_cnt-refs s i inside counted some_cell)
        (refs-pos s i inside counted some_cell) (refs-le s i inside counted some_cell)

  pub less-CountedBut : CountedBut (record s { cells = write s.cells (cell_of s i) less }) i
  less-CountedBut =
      written-CountedBut s i inside counted some_cell less
        λ shared. (less-refs, (is_there s i inside counted some_cell).0)

  only-one : less.ref_cnt ≡ 0 → 1 ≡ refs s i inside counted some_cell
  only-one last = omega (arith, last, less-refs, refs-pos s i inside counted some_cell)

  -- Without a reference left the cell may be anything.
  last-CountedBut :
      less.ref_cnt ≡ 0
      → (c : Shared) → CountedBut (record s { cells = write s.cells (cell_of s i) c }) i
  last-CountedBut last c =
      written-CountedBut s i inside counted some_cell c
        λ shared. absurd (omega (arith, shared, only-one last))

positive : (n : ℕ) → (n == 0) ≡ false → 0 < n
positive n h = ground (arith, h)

zero_of : (n : ℕ) → not (n == 0) ≡ false → n ≡ 0
zero_of n h = ground (arith, h)

pub reset-Counted :
    (s : Store) (i : ℕ) (type : Option ℕ)
    → i < length s.objects
    → Counted s
    → Counted (reset s i type)
unfolding reset
reset-Counted s i none inside counted =
    if-elim Counted (cell_of s i == 0) (λ _. counted)
      λ some_cell.
        if-elim Counted (not ((less s i inside counted (positive _ some_cell)).ref_cnt == 0))
          (λ _.
            let_go-Counted _ i inside (less-CountedBut s i inside counted (positive _ some_cell)))
          λ last. let_go-Counted _ i inside (
            last-CountedBut s i inside counted (positive _ some_cell) (zero_of _ last)
              (record (dec_ref_cnt (s.cells (cell_of s i))) { deleted = true }))
reset-Counted s i (some t) inside counted =
    if-elim Counted (cell_of s i == 0)
      (λ null.
        new_cell-Counted s i t 0 inside (null-CountedBut s i inside counted ((==_iff _ 0).0 null)))
      λ some_cell.
        if-elim Counted (not ((less s i inside counted (positive _ some_cell)).ref_cnt == 0))
          (λ _. new_cell-Counted _ i t 0 (omega (arith, inside, length-set s.objects i 0)) (
            let_go-CountedBut _ i inside
              (less-CountedBut s i inside counted (positive _ some_cell))))
          λ last.
            kept-Counted s i inside counted (positive _ some_cell)
              (record (dec_ref_cnt (s.cells (cell_of s i))) { type = t; ref_cnt = 1 })
              (only-one s i inside counted (positive _ some_cell) (zero_of _ last))
              ((is_there s i inside counted (positive _ some_cell)).0)
