-- ===== src/JsonRefs/Counted.antt =====
-- The counts are right: no object refers to a cell that was deleted.
use public_cpp.Base.{
  ℕ, zero, suc, ◌+◌, ◌-◌, ◌<◌, ◌≤◌, ◌≡◌, ◌⊎◌, inl, inr, refl, sym, ap, ◌∙◌, subst, true, false,
  ◌==◌, length, length-set, set, count, ==_iff, if_true, if_false, Bool-cases, arith,
}
use public_cpp.JsonRefs.{Shared, Store, write, cell_of, new_cell}
use public_cpp.JsonRefs.Counts.{count-set, count-put, count-le, count-get_or}

-- The cell at `a` has `n` references: unless they are none, they are its count, and it is there.
abbrev pub Referred : Store → ℕ → ℕ → Type 0
Referred s a n = 0 < n → ((s.cells a).ref_cnt ≡ n) × ((s.cells a).deleted ≡ false) × (a < s.next)

-- Every cell has as many references as objects that refer to it.
pub record Counted (s : Store) : Type 0 where
  pub few : length s.objects < 65536
  pub started : 0 < s.next
  pub refers : (a : ℕ) → 0 < a → Referred s a (count a s.objects)

-- The same with the object `i` left out
pub record CountedBut (s : Store) (i : ℕ) : Type 0 where
  pub few : length s.objects < 65536
  pub started : 0 < s.next
  pub refers : (a : ℕ) → 0 < a → Referred s a (count a (set s.objects i 0))

-- A cell that was written, and the others
pub Referred-here :
    (s t : Store) (at : ℕ) (c : Shared) (a n : ℕ)
    → t.cells ≡ write s.cells at c
    → (a == at) ≡ true
    → (0 < n → (c.ref_cnt ≡ n) × (c.deleted ≡ false) × (at < t.next))
    → Referred t a n
Referred-here s t at c a n eq here h some_refs = (
  ap (λ (d : Shared). d.ref_cnt) cell ∙ (h some_refs).0,
  ap (λ (d : Shared). d.deleted) cell ∙ (h some_refs).1,
  subst (λ k. k < t.next) (sym ((==_iff a at).0 here)) ((h some_refs).2),
)
  where
    cell : t.cells a ≡ c
    cell = ap (λ cells. cells a) eq ∙ if_true (a == at) c (s.cells a) here

pub Referred-other :
    (s t : Store) (at : ℕ) (c : Shared) (a n : ℕ)
    → t.cells ≡ write s.cells at c
    → (a == at) ≡ false
    → s.next ≤ t.next
    → Referred s a n
    → Referred t a n
Referred-other s t at c a n eq other later h some_refs = (
  ap (λ (d : Shared). d.ref_cnt) cell ∙ (h some_refs).0,
  ap (λ (d : Shared). d.deleted) cell ∙ (h some_refs).1,
  omega (arith, (h some_refs).2),
)
  where
    cell : t.cells a ≡ s.cells a
    cell = ap (λ cells. cells a) eq ∙ if_false (a == at) c (s.cells a) other

pub new_cell-Counted :
    (s : Store) (i type value : ℕ)
    → i < length s.objects
    → CountedBut s i
    → Counted (new_cell s i type value)
unfolding new_cell
new_cell-Counted s i type value inside but = record {
  few = omega (arith, length-set s.objects i s.next, CountedBut.few but);
  started = omega arith;
  refers = λ a pos. by_place a pos (Bool-cases (a == s.next));
}
  where
    fresh : Shared
    fresh = record { type = type; ref_cnt = 1; value = value; deleted = false }

    none_yet : (a : ℕ) → 0 < a → (a == s.next) ≡ true → count a (set s.objects i 0) ≡ 0
    none_yet a pos here =
        zero_of (count a (set s.objects i 0)) λ some_refs. (CountedBut.refers but a pos some_refs).2
      where
        zero_of : (n : ℕ) → (0 < n → a < s.next) → n ≡ 0
        zero_of zero h = refl
        zero_of (suc n) h = absurd (grind (arith, here, h (omega arith)))

    by_place :
        (a : ℕ)
        → 0 < a
        → ((a == s.next) ≡ true) ⊎ ((a == s.next) ≡ false)
        → Referred (new_cell s i type value) a (count a (set s.objects i s.next))
    by_place a pos (inl here) =
        Referred-here s (new_cell s i type value) s.next fresh a _ refl here
          λ _. (one, refl, omega arith)
      where
        one : 1 ≡ count a (set s.objects i s.next)
        one = ground (arith, count-put a s.objects i s.next inside pos, none_yet a pos here, here)
    by_place a pos (inr other) =
        Referred-other s (new_cell s i type value) s.next fresh a _ refl other (omega arith)
          (subst (Referred s a) same (CountedBut.refers but a pos))
      where
        same : count a (set s.objects i 0) ≡ count a (set s.objects i s.next)
        same = ground (arith, count-put a s.objects i s.next inside pos, other)

-- An object whose cell is NULL is left out as it is.
pub null-CountedBut :
    (s : Store) (i : ℕ) → i < length s.objects → Counted s → cell_of s i ≡ 0 → CountedBut s i
null-CountedBut s i inside counted null = record {
  few = Counted.few counted;
  started = Counted.started counted;
  refers = λ a pos. subst (Referred s a) (same a pos) (Counted.refers counted a pos);
}
  where
    same : (a : ℕ) → 0 < a → count a s.objects ≡ count a (set s.objects i 0)
    same a pos = ground (arith, count-set a s.objects i 0 inside, pos, null)

-- An object whose cell has one reference less is left out.
module _ (s : Store) (i : ℕ) (inside : i < length s.objects) (counted : Counted s)
    (some_cell : 0 < cell_of s i) where
  abbrev pub refs : ℕ
  refs = count (cell_of s i) s.objects

  pub refs-pos : 0 < refs
  refs-pos = count-get_or s.objects i inside

  pub ref_cnt-refs : (s.cells (cell_of s i)).ref_cnt ≡ refs
  ref_cnt-refs = (Counted.refers counted (cell_of s i) some_cell refs-pos).0

  pub is_there : ((s.cells (cell_of s i)).deleted ≡ false) × (cell_of s i < s.next)
  is_there = (
    (Counted.refers counted (cell_of s i) some_cell refs-pos).1,
    (Counted.refers counted (cell_of s i) some_cell refs-pos).2,
  )

  pub refs-le : refs < 65536
  refs-le = omega (arith, count-le (cell_of s i) s.objects, Counted.few counted)

  pub written-CountedBut :
      (c : Shared)
      → (1 < refs → (c.ref_cnt ≡ refs - 1) × (c.deleted ≡ false))
      → CountedBut (record s { cells = write s.cells (cell_of s i) c }) i
  written-CountedBut c less = record {
    few = Counted.few counted;
    started = Counted.started counted;
    refers = λ a pos. by_place a pos (Bool-cases (a == cell_of s i));
  }
    where
      t : Store
      t = record s { cells = write s.cells (cell_of s i) c }

      by_place :
          (a : ℕ)
          → 0 < a
          → ((a == cell_of s i) ≡ true) ⊎ ((a == cell_of s i) ≡ false)
          → Referred t a (count a (set s.objects i 0))
      by_place a pos (inl here) = Referred-here s t (cell_of s i) c a _ refl here λ some_refs. (
        (less (omega (arith, some_refs, one_less))).0 ∙ omega (arith, one_less),
        (less (omega (arith, some_refs, one_less))).1,
        is_there.1,
      )
        where
          one_less : count a (set s.objects i 0) + 1 ≡ refs
          one_less =
              ground (arith, count-set a s.objects i 0 inside, pos, here)
              ∙ ap (λ x. count x s.objects) ((==_iff a (cell_of s i)).0 here)
      by_place a pos (inr other) =
          Referred-other s t (cell_of s i) c a _ refl other (omega arith)
            (subst (Referred s a) same (Counted.refers counted a pos))
        where
          same : count a s.objects ≡ count a (set s.objects i 0)
          same = ground (arith, count-set a s.objects i 0 inside, pos, other)

  -- The cell is written and keeps its references.
  pub kept-Counted :
      (c : Shared)
      → c.ref_cnt ≡ refs
      → c.deleted ≡ false
      → Counted (record s { cells = write s.cells (cell_of s i) c })
  kept-Counted c same there = record {
    few = Counted.few counted;
    started = Counted.started counted;
    refers = λ a pos. by_place a pos (Bool-cases (a == cell_of s i));
  }
    where
      t : Store
      t = record s { cells = write s.cells (cell_of s i) c }

      by_place :
          (a : ℕ)
          → 0 < a
          → ((a == cell_of s i) ≡ true) ⊎ ((a == cell_of s i) ≡ false)
          → Referred t a (count a s.objects)
      by_place a pos (inl here) = Referred-here s t (cell_of s i) c a _ refl here λ _. (
        same ∙ sym (ap (λ x. count x s.objects) ((==_iff a (cell_of s i)).0 here)),
        there,
        is_there.1,
      )
      by_place a pos (inr other) =
          Referred-other s t (cell_of s i) c a _ refl other (omega arith)
            (Counted.refers counted a pos)
