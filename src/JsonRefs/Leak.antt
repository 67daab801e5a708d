-- ===== src/JsonRefs/Leak.antt =====
-- The assignment that loses a cell.
use public_cpp.Base.{
  ℕ, ◌<◌, ◌≡◌, refl, ap, ◌∙◌, Bool, true, false, not, ◌==◌, ◌||◌, if◌then◌else◌, length, count, ltb,
  ==_iff, if_true, if_false, get_or-set, arith,
}
use public_cpp.JsonRefs.{Shared, Store, write, dec_ref_cnt, cell_of, new_cell, assign_naive}
use public_cpp.JsonRefs.Counts.{count-set}
use public_cpp.JsonRefs.Counted.{Counted, ref_cnt-refs, is_there}

-- The object has a new cell, and its old one is lost.
pub record Leaked (s : Store) (i value : ℕ) (t : Store) : Type 0 where
  pub given : cell_of t i ≡ s.next
  pub new : cell_of s i < s.next
  pub holds :
      t.cells s.next
      ≡ record { type = (s.cells (cell_of s i)).type; ref_cnt = 1; value = value; deleted = false }
  pub stays : t.cells (cell_of s i) ≡ s.cells (cell_of s i)
  pub counts : (s.cells (cell_of s i)).ref_cnt ≡ 1
  pub there : (s.cells (cell_of s i)).deleted ≡ false
  pub lost : count (cell_of s i) t.objects ≡ 0

-- An object that has a cell for itself, of the type of the value that is assigned, gets the next new cell,
-- which is not its old one, with the value and a count of one. The old one stays as it is, not deleted and
-- with a count of one, and no object refers to it.
pub assign_naive-leaks :
    (s : Store) (i value : ℕ)
    → i < length s.objects
    → 0 < cell_of s i
    → Counted s
    → count (cell_of s i) s.objects ≡ 1
    → Leaked s i value (assign_naive s i ((s.cells (cell_of s i)).type) value)
unfolding assign_naive new_cell
assign_naive-leaks s i value inside some_cell counted alone = record {
  given = ap (λ (t : Store). cell_of t i) runs ∙ given_cell;
  new = (is_there s i inside counted some_cell).1;
  holds = ap (λ (t : Store). t.cells s.next) runs ∙ if_true (s.next == s.next) _ _ same_next;
  stays = ap (λ (t : Store). t.cells a) runs ∙ old;
  counts = one;
  there = (is_there s i inside counted some_cell).0;
  lost = ap (λ (t : Store). count a t.objects) runs ∙ none_left;
}
  where
    a : ℕ
    a = cell_of s i

    c : Shared
    c = s.cells a

    one : c.ref_cnt ≡ 1
    one = ref_cnt-refs s i inside counted some_cell ∙ alone

    kept : Store
    kept = record s { cells = write s.cells a c }

    no_drop : (ltb 1 c.ref_cnt || not (c.type == c.type)) ≡ false
    no_drop = neither _ _ (ground (arith, one)) ((==_iff c.type c.type).1 refl)
      where
        neither : (a b : Bool) → a ≡ false → b ≡ true → (a || not b) ≡ false
        neither a b ha hb = ground arith

    go : Shared → Store
    go c₁ =
        if c₁.ref_cnt == 0
        then record s {
          cells = write s.cells a (record c₁ { ref_cnt = 1; type = c.type; value = value });
        }
        else new_cell (record s { cells = write s.cells a c₁ }) i c.type value

    runs : assign_naive s i (c.type) value ≡ new_cell kept i (c.type) value
    runs =
        if_false (a == 0) _ _ (ground (arith, some_cell))
        ∙ ap go (if_false (ltb 1 c.ref_cnt || not (c.type == c.type)) (dec_ref_cnt c) c no_drop)
        ∙ if_false (c.ref_cnt == 0) _ _ (ground (arith, one))

    same_next : (s.next == s.next) ≡ true
    same_next = (==_iff s.next s.next).1 refl

    given_cell : cell_of (new_cell kept i (c.type) value) i ≡ s.next
    given_cell =
        get_or-set s.objects i i s.next 0 inside ∙ if_true (i == i) _ _ ((==_iff i i).1 refl)

    old : (new_cell kept i (c.type) value).cells a ≡ c
    old =
        if_false (a == s.next) _ _ (ground (arith, (is_there s i inside counted some_cell).1))
        ∙ if_true (a == a) _ _ ((==_iff a a).1 refl)

    none_left : count a ((new_cell kept i (c.type) value).objects) ≡ 0
    none_left = ground (
      arith,
      count-set a s.objects i s.next inside,
      alone,
      (is_there s i inside counted some_cell).1,
    )
