-- ===== src/JsonRefs/Steps.antt =====
-- Copies of objects, and sequences of operations.
use public_cpp.Base.{
  ℕ, ◌+◌, ◌<◌, ◌≡◌, ◌⊎◌, inl, inr, refl, sym, ap, ◌∙◌, subst, true, false, not, Option, none, List,
  [], ◌∷◌, ◌==◌, if◌then◌else◌, length, length-set, get_or, get_or-set, set, count, ==_iff, if-elim,
  if_true, if_false, Bool-cases, arith,
}
use public_cpp.JsonRefs.{
  Store, write, inc_ref_cnt, dec_ref_cnt, cell_of, assign_naive, reset, assign, normalize,
}
use public_cpp.JsonRefs.Counts.{count-set, count-le, count-get_or}
use public_cpp.JsonRefs.Counted.{Referred, Referred-here, Referred-other, Counted, new_cell-Counted}
use public_cpp.JsonRefs.Safe.{assign_naive-Counted, reset-Counted, less-CountedBut}

-- What `Reset_` leaves of the objects
reset-objects :
    (s : Store) (i : ℕ)
    → i < length s.objects
    → (length ((reset s i none).objects) ≡ length s.objects)
      × (cell_of (reset s i none) i ≡ 0)
      × ((j : ℕ) → (i == j) ≡ false → cell_of (reset s i none) j ≡ cell_of s j)
unfolding reset
reset-objects s i inside =
    if-elim P (cell_of s i == 0) (λ null. (refl, (==_iff _ 0).0 null, λ j other. refl))
      λ _.
        if-elim P (not ((dec_ref_cnt (s.cells (cell_of s i))).ref_cnt == 0)) (λ _. emptied)
          λ _. emptied
  where
    P : Store → Type 0
    P t =
        (length t.objects ≡ length s.objects)
        × (cell_of t i ≡ 0)
        × ((j : ℕ) → (i == j) ≡ false → cell_of t j ≡ cell_of s j)

    emptied :
        (length (set s.objects i 0) ≡ length s.objects)
        × (get_or (set s.objects i 0) i 0 ≡ 0)
        × ((j : ℕ) → (i == j) ≡ false → get_or (set s.objects i 0) j 0 ≡ cell_of s j)
    emptied = (
      length-set s.objects i 0,
      get_or-set s.objects i i 0 0 inside ∙ if_true (i == i) _ _ ((==_iff i i).1 refl),
      λ j other. get_or-set s.objects i j 0 0 inside ∙ if_false (i == j) _ _ other,
    )

-- An object with no cell takes that of another.
abbrev shared : Store → ℕ → ℕ → Store
shared s i b = record s {
  cells = write s.cells b (inc_ref_cnt (s.cells b));
  objects = set s.objects i b;
}

shared-Counted :
    (s : Store) (i b : ℕ)
    → i < length s.objects
    → cell_of s i ≡ 0
    → 0 < b
    → 0 < count b s.objects
    → Counted s
    → Counted (shared s i b)
shared-Counted s i b inside null pos some_refs counted = record {
  few = few;
  started = Counted.started counted;
  refers = λ a a_pos. by_place a a_pos (Bool-cases (a == b));
}
  where
    few : length (set s.objects i b) < 65536
    few = omega (arith, length-set s.objects i b, Counted.few counted)

    there : Referred s b (count b s.objects)
    there = Counted.refers counted b pos

    one_more :
        (a : ℕ)
        → 0 < a
        → count a (set s.objects i b) ≡ count a s.objects + (if a == b then 1 else 0)
    one_more a a_pos = ground (arith, count-set a s.objects i b inside, null, a_pos)

    by_place :
        (a : ℕ)
        → 0 < a
        → ((a == b) ≡ true) ⊎ ((a == b) ≡ false)
        → Referred (shared s i b) a (count a (set s.objects i b))
    by_place a a_pos (inl here) =
        Referred-here s (shared s i b) b (inc_ref_cnt (s.cells b)) a _ refl here
          λ _. (counts, (there some_refs).1, (there some_refs).2)
      where
        same : a ≡ b
        same = (==_iff a b).0 here

        more : count a (set s.objects i b) ≡ count b s.objects + 1
        more = ground (arith, one_more a a_pos, here) ∙ ap (λ x. count x s.objects + 1) same

        counts : (inc_ref_cnt (s.cells b)).ref_cnt ≡ count a (set s.objects i b)
        counts = omega (arith, more, (there some_refs).0, count-le a (set s.objects i b), few)
    by_place a a_pos (inr other) =
        Referred-other s (shared s i b) b (inc_ref_cnt (s.cells b)) a _ refl other (omega arith)
          (subst (Referred s a) same (Counted.refers counted a a_pos))
      where
        same : count a s.objects ≡ count a (set s.objects i b)
        same = ground (arith, one_more a a_pos, other)

assign-Counted :
    (s : Store) (i j : ℕ)
    → i < length s.objects
    → j < length s.objects
    → 0 < cell_of s j
    → Counted s
    → Counted (assign s i j)
unfolding assign
assign-Counted s i j inside inside_j some_cell counted =
    if-elim Counted (i == j) (λ _. counted)
      λ other.
        shared-Counted s₁ i (cell_of s₁ j) (omega (arith, inside, after.0)) (after.1)
          (subst (λ a. 0 < a) (sym (after.2 j other)) some_cell)
          (count-get_or s₁.objects j (omega (arith, inside_j, after.0)))
          (reset-Counted s i none inside counted)
  where
    s₁ : Store
    s₁ = reset s i none

    after :
        (length s₁.objects ≡ length s.objects)
        × (cell_of s₁ i ≡ 0)
        × ((j : ℕ) → (i == j) ≡ false → cell_of s₁ j ≡ cell_of s j)
    after = reset-objects s i inside

normalize-Counted :
    (s : Store) (i : ℕ)
    → i < length s.objects
    → 0 < cell_of s i
    → Counted s
    → Counted (normalize s i)
unfolding normalize
normalize-Counted s i inside some_cell counted =
    if-elim Counted ((s.cells (cell_of s i)).ref_cnt == 1) (λ _. counted)
      λ _. new_cell-Counted _ i _ _ inside (less-CountedBut s i inside counted some_cell)

-- The operations: a plain value of a type, a new type or none, another object, and a cell of one's own
pub data Call : Type 0 where
  assign_value : ℕ → ℕ → ℕ → Call
  clear : ℕ → Option ℕ → Call
  copy : ℕ → ℕ → Call
  detach : ℕ → Call

abbrev pub step : Store → Call → Store
step s (assign_value i type value) = assign_naive s i type value
step s (clear i type) = reset s i type
step s (copy i j) = assign s i j
step s (detach i) = normalize s i

-- The objects are there, and those that are read have a cell.
abbrev pub Allowed : Store → Call → Type 0
Allowed s (assign_value i type value) = i < length s.objects
Allowed s (clear i type) = i < length s.objects
Allowed s (copy i j) = (i < length s.objects) × (j < length s.objects) × (0 < cell_of s j)
Allowed s (detach i) = (i < length s.objects) × (0 < cell_of s i)

step-Counted : (s : Store) (call : Call) → Allowed s call → Counted s → Counted (step s call)
step-Counted s (assign_value i type value) allowed counted =
    assign_naive-Counted s i type value allowed counted
step-Counted s (clear i type) allowed counted = reset-Counted s i type allowed counted
step-Counted s (copy i j) (inside, inside_j, some_cell) counted =
    assign-Counted s i j inside inside_j some_cell counted
step-Counted s (detach i) (inside, some_cell) counted =
    normalize-Counted s i inside some_cell counted

unfoldable pub steps : Store → List Call → Store
steps s [] = s
steps s (call ∷ calls) = steps (step s call) calls

unfoldable pub AllAllowed : Store → List Call → Type 0
AllAllowed s [] = Unit
AllAllowed s (call ∷ calls) = Allowed s call × AllAllowed (step s call) calls

-- Any sequence of these operations on fewer than 65536 objects keeps the counts right: a cell that an
-- object refers to was not deleted, and its count is the number of the objects that refer to it.
pub steps-Counted :
    (s : Store) (calls : List Call) → AllAllowed s calls → Counted s → Counted (steps s calls)
unfolding steps AllAllowed
steps-Counted s [] allowed counted = counted
steps-Counted s (call ∷ calls) (first, later) counted =
    steps-Counted (step s call) calls later (step-Counted s call first counted)
