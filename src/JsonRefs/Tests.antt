-- ===== src/JsonRefs/Tests.antt =====
-- Runs on two objects, and the properties on them.
use public_cpp.Base.{ℕ, ◌<◌, refl, true, none, List, [], ◌∷◌, get_or, set, count, arith}
use public_cpp.JsonRefs.{Store, new_cell, assign_naive, reset, assign, normalize}
use public_cpp.JsonRefs.Counted.{Counted}
use public_cpp.JsonRefs.Steps.{
  Call, assign_value, clear, copy, detach, steps, AllAllowed, steps-Counted,
}
use public_cpp.JsonRefs.Leak.{Leaked, assign_naive-leaks}

-- Three objects, none with a cell
abbrev nothing : Store
nothing = record {
  cells = λ _. record { type = 0; ref_cnt = 0; value = 0; deleted = true };
  next = 1;
  objects = 0 ∷ 0 ∷ 0 ∷ [];
}

nothing-Counted : Counted nothing
nothing-Counted = record {
  few = omega arith;
  started = omega arith;
  refers = λ a pos some_refs. absurd (unused a pos some_refs);
}
  where
    unused : (a : ℕ) → 0 < a → 0 < count a nothing.objects → ⊥
    unused a pos some_refs = ground arith

-- An integer, two copies of it, and a copy that lets go and takes a value of its own
abbrev calls : List Call
calls = assign_value 0 2 7 ∷ copy 1 0 ∷ copy 2 1 ∷ assign_value 1 2 8 ∷ detach 2 ∷ clear 0 none ∷ []

calls-AllAllowed : AllAllowed nothing calls
unfolding AllAllowed assign_naive assign normalize reset new_cell get_or set
calls-AllAllowed = (
  omega arith,
  (
    (omega arith, omega arith, omega arith),
    (
      (omega arith, omega arith, omega arith),
      (omega arith, ((omega arith, omega arith), (omega arith, tt))),
    ),
  ),
)

steps-Counted_example : Counted (steps nothing calls)
steps-Counted_example = steps-Counted nothing calls calls-AllAllowed nothing-Counted

-- An object with an integer of its own
abbrev one_integer : Store
one_integer = assign_naive nothing 0 2 7

one_integer-Counted : Counted one_integer
unfolding steps AllAllowed
one_integer-Counted =
    steps-Counted nothing (assign_value 0 2 7 ∷ []) (omega arith, tt) nothing-Counted

assign_naive-leaks_example : Leaked one_integer 0 8 (assign_naive one_integer 0 2 8)
unfolding assign_naive new_cell get_or set
assign_naive-leaks_example =
    assign_naive-leaks one_integer 0 8 (omega arith) (omega arith) one_integer-Counted refl
