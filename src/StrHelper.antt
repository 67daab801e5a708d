-- ===== src/StrHelper.antt =====
-- str_helper.hpp: splitting a string at a separator.
pub mod Split
mod Tests
use public_cpp.Base.{
  ℕ, zero, suc, ◌+◌, List, [], ◌∷◌, Option, none, some, ◌==◌, ◌||◌, if◌then◌else◌, length,
}

-- A string is the list of its characters; the `const char*` of `c_str` ends at the first 0, and at the
-- end of the list.
abbrev pub c_str : List ℕ → List ℕ
c_str [] = []
c_str (c ∷ cs) = if c == 0 then [] else c ∷ c_str cs

-- The inner loop: the characters before `ptr_1`, and those behind it unless it is at the end
pub scan : ℕ → List ℕ → List ℕ × Option (List ℕ)
scan sep [] = ([], none)
scan sep (c ∷ cs) =
    let rest = scan sep cs in
    if c == 0 then ([], none) else if c == sep then ([], some cs) else (c ∷ rest.0, rest.1)

-- The outer loop. One round more than there are characters is enough.
pub split_loop : ℕ → ℕ → List ℕ → List (List ℕ)
unfolding scan
split_loop zero sep str = []
split_loop (suc fuel) sep str =
    let found = scan sep str in
    elim found.1 [ none ↦ found.0 ∷ [] | some rest ↦ found.0 ∷ split_loop fuel sep rest ]

pub split_str : List ℕ → ℕ → List (List ℕ)
unfolding split_loop
split_str str sep = split_loop (length str + 1) sep str
