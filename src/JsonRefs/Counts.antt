-- ===== src/JsonRefs/Counts.antt =====
-- How often a number stands in a list, after one place of the list was written.
use public_cpp.Base.{
  ℕ, zero, suc, ◌+◌, ◌<◌, ◌≤◌, ◌≡◌, refl, ap, List, [], ◌∷◌, ◌==◌, if◌then◌else◌, length, get_or,
  set, count, arith,
}

-- 1 for the number itself
abbrev is : ℕ → ℕ → ℕ
is x y = if x == y then 1 else 0

pub count-set :
    (x : ℕ) (xs : List ℕ) (i v : ℕ)
    → i < length xs
    → count x (set xs i v) + (if x == get_or xs i 0 then 1 else 0)
      ≡ count x xs + (if x == v then 1 else 0)
unfolding set get_or
count-set x [] i v h = absurd (omega arith)
count-set x (y ∷ xs) zero v h = omega arith
count-set x (y ∷ xs) (suc i) v h = omega (arith, count-set x xs i v (omega arith))

pub count-le : (x : ℕ) (xs : List ℕ) → count x xs ≤ length xs
count-le x [] = omega arith
count-le x (y ∷ xs) = ground (arith, count-le x xs)

-- What a place adds, above what the others hold
pub count-put :
    (x : ℕ) (xs : List ℕ) (i v : ℕ)
    → i < length xs
    → 0 < x
    → count x (set xs i v) ≡ count x (set xs i 0) + (if x == v then 1 else 0)
count-put x xs i v h pos = ground (arith, count-set x xs i v h, count-set x xs i 0 h, pos)

-- A number that stands in the list is counted.
pub count-get_or : (xs : List ℕ) (i : ℕ) → i < length xs → 0 < count (get_or xs i 0) xs
unfolding get_or
count-get_or [] i h = absurd (omega arith)
count-get_or (y ∷ xs) zero h = ground arith
count-get_or (y ∷ xs) (suc i) h = omega (arith, count-get_or xs i (omega arith))

pub set-set : (xs : List ℕ) (i u v : ℕ) → set (set xs i u) i v ≡ set xs i v
unfolding set
set-set [] i u v = refl
set-set (x ∷ xs) zero u v = refl
set-set (x ∷ xs) (suc i) u v = ap (λ ys. x ∷ ys) (set-set xs i u v)
