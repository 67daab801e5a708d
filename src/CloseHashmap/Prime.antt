-- ===== src/CloseHashmap/Prime.antt =====
-- Primality by trial division, for the table `kPrimes` of close_hashmap.hpp.
use public_cpp.Base.{
  ℕ, zero, suc, ◌+◌, ◌*◌, ◌/◌, ◌%◌, ◌≤◌, ◌<◌, ◌≡◌, ◌≢◌, inl, inr, Bool, true, false, arith, ◌==◌,
  Bool-cases,
}
use native.Mathlib.Decide.{dec_lt}

abbrev pub IsPrime : ℕ → Type 0
IsPrime p = (1 < p) × ((d : ℕ) → 1 < d → d < p → p % d ≢ 0)

-- None of the `rounds` numbers from `d` divides `p`.
unfoldable pub no_divisor : ℕ → ℕ → ℕ → Bool
no_divisor zero d p = true
no_divisor (suc rounds) d p = elim (p % d == 0) [
  | true ↦ false
  | false ↦ no_divisor rounds (d + 1) p
]

no_divisor-below :
    (rounds d p : ℕ) → no_divisor rounds d p ≡ true → (e : ℕ) → d ≤ e → e < d + rounds → p % e ≢ 0
unfolding no_divisor
no_divisor-below zero d p h e lo hi = absurd (omega arith)
no_divisor-below (suc rounds) d p h e lo hi = elim (Bool-cases (d == e)) [
  | inl same ↦ ground arith
  | inr other ↦ ground (arith, no_divisor-below rounds (d + 1) p (ground arith) e)
]

-- A proper divisor and its cofactor cannot both be `b` or more, where `p < b * b`.
cofactor :
    (p b d : ℕ)
    → p < b * b
    → 1 < d
    → d < p
    → p % d ≡ 0
    → b ≤ d
    → (f : ℕ) × (1 < f) × (f < b) × (p % f ≡ 0)
cofactor p b d s lo hi e big = (p / d, grind arith, grind arith, grind arith)

pub IsPrime-by_trial : (p b : ℕ) → 1 < p → p < b * b → no_divisor b 2 p ≡ true → IsPrime p
IsPrime-by_trial p b one s h = (one, λ d lo hi e. by_size d lo hi e)
  where
    small : (d : ℕ) → 1 < d → d < b → p % d ≢ 0
    small d lo hi = no_divisor-below b 2 p h d lo (omega arith)

    by_size : (d : ℕ) → 1 < d → d < p → p % d ≡ 0 → ⊥
    by_size d lo hi e = elim (dec_lt d b) [
      | yes less ↦ small d lo less e
      | no more ↦
          let (f, lo', hi', e') = cofactor p b d s lo hi e (omega arith) in small f lo' hi' e'
    ]
