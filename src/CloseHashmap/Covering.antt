-- ===== src/CloseHashmap/Covering.antt =====
-- The probes of close_hashmap.hpp by a prime step go through every position of an array whose size
-- that prime does not divide.
use public_cpp.Base.{
  ℕ, zero, suc, ◌+◌, ◌-◌, ◌*◌, ◌/◌, ◌%◌, ◌<◌, ◌≡◌, sym, ap, ◌∙◌, ◌≢◌, inl, inr, arith,
}
use native.Mathlib.Nat.{div-add-mod', add-mul-mod_self_left, mod-eq_of_lt, mod-add-mod}
use native.Mathlib.Decide.{ℕ_discrete}
use public_cpp.CloseHashmap.Probe.{Visits}
use public_cpp.CloseHashmap.Prime.{IsPrime}

lt_of_mul : (u w p : ℕ) → w * p < u * p → w < u
lt_of_mul u w p h = grind arith

pos_mul : (b d : ℕ) → 0 < b → 0 < d → 0 < b * d
pos_mul b d h k = grind arith

-- From an inverse of the remainder of `p` by `r` to one of `r`.
inverse_step :
    (p r q s u w : ℕ)
    → 1 < p
    → p ≡ q * r + s
    → u * s ≡ 1 + w * p
    → (p - 1) * (u * q) * r ≡ 1 + ((p - 1) * (u - w) - 1) * p
inverse_step p r q s u w one division e =
    let b = p - 1 in
    let d = u - w in
    let g = b * d - 1 in
    let whole : u * q * r + 1 + w * p ≡ u * p = omega (arith, ap (λ (t : ℕ). u * t) division) in
    let more : w < u = lt_of_mul u w p (omega arith) in
    let split : u ≡ w + d = omega arith in
    let part : u * q * r + 1 ≡ d * p = omega (arith, ap (λ (t : ℕ). t * p) split) in
    let scaled : b * (u * q * r + 1) ≡ b * (d * p) = ap (λ (t : ℕ). b * t) part in
    let back : b * d ≡ g + 1 = omega (arith, pos_mul b d (omega arith) (omega arith)) in
    let last : b * d * p ≡ (g + 1) * p = ap (λ (t : ℕ). t * p) back in
    sums (b * (u * q) * r) b (g * p) (b * (d * p)) p (omega arith) (omega arith) (omega arith)
  where
    sums : (x b y z p : ℕ) → p ≡ b + 1 → x + b ≡ z → z ≡ y + p → x ≡ 1 + y
    sums x b y z p h k l = omega arith

-- Modulo a prime every smaller positive number has an inverse.
inverse :
    (fuel p r : ℕ) → IsPrime p → r < fuel → 0 < r → r < p → (u : ℕ) × (w : ℕ) × (u * r ≡ 1 + w * p)
inverse zero p r prime f pos less = absurd (omega arith)
inverse (suc fuel) p r prime f pos less = elim (ℕ_discrete r 1) [
  | yes one ↦ (1, 0, omega arith)
  | no more ↦
      let s = p % r in
      let (u, w, e) =
        inverse fuel p s prime (omega arith) (rest (prime.1 r (omega arith) less)) (omega arith) in
      let q = p / r in
      (
        (p - 1) * (u * q),
        (p - 1) * (u - w) - 1,
        inverse_step p r q s u w prime.0 (sym (div-add-mod' p r)) e,
      )
]
  where
    rest : p % r ≢ 0 → 0 < p % r
    rest n = omega arith

-- A prime that does not divide `n` has a negative inverse modulo `n`.
step_inverse : (n a : ℕ) → IsPrime a → n % a ≢ 0 → (v : ℕ) × (u : ℕ) × (v * a + 1 ≡ u * n)
step_inverse n a prime apart =
    let r = n % a in
    let one = prime.0 in
    let (u, w, e) = inverse (r + 1) a r prime (omega arith) (omega arith) (omega arith) in
    let q = n / a in
    let whole : u * (q * a + r) ≡ u * n = ap (λ (t : ℕ). u * t) (div-add-mod' n a) in
    (u * q + w, u, omega arith)

mod_of_sum : (x p n s t : ℕ) → x + n * s ≡ p + n * t → p < n → x % n ≡ p
mod_of_sum x p n s t e h =
    sym (add-mul-mod_self_left x n s)
    ∙ ap (λ (y : ℕ). y % n) e
    ∙ add-mul-mod_self_left p n t
    ∙ mod-eq_of_lt h

hits :
    (n a v u h p : ℕ)
    → v * a + 1 ≡ u * n
    → h < n
    → p < n
    → (j : ℕ) × (j < n) × ((h + j * a) % n ≡ p)
hits n a v u h p inv hh hp =
    let e = h + n - p in
    let j = e * v % n in
    let k = e * v / n in
    let apart : p + e ≡ h + n = omega arith in
    let multiple : (k * n + j) * a ≡ e * v * a = ap (λ (t : ℕ). t * a) (div-add-mod' (e * v) n) in
    let turned : e * (v * a + 1) ≡ e * (u * n) = ap (λ (t : ℕ). e * t) inv in
    (j, omega arith, mod_of_sum (h + j * a) p n (1 + k * a) (e * u) (omega arith) hp)

Visits-at :
    (size st j rounds pos p : ℕ)
    → j < rounds
    → pos < size
    → (pos + j * st) % size ≡ p
    → Visits size st rounds pos p
Visits-at size st j zero pos p b s e = absurd (omega arith)
Visits-at size st zero (suc rounds) pos p b s e =
    inl (sym (mod-eq_of_lt s) ∙ ap (λ (t : ℕ). t % size) (omega arith) ∙ e)
Visits-at size st (suc j) (suc rounds) pos p b s e = inr (
    Visits-at size st j rounds ((pos + st) % size) p (omega arith) (omega arith)
      (mod-add-mod (pos + st) size (j * st) ∙ ap (λ (t : ℕ). t % size) (omega arith) ∙ e))

pub prime_covers :
    (size a h p : ℕ) → IsPrime a → size % a ≢ 0 → h < size → p < size → Visits size a size h p
prime_covers size a h p prime apart hh hp =
    let (v, u, inv) = step_inverse size a prime apart in
    let (j, b, e) = hits size a v u h p inv hh hp in Visits-at size a j size h p b hh e
