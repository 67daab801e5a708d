-- ===== src/CloseHashmap/Init.antt =====
-- `Init` of close_hashmap.hpp.
use public_cpp.Base.{
  ℕ, zero, suc, ◌<◌, ◌≡◌, refl, sym, inl, inr, Bool, true, none, some, arith, get_or-replicate,
  Bool-cases,
}
use public_cpp.CloseHashmap.{Key, Item, free, Map, get, primes, fits, init, blank}
use public_cpp.CloseHashmap.Invariant.{IsValid, get-of-Lacks}
use public_cpp.CloseHashmap.Resize.{empty-IsTable, count_live-replicate}
use public_cpp.CloseHashmap.Primes.{fits-Covers}

fits-pos : (n : ℕ) → fits primes n ≡ true → 0 < n
unfolding fits
fits-pos zero h = absurd (ground arith)
fits-pos (suc n) h = omega arith

module _ {ℓ} {K V : Type ℓ} ⦃key : Key K⦄ where
  blank-IsValid :
      (size : ℕ) (to_resize : Bool)
      → fits primes size ≡ true
      → IsValid (blank {K = K} {V = V} size to_resize)
  blank-IsValid size to_resize f = record {
    sized = fits-pos size f;
    table = empty-IsTable size;
    covered = fits-Covers size f;
    counted = sym (count_live-replicate K V size);
  }

  blank-get :
      (size : ℕ) (to_resize : Bool) (k : K)
      → fits primes size ≡ true
      → get (blank {V = V} size to_resize) k ≡ none
  blank-get size to_resize k f =
      get-of-Lacks (blank size to_resize) k (fits-pos size f) (empty-IsTable size)
        (λ p v a. ground (arith, get_or-replicate {A = Item K V} size p free))

  -- A map that `Init` accepts is valid and empty: every lookup fails, and the probes for any key go
  -- through the whole array.
  pub init_correct :
      (size : ℕ) (to_resize : Bool) (m : Map K V)
      → init size to_resize ≡ some m
      → IsValid m × (m.size_array ≡ size) × (m.num_elm ≡ 0) × ((k : K) → get m k ≡ none)
  unfolding init
  init_correct size to_resize m e = elim (Bool-cases (fits primes size)) [
    | inr n ↦ absurd (ground arith)
    | inl f ↦
        let same : blank size to_resize ≡ m = ground arith in
        rw (← same) (blank-IsValid size to_resize f, refl, refl, λ k. blank-get size to_resize k f)
  ]
