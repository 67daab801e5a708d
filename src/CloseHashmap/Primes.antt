-- ===== src/CloseHashmap/Primes.antt =====
-- The table `kPrimes` of close_hashmap.hpp: each entry is prime.
use public_cpp.Base.{
  ℕ, zero, suc, ◌*◌, ◌%◌, ◌<◌, ◌≡◌, refl, ◌≢◌, true, false, List, [], ◌∷◌, arith, length, get_or,
  ltb, leb,
}
use public_cpp.CloseHashmap.{primes, step, fits}
use public_cpp.CloseHashmap.Invariant.{Covers}
use public_cpp.CloseHashmap.Prime.{IsPrime, IsPrime-by_trial, no_divisor}
use public_cpp.CloseHashmap.Covering.{prime_covers}

abbrev AllPrime : List ℕ → Type 0
AllPrime [] = Unit
AllPrime (p ∷ ps) = IsPrime p × AllPrime ps

get_or-AllPrime : (ps : List ℕ) (i d : ℕ) → AllPrime ps → i < length ps → IsPrime (get_or ps i d)
unfolding get_or
get_or-AllPrime [] i d a h = absurd (omega arith)
get_or-AllPrime (p ∷ ps) zero d a h = a.0
get_or-AllPrime (p ∷ ps) (suc i) d a h = get_or-AllPrime ps i d a.1 (omega arith)

fits-get_or : (ps : List ℕ) (n i d : ℕ) → fits ps n ≡ true → i < length ps → n % get_or ps i d ≢ 0
unfolding get_or fits
fits-get_or [] n i d f h = absurd (omega arith)
fits-get_or (p ∷ ps) n zero d f h = ground arith
fits-get_or (p ∷ ps) n (suc i) d f h = ground (arith, fits-get_or ps n i d)

by_trial : (p b : ℕ) → leb p 1 ≡ false → ltb p (b * b) ≡ true → no_divisor b 2 p ≡ true → IsPrime p
by_trial p b one s h = IsPrime-by_trial p b (ground arith) (ground arith) h

-- Trial division, which is evaluated.
primes-AllPrime : AllPrime primes
unfolding no_divisor
primes-AllPrime = (
  by_trial 53 8 refl refl refl,
  (
    by_trial 97 10 refl refl refl,
    (
      by_trial 193 14 refl refl refl,
      (
        by_trial 389 20 refl refl refl,
        (
          by_trial 769 28 refl refl refl,
          (
            by_trial 1543 40 refl refl refl,
            (
              by_trial 3079 56 refl refl refl,
              (
                by_trial 6151 79 refl refl refl,
                (
                  by_trial 12289 111 refl refl refl,
                  (
                    by_trial 24593 157 refl refl refl,
                    (
                      by_trial 49157 222 refl refl refl,
                      (
                        by_trial 98317 314 refl refl refl,
                        (
                          by_trial 196613 444 refl refl refl,
                          (
                            by_trial 393241 628 refl refl refl,
                            (
                              by_trial 786433 887 refl refl refl,
                              (
                                by_trial 1572869 1255 refl refl refl,
                                (
                                  by_trial 3145739 1774 refl refl refl,
                                  (
                                    by_trial 6291469 2509 refl refl refl,
                                    (
                                      by_trial 12582917 3548 refl refl refl,
                                      (
                                        by_trial 25165843 5017 refl refl refl,
                                        (
                                          by_trial 50331653 7095 refl refl refl,
                                          (
                                            by_trial 100663319 10034 refl refl refl,
                                            (
                                              by_trial 201326611 14189 refl refl refl,
                                              (
                                                by_trial 402653189 20067 refl refl refl,
                                                (
                                                  by_trial 805306457 28378 refl refl refl,
                                                  (
                                                    by_trial 1610612741 40133 refl refl refl,
                                                    (
                                                      by_trial 3221225473 56756 refl refl refl,
                                                      (
                                                        by_trial 4294967291 65536 refl refl refl,
                                                        tt,
                                                      ),
                                                    ),
                                                  ),
                                                ),
                                              ),
                                            ),
                                          ),
                                        ),
                                      ),
                                    ),
                                  ),
                                ),
                              ),
                            ),
                          ),
                        ),
                      ),
                    ),
                  ),
                ),
              ),
            ),
          ),
        ),
      ),
    ),
  ),
)

-- A size that `Init` accepts is divided by no step, so the probes from any position go through the
-- whole array.
pub fits-Covers : (size : ℕ) → fits primes size ≡ true → Covers size
unfolding step
fits-Covers size f h p hh hp =
    let i : h % 28 < 28 = omega arith in
    prime_covers size (step h) h p (get_or-AllPrime primes (h % 28) 53 primes-AllPrime i)
      (fits-get_or primes size (h % 28) 53 f i) hh hp
