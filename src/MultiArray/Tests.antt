-- ===== src/MultiArray/Tests.antt =====
-- A run of a loop of multi_array_helper.hpp.
use public_cpp.Base.{ℕ, ◌≡◌, refl}
use public_cpp.MultiArray.{set_dim2}

run : (set_dim2 {A = ℕ} 2 3 9 (λ i j. 0) 1 2 ≡ 9) × (set_dim2 {A = ℕ} 2 3 9 (λ i j. 0) 1 3 ≡ 0)
unfolding set_dim2
run = (refl, refl)
