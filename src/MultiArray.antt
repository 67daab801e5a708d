-- ===== src/MultiArray.antt =====
-- multi_array_helper.hpp: setting and copying arrays of arrays. The rows are arrays of their own, so an
-- array of arrays is a function of its indices, and a target shares no row with its source.
pub mod Loops
mod Tests
use public_cpp.Base.{ℕ, zero, suc, Bool, ltb, ◌==◌, if◌then◌else◌}

module _ {ℓ} {A : Type ℓ} where
  abbrev pub write_at : (ℕ → A) → ℕ → A → ℕ → A
  write_at to i v k = if k == i then v else to k

  -- The inner loop of `SetDim2`
  pub set_row : ℕ → A → (ℕ → A) → ℕ → A
  set_row zero v to = to
  set_row (suc y) v to = write_at (set_row y v to) y v

  -- `memcpy` of `y` items
  pub copy_row : ℕ → (ℕ → A) → (ℕ → A) → ℕ → A
  copy_row y from to k = if ltb k y then from k else to k

module _ {ℓ} {A : Type ℓ} where
  pub set_dim2 : ℕ → ℕ → A → (ℕ → ℕ → A) → ℕ → ℕ → A
  unfolding set_row
  set_dim2 zero y v to = to
  set_dim2 (suc x) y v to = let rest = set_dim2 x y v to in write_at rest x (set_row y v (rest x))

  pub copy_dim2 : ℕ → ℕ → (ℕ → ℕ → A) → (ℕ → ℕ → A) → ℕ → ℕ → A
  unfolding copy_row
  copy_dim2 zero y from to = to
  copy_dim2 (suc x) y from to =
      let rest = copy_dim2 x y from to in write_at rest x (copy_row y (from x) (rest x))

  -- The two inner loops are those of `set_dim2` and `copy_dim2`.
  pub set_dim3 : ℕ → ℕ → ℕ → A → (ℕ → ℕ → ℕ → A) → ℕ → ℕ → ℕ → A
  unfolding set_dim2
  set_dim3 zero y z v to = to
  set_dim3 (suc x) y z v to =
      let rest = set_dim3 x y z v to in write_at rest x (set_dim2 y z v (rest x))

  pub copy_dim3 : ℕ → ℕ → ℕ → (ℕ → ℕ → ℕ → A) → (ℕ → ℕ → ℕ → A) → ℕ → ℕ → ℕ → A
  unfolding copy_dim2
  copy_dim3 zero y z from to = to
  copy_dim3 (suc x) y z from to =
      let rest = copy_dim3 x y z from to in write_at rest x (copy_dim2 y z (from x) (rest x))
