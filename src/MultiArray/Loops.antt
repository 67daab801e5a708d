-- ===== src/MultiArray/Loops.antt =====
-- The loops of multi_array_helper.hpp.
use public_cpp.Base.{
  ℕ, zero, suc, ◌≡◌, inl, inr, refl, sym, ap, ◌∙◌, true, false, ◌&&◌, arith, ltb, ◌==◌, ==_iff,
  if◌then◌else◌, Bool-cases,
}
use public_cpp.MultiArray.{write_at, set_row, copy_row, set_dim2, copy_dim2, set_dim3, copy_dim3}

module _ {ℓ} {A : Type ℓ} where
  -- A loop over the first index, whose body turns the row `i` by `f i`
  rows_lem :
      (f : ℕ → A → A) (x : ℕ) (old rest : ℕ → A)
      → ((i : ℕ) → rest i ≡ (if ltb i x then f i (old i) else old i))
      → (i : ℕ) → write_at rest x (f x (rest x)) i ≡ (if ltb i (suc x) then f i (old i) else old i)
  rows_lem f x old rest h i = elim (Bool-cases (i == x)) [
    | inl e ↦
        let same = (==_iff i x).0 e in
        let below : ltb i (suc x) ≡ true = ground arith in
        let past : ltb x x ≡ false = ground arith in
        let row : rest x ≡ old x = h x ∙ ap (λ b. if b then f x (old x) else old x) past in
        rw (e, below) (ap (f x) row ∙ ap (λ k. f k (old k)) (sym same))
    | inr e ↦ let next : ltb i (suc x) ≡ ltb i x = ground arith in rw (e, next) (h i)
  ]

  set_row_lem :
      (y : ℕ) (v : A) (to : ℕ → A) (i : ℕ) → set_row y v to i ≡ (if ltb i y then v else to i)
  unfolding set_row
  set_row_lem zero v to i = ground arith
  set_row_lem (suc y) v to i = rows_lem (λ k a. v) y to (set_row y v to) (set_row_lem y v to) i

module _ {ℓ} {A : Type ℓ} where
  set_dim2-rows :
      (x y : ℕ) (v : A) (to : ℕ → ℕ → A) (i : ℕ)
      → set_dim2 x y v to i ≡ (if ltb i x then set_row y v (to i) else to i)
  unfolding set_dim2
  set_dim2-rows zero y v to i =
      let none_below : ltb i 0 ≡ false = ground arith in rw none_below refl
  set_dim2-rows (suc x) y v to i =
      rows_lem (λ k. set_row y v) x to (set_dim2 x y v to) (set_dim2-rows x y v to) i

  copy_dim2-rows :
      (x y : ℕ) (from to : ℕ → ℕ → A) (i : ℕ)
      → copy_dim2 x y from to i ≡ (if ltb i x then copy_row y (from i) (to i) else to i)
  unfolding copy_dim2
  copy_dim2-rows zero y from to i =
      let none_below : ltb i 0 ≡ false = ground arith in rw none_below refl
  copy_dim2-rows (suc x) y from to i =
      rows_lem (λ k. copy_row y (from k)) x to (copy_dim2 x y from to) (copy_dim2-rows x y from to)
        i

  set_dim3-rows :
      (x y z : ℕ) (v : A) (to : ℕ → ℕ → ℕ → A) (i : ℕ)
      → set_dim3 x y z v to i ≡ (if ltb i x then set_dim2 y z v (to i) else to i)
  unfolding set_dim3
  set_dim3-rows zero y z v to i =
      let none_below : ltb i 0 ≡ false = ground arith in rw none_below refl
  set_dim3-rows (suc x) y z v to i =
      rows_lem (λ k. set_dim2 y z v) x to (set_dim3 x y z v to) (set_dim3-rows x y z v to) i

  copy_dim3-rows :
      (x y z : ℕ) (from to : ℕ → ℕ → ℕ → A) (i : ℕ)
      → copy_dim3 x y z from to i ≡ (if ltb i x then copy_dim2 y z (from i) (to i) else to i)
  unfolding copy_dim3
  copy_dim3-rows zero y z from to i =
      let none_below : ltb i 0 ≡ false = ground arith in rw none_below refl
  copy_dim3-rows (suc x) y z from to i =
      rows_lem (λ k. copy_dim2 y z (from k)) x to (copy_dim3 x y z from to)
        (copy_dim3-rows x y z from to) i

  set_dim2_lem :
      (x y : ℕ) (v : A) (to : ℕ → ℕ → A) (i j : ℕ)
      → set_dim2 x y v to i j ≡ (if ltb i x && ltb j y then v else to i j)
  set_dim2_lem x y v to i j =
      ap (λ row. row j) (set_dim2-rows x y v to i)
      ∙ elim (Bool-cases (ltb i x)) [ inl e ↦ rw e (set_row_lem y v (to i) j) | inr e ↦ rw e refl ]

  copy_dim2_lem :
      (x y : ℕ) (from to : ℕ → ℕ → A) (i j : ℕ)
      → copy_dim2 x y from to i j ≡ (if ltb i x && ltb j y then from i j else to i j)
  unfolding copy_row
  copy_dim2_lem x y from to i j =
      ap (λ row. row j) (copy_dim2-rows x y from to i)
      ∙ elim (Bool-cases (ltb i x)) [ inl e ↦ rw e refl | inr e ↦ rw e refl ]

  -- `SetDim3` writes the value exactly at the indices below the three bounds.
  pub set_dim3-block :
      (x y z : ℕ) (v : A) (to : ℕ → ℕ → ℕ → A) (i j k : ℕ)
      → set_dim3 x y z v to i j k ≡ (if ltb i x && (ltb j y && ltb k z) then v else to i j k)
  set_dim3-block x y z v to i j k =
      ap (λ plane. plane j k) (set_dim3-rows x y z v to i) ∙ elim (Bool-cases (ltb i x)) [
        | inl e ↦ rw e (set_dim2_lem y z v (to i) j k)
        | inr e ↦ rw e refl
      ]

  -- `CopyDim3` copies exactly the indices below the three bounds, and keeps the target elsewhere.
  pub copy_dim3-block :
      (x y z : ℕ) (from to : ℕ → ℕ → ℕ → A) (i j k : ℕ)
      → copy_dim3 x y z from to i j k
        ≡ (if ltb i x && (ltb j y && ltb k z) then from i j k else to i j k)
  copy_dim3-block x y z from to i j k =
      ap (λ plane. plane j k) (copy_dim3-rows x y z from to i) ∙ elim (Bool-cases (ltb i x)) [
        | inl e ↦ rw e (copy_dim2_lem y z (from i) (to i) j k)
        | inr e ↦ rw e refl
      ]
