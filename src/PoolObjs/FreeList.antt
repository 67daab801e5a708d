-- ===== src/PoolObjs/FreeList.antt =====
-- The objects that the blocks of pool_objs/pool_objs.hpp hold, as a list with the next one in front.
use public_cpp.Base.{
  ℕ, zero, suc, ◌+◌, ◌*◌, ◌≤◌, ◌<◌, ◌≡◌, refl, ap, ◌∙◌, List, [], ◌∷◌, ◌++◌, true, arith, length,
  length-append, count, count-append,
}
use public_cpp.PoolObjs.{Pool}

-- The first `k` objects of the row `r`, the last one in front
unfoldable pub row_objs : (ℕ → ℕ → ℕ) → ℕ → ℕ → List ℕ
row_objs f r zero = []
row_objs f r (suc k) = f r k ∷ row_objs f r k

-- The objects of the first `r` rows of `n`
unfoldable pub rows : (ℕ → ℕ → ℕ) → ℕ → ℕ → List ℕ
unfolding row_objs
rows f n zero = []
rows f n (suc r) = row_objs f r n ++ rows f n r

-- `k` new objects from `a` on, the last one in front
unfoldable pub span : ℕ → ℕ → List ℕ
span a zero = []
span a (suc k) = (a + k) ∷ span a k

unfoldable pub free_objs {ℓ} : {V : Type ℓ} → Pool V → List ℕ
unfolding row_objs rows
free_objs p =
    row_objs p.cell p.current_row p.current_col ++ rows p.cell p.num_objs_per_block p.current_row

-- The fields that say where the objects are, within their bounds
pub record IsPool {ℓ} {V : Type ℓ} (p : Pool V) : Type 0 where
  pub ready : p.init ≡ true
  pub col_bound : p.current_col < p.num_objs_per_block
  pub row_bound : p.current_row ≤ p.num_blocks_alloc
  pub full : p.current_row ≡ p.num_blocks_alloc → p.current_col ≡ 0
  pub block_bound : p.num_blocks_alloc ≤ p.max_num_blocks

pub length-row_objs : (f : ℕ → ℕ → ℕ) (r k : ℕ) → length (row_objs f r k) ≡ k
unfolding row_objs
length-row_objs f r zero = refl
length-row_objs f r (suc k) = ap suc (length-row_objs f r k)

pub length-rows : (f : ℕ → ℕ → ℕ) (n r : ℕ) → length (rows f n r) ≡ r * n
unfolding rows
length-rows f n zero = omega arith
length-rows f n (suc r) =
    omega
      (arith, length-append (row_objs f r n) (rows f n r), length-row_objs f r n, length-rows f n r)

pub length-free_objs {ℓ} :
    {V : Type ℓ} (p : Pool V)
    → length (free_objs p) ≡ p.current_row * p.num_objs_per_block + p.current_col
unfolding free_objs
length-free_objs p =
    let n = p.num_objs_per_block in
    let r = p.current_row in
    omega (
      arith,
      length-append (row_objs p.cell r p.current_col) (rows p.cell n r),
      length-row_objs p.cell r p.current_col,
      length-rows p.cell n r,
    )

pub row_objs-agree :
    (f g : ℕ → ℕ → ℕ) (r k : ℕ)
    → ((c : ℕ) → c < k → f r c ≡ g r c)
    → row_objs f r k ≡ row_objs g r k
unfolding row_objs
row_objs-agree f g r zero h = refl
row_objs-agree f g r (suc k) h =
    rw (h k (omega arith), row_objs-agree f g r k (λ c l. h c (omega arith))) refl

pub rows-agree :
    (f g : ℕ → ℕ → ℕ) (n r : ℕ) → ((s c : ℕ) → s < r → f s c ≡ g s c) → rows f n r ≡ rows g n r
unfolding rows
rows-agree f g n zero h = refl
rows-agree f g n (suc r) h =
    rw
      (
        row_objs-agree f g r n (λ c l. h r c (omega arith)),
        rows-agree f g n r (λ s c l. h s c (omega arith)),
      )
      refl

pub row_objs-span :
    (f : ℕ → ℕ → ℕ) (a r k : ℕ) → ((c : ℕ) → c < k → f r c ≡ a + c) → row_objs f r k ≡ span a k
unfolding row_objs span
row_objs-span f a r zero h = refl
row_objs-span f a r (suc k) h =
    rw (h k (omega arith), row_objs-span f a r k (λ c l. h c (omega arith))) refl

-- Each new object is in its span once.
pub count-span :
    (x a k : ℕ)
    → (count x (span a k) ≤ 1)
      × ((x < a) → count x (span a k) ≡ 0)
      × ((a + k ≤ x) → count x (span a k) ≡ 0)
unfolding span
count-span x a zero = (omega arith, λ h. refl, λ h. refl)
count-span x a (suc k) =
    let (one, below, above) = count-span x a k in
    (ground arith, λ h. ground arith, λ h. ground arith)

pub count-rows_suc :
    (f : ℕ → ℕ → ℕ) (x n r : ℕ)
    → count x (rows f n (r + 1)) ≡ count x (row_objs f r n) + count x (rows f n r)
unfolding rows
count-rows_suc f x n r =
    let next : r + 1 ≡ suc r = omega arith in
    ap (λ t. count x (rows f n t)) next ∙ count-append x (row_objs f r n) (rows f n r)
