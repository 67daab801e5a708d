-- ===== src/PoolObjs/Start.antt =====
-- `Init_` of pool_objs/pool_objs.hpp.
use public_cpp.Base.{
  ℕ, zero, suc, ◌+◌, ◌*◌, ◌≤◌, ◌<◌, ◌≡◌, ◌⊎◌, inl, inr, refl, ap, ◌∙◌, sym, ◌++◌, length, count,
  Bool, true, false, arith, ltb, ◌==◌, ==_iff, if◌then◌else◌, Bool-cases,
}
use native.Mathlib.Nat.{mul-le-mul_right}
use public_cpp.PoolObjs.{Pool, fill, alloc_a_block, init_loop, init_pool, ensure}
use public_cpp.PoolObjs.FreeList.{
  free_objs, IsPool, count-span, count-rows_suc, row_objs, rows, row_objs-span, rows-agree,
  length-free_objs, span,
}
use public_cpp.PoolObjs.Fill.{fill-Filled}

module _ {ℓ} {V : Type ℓ} where
  -- A pool in the loop of `Init_`: its blocks are full of objects that are all different.
  pub record IsStarting (p : Pool V) : Type 0 where
    pub col : p.current_col ≡ 0
    pub row : p.current_row ≡ p.num_blocks_alloc
    pub block_bound : p.num_blocks_alloc ≤ p.max_num_blocks
    pub positive : 0 < p.num_objs_per_block
    pub once : (x : ℕ) → count x (rows p.cell p.num_objs_per_block p.current_row) ≤ 1
    pub seen : (x : ℕ) → p.fresh ≤ x → count x (rows p.cell p.num_objs_per_block p.current_row) ≡ 0

  -- A pool as the constructor leaves it
  pub record IsNew (p : Pool V) : Type 0 where
    pub new : p.init ≡ false
    pub col : p.current_col ≡ 0
    pub row : p.current_row ≡ 0
    pub blocks : p.num_blocks_alloc ≡ 0
    pub positive : 0 < p.num_objs_per_block

  -- The row that `AllocABlock_` fills, with the rows below it
  fill-counts :
      (p : Pool V) (x : ℕ)
      → let q = fill p.num_objs_per_block p in
        count x (rows q.cell q.num_objs_per_block (q.current_row + 1))
        ≡ count x (span p.fresh p.num_objs_per_block)
          + count x (rows p.cell p.num_objs_per_block p.current_row)
  fill-counts p x =
      let n = p.num_objs_per_block in
      let q = fill n p in
      let s = fill-Filled n p in
      let row = row_objs-span q.cell p.fresh p.current_row n s.row in
      let below =
        rows-agree q.cell p.cell n p.current_row
          (λ r c l. s.others r c (λ e. absurd (omega arith))) in
      ap (λ m. count x (rows q.cell m (q.current_row + 1))) s.num_objs_per_block
      ∙ ap (λ r. count x (rows q.cell n (r + 1))) s.current_row
      ∙ count-rows_suc q.cell x n p.current_row
      ∙ ap (λ t. count x t + count x (rows q.cell n p.current_row)) row
      ∙ ap (λ t. count x (span p.fresh n) + count x t) below

  pub alloc_a_block-full :
      (p : Pool V) → p.max_num_blocks ≡ p.num_blocks_alloc → alloc_a_block p ≡ (false, p)
  unfolding alloc_a_block
  alloc_a_block-full p e = rw ((==_iff p.max_num_blocks p.num_blocks_alloc).1 e, alloc_a_block) refl

  pub alloc_a_block-filled :
      (p : Pool V)
      → p.num_blocks_alloc < p.max_num_blocks
      → alloc_a_block p ≡ (
        true,
        record (fill p.num_objs_per_block p) {
          num_blocks_alloc = (fill p.num_objs_per_block p).num_blocks_alloc + 1;
          current_row = (fill p.num_objs_per_block p).current_row + 1;
        },
      )
  unfolding alloc_a_block
  alloc_a_block-filled p h =
      let differ : (p.max_num_blocks == p.num_blocks_alloc) ≡ false = ground arith in
      rw (differ, alloc_a_block) refl

  -- What one round of the loop of `Init_` keeps.
  record Grown (p q : Pool V) : Type 0 where
    starting : IsStarting q
    more : q.num_blocks_alloc ≡ p.num_blocks_alloc + 1
    wanted : q.init_num_objs ≡ p.init_num_objs
    per_block : q.num_objs_per_block ≡ p.num_objs_per_block
    max : q.max_num_blocks ≡ p.max_num_blocks
    kept : q.deleted ≡ p.deleted
    lock : q.lock ≡ p.lock

  alloc_a_block-Grown :
      (p : Pool V)
      → IsStarting p
      → p.num_blocks_alloc < p.max_num_blocks
      → ((alloc_a_block p).0 ≡ true) × Grown p (alloc_a_block p).1
  alloc_a_block-Grown p w h =
      let n = p.num_objs_per_block in
      let q = fill n p in
      let s = fill-Filled n p in
      rw (alloc_a_block-filled p h) (
        refl,
        record {
          starting = record {
            col = s.current_col ∙ w.col;
            row = ap (λ t. t + 1) (s.current_row ∙ w.row ∙ sym s.num_blocks_alloc);
            block_bound = omega (arith, s.num_blocks_alloc, s.max_num_blocks);
            positive = omega (arith, s.num_objs_per_block, w.positive);
            once = λ x. ground (arith, fill-counts p x, count-span x p.fresh n, w.once x, w.seen x);
            seen =
                λ x l. ground (arith, fill-counts p x, count-span x p.fresh n, w.seen x, s.fresh);
          };
          more = ap (λ t. t + 1) s.num_blocks_alloc;
          wanted = s.init_num_objs;
          per_block = s.num_objs_per_block;
          max = s.max_num_blocks;
          kept = s.deleted;
          lock = s.lock;
        },
      )

  -- What a successful `Init_` leaves: at least the objects asked for, all different, all free.
  pub record Started (p q : Pool V) : Type 0 where
    pub valid : IsPool q
    pub enough : p.init_num_objs ≤ length (free_objs q)
    pub once : (x : ℕ) → count x (free_objs q) ≤ 1
    pub seen : (x : ℕ) → q.fresh ≤ x → count x (free_objs q) ≡ 0
    pub kept : q.deleted ≡ p.deleted
    pub lock : q.lock ≡ p.lock

  free_objs-rows :
      (p : Pool V)
      → p.current_col ≡ 0
      → free_objs p ≡ rows p.cell p.num_objs_per_block p.current_row
  unfolding free_objs row_objs
  free_objs-rows p e =
      ap (λ c. row_objs p.cell p.current_row c ++ rows p.cell p.num_objs_per_block p.current_row) e

  starting-Started :
      (p : Pool V)
      → IsStarting p
      → p.init_num_objs ≤ p.num_blocks_alloc * p.num_objs_per_block
      → Started p (record p { init = true })
  starting-Started p w h =
      let q : Pool V = record p { init = true } in
      let same = free_objs-rows q w.col in
      record {
        valid = record {
          ready = refl;
          col_bound = omega (arith, w.col, w.positive);
          row_bound = omega (arith, w.row);
          full = λ e. w.col;
          block_bound = w.block_bound;
        };
        enough = omega (arith, length-free_objs q, ap (λ r. r * p.num_objs_per_block) w.row, w.col);
        once = λ x. rw same (w.once x);
        seen = λ x l. rw same (w.seen x l);
        kept = refl;
        lock = refl;
      }

  init_loop-done :
      (fuel : ℕ) (p : Pool V)
      → ltb (p.num_blocks_alloc * p.num_objs_per_block) p.init_num_objs ≡ false
      → init_loop (suc fuel) p ≡ (true, record p { init = true })
  unfolding init_loop
  init_loop-done fuel p e = rw (e, init_loop) refl

  init_loop-more :
      (fuel : ℕ) (p : Pool V)
      → ltb (p.num_blocks_alloc * p.num_objs_per_block) p.init_num_objs ≡ true
      → init_loop (suc fuel) p
        ≡ (if (alloc_a_block p).0 then init_loop fuel (alloc_a_block p).1 else alloc_a_block p)
  unfolding init_loop
  init_loop-more fuel p e = rw (e, init_loop) refl

  -- The outcome of `Init_`: it fails exactly when the objects asked for do not fit in the blocks.
  abbrev pub Outcome : Pool V → Bool × Pool V → Type 0
  Outcome p r =
      ((r.0 ≡ true) × (p.init_num_objs ≤ p.max_num_blocks * p.num_objs_per_block) × Started p r.1)
      ⊎ (r.0 ≡ false) × (p.max_num_blocks * p.num_objs_per_block < p.init_num_objs)

  Grown-Outcome : (p q : Pool V) (r : Bool × Pool V) → Grown p q → Outcome q r → Outcome p r
  Grown-Outcome p q r g o =
      let bound : q.max_num_blocks * q.num_objs_per_block
          ≡ p.max_num_blocks * p.num_objs_per_block =
        ap (λ m. m * q.num_objs_per_block) g.max ∙ ap (λ n. p.max_num_blocks * n) g.per_block in
      elim o [
        | inl (ok, fits, s) ↦ inl (
          ok,
          omega (arith, g.wanted),
          record {
            valid = s.valid;
            enough = omega (arith, s.enough, g.wanted);
            once = s.once;
            seen = s.seen;
            kept = s.kept ∙ g.kept;
            lock = s.lock ∙ g.lock;
          },
        )
        | inr (fails, over) ↦ inr (fails, omega (arith, g.wanted))
      ]

  init_loop-Outcome :
      (fuel : ℕ) (p : Pool V)
      → IsStarting p
      → p.max_num_blocks < p.num_blocks_alloc + fuel
      → Outcome p (init_loop fuel p)
  init_loop-Outcome zero p w h = absurd (omega (arith, w.block_bound))
  init_loop-Outcome (suc fuel) p w h =
      elim (Bool-cases (ltb (p.num_blocks_alloc * p.num_objs_per_block) p.init_num_objs)) [
        | inr e ↦
            let enough : p.init_num_objs ≤ p.num_blocks_alloc * p.num_objs_per_block =
              ground arith in
            rw (init_loop-done fuel p e) (
              inl (
                refl,
                bounded p.num_objs_per_block w.block_bound enough,
                starting-Started p w enough,
              ))
        | inl e ↦ elim (Bool-cases (p.max_num_blocks == p.num_blocks_alloc)) [
          | inl f ↦
              let full = (==_iff p.max_num_blocks p.num_blocks_alloc).0 f in
              rw (init_loop-more fuel p e, alloc_a_block-full p full)
                (inr (refl, over p.num_objs_per_block full (ground arith)))
          | inr f ↦
              let (ok, g) = alloc_a_block-Grown p w (ground (arith, w.block_bound)) in
              rw (init_loop-more fuel p e, ok)
                (Grown-Outcome p (alloc_a_block p).1 (init_loop fuel (alloc_a_block p).1) g (
                  init_loop-Outcome fuel (alloc_a_block p).1 g.starting
                    (omega (arith, g.more, g.max))))
        ]
      ]
    where
      bounded :
          (n : ℕ)
          → p.num_blocks_alloc ≤ p.max_num_blocks
          → p.init_num_objs ≤ p.num_blocks_alloc * n
          → p.init_num_objs ≤ p.max_num_blocks * n
      bounded n h k = omega (arith, k, mul-le-mul_right n h)

      over :
          (n : ℕ)
          → p.max_num_blocks ≡ p.num_blocks_alloc
          → p.num_blocks_alloc * n < p.init_num_objs
          → p.max_num_blocks * n < p.init_num_objs
      over n e h = omega (arith, ap (λ m. m * n) e)

  -- The first call on a new pool succeeds exactly when there may be a block and the objects asked for
  -- fit in the blocks. It leaves at least those objects, all different and all free.
  pub ensure-new : (p : Pool V) → IsNew p → 0 < p.max_num_blocks → Outcome p (ensure p)
  ensure-new p w pos =
      rw (body w.new (ground arith))
        (init_loop-Outcome (p.max_num_blocks + 1) p start (omega (arith, w.blocks)))
    where
      body :
          p.init ≡ false
          → (p.max_num_blocks == 0) ≡ false
          → ensure p ≡ init_loop (p.max_num_blocks + 1) p
      body e f = unfold ensure init_pool in rw (e, ensure, f, init_pool) refl

      none_yet : (x : ℕ) → count x (rows p.cell p.num_objs_per_block p.current_row) ≡ 0
      none_yet x = unfold rows in ap (λ r. count x (rows p.cell p.num_objs_per_block r)) w.row

      start : IsStarting p
      start = record {
        col = w.col;
        row = w.row ∙ sym w.blocks;
        block_bound = omega (arith, w.blocks);
        positive = w.positive;
        once = λ x. omega (arith, none_yet x);
        seen = λ x h. none_yet x;
      }
