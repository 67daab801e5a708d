-- ===== src/PoolObjs/Fill.antt =====
-- `AllocABlock_` of pool_objs/pool_objs.hpp.
use public_cpp.Base.{ℕ, zero, suc, ◌+◌, ◌≤◌, ◌<◌, ◌≡◌, ◌≢◌, refl, arith}
use public_cpp.PoolObjs.{Pool, fill}

module _ {ℓ} {V : Type ℓ} where
  -- What `k` rounds of its loop leave.
  pub record Filled (k : ℕ) (p q : Pool V) : Type ℓ where
    pub row : (c : ℕ) → c < k → q.cell p.current_row c ≡ p.fresh + c
    pub others : (r c : ℕ) → r ≢ p.current_row → q.cell r c ≡ p.cell r c
    pub fresh : q.fresh ≡ p.fresh + k
    pub counted : q.num_objs_alloc ≡ p.num_objs_alloc + k
    pub values : (x : ℕ) → p.fresh ≤ x → x < p.fresh + k → q.content x ≡ p.init_obj p.default_obj
    pub old : (x : ℕ) → x < p.fresh → q.content x ≡ p.content x
    pub init_num_objs : q.init_num_objs ≡ p.init_num_objs
    pub num_objs_per_block : q.num_objs_per_block ≡ p.num_objs_per_block
    pub max_num_blocks : q.max_num_blocks ≡ p.max_num_blocks
    pub num_blocks_alloc : q.num_blocks_alloc ≡ p.num_blocks_alloc
    pub current_row : q.current_row ≡ p.current_row
    pub current_col : q.current_col ≡ p.current_col
    pub init : q.init ≡ p.init
    pub lock : q.lock ≡ p.lock
    pub deleted : q.deleted ≡ p.deleted
    pub init_obj : q.init_obj q.default_obj ≡ p.init_obj p.default_obj

  pub fill-Filled : (k : ℕ) (p : Pool V) → Filled k p (fill k p)
  unfolding fill
  fill-Filled zero p = record {
    row = λ c h. absurd (omega arith);
    others = λ r c h. refl;
    fresh = omega arith;
    counted = omega arith;
    values = λ x h l. absurd (omega arith);
    old = λ x h. refl;
    init_num_objs = refl;
    num_objs_per_block = refl;
    max_num_blocks = refl;
    num_blocks_alloc = refl;
    current_row = refl;
    current_col = refl;
    init = refl;
    lock = refl;
    deleted = refl;
    init_obj = refl;
  }
  fill-Filled (suc k) p =
      let s = fill-Filled k p in
      let same = s.current_row in
      let at = s.fresh in
      record {
        row = λ c h. ground (arith, s.row c);
        others = λ r c h. ground (arith, s.others r c h);
        fresh = omega arith;
        counted = omega (arith, s.counted);
        values = λ x h l. grind (arith, s.values x h, s.init_obj);
        old = λ x h. grind (arith, s.old x h);
        init_num_objs = s.init_num_objs;
        num_objs_per_block = s.num_objs_per_block;
        max_num_blocks = s.max_num_blocks;
        num_blocks_alloc = s.num_blocks_alloc;
        current_row = s.current_row;
        current_col = s.current_col;
        init = s.init;
        lock = s.lock;
        deleted = s.deleted;
        init_obj = s.init_obj;
      }
