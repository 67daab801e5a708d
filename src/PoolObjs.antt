-- ===== src/PoolObjs.antt =====
-- pool_objs/pool_objs.hpp: a pool of objects in blocks of pointers, which grow and are never given back.
pub mod FreeList
pub mod Fill
pub mod Start
pub mod Get
pub mod Free
pub mod Client
mod Tests
use public_cpp.Base.{
  ℕ, zero, suc, ◌+◌, ◌-◌, ◌*◌, ◌/◌, Bool, true, false, not, ◌&&◌, Option, none, some, List, [], ◌∷◌,
  ltb, ◌==◌, if◌then◌else◌,
}

-- Objects are numbers: `new` gives `fresh`, which no object had before. `content` is what they hold.
-- `cell r c` is `pool_objs_[r][c]`, and `lock` the result of `lock_policy_.Lock()`.
pub record Pool {ℓ} (V : Type ℓ) : Type ℓ where
  pub init_num_objs : ℕ
  pub num_objs_per_block : ℕ
  pub to_resize : Bool
  pub new_if_no_resize : Bool
  pub max_num_blocks : ℕ
  pub lock : Bool
  pub default_obj : V
  pub init_obj : V → V
  pub cell : ℕ → ℕ → ℕ
  pub current_row : ℕ
  pub current_col : ℕ
  pub num_objs_alloc : ℕ
  pub num_blocks_alloc : ℕ
  pub init : Bool
  pub fresh : ℕ
  pub content : ℕ → V
  pub deleted : List ℕ

-- The constructors. `size_obj` is `sizeof(Obj)`.
pub construct {ℓ} :
    {V : Type ℓ} (size_obj : ℕ) (default_obj : V) (init_obj : V → V)
    (init_num_objs mem_per_block : ℕ) (to_resize new_if_no_resize : Bool) (max_num_blocks : ℕ)
    → Bool
    → Pool V
construct size_obj default_obj init_obj init_num_objs mem_per_block to_resize new_if_no_resize
      max_num_blocks lock =
    record {
      init_num_objs = init_num_objs;
      num_objs_per_block = (mem_per_block + size_obj - 1) / size_obj;
      to_resize = to_resize;
      new_if_no_resize = new_if_no_resize;
      max_num_blocks = max_num_blocks;
      lock = lock;
      default_obj = default_obj;
      init_obj = init_obj;
      cell = λ r c. 0;
      current_row = 0;
      current_col = 0;
      num_objs_alloc = 0;
      num_blocks_alloc = 0;
      init = false;
      fresh = 0;
      content = λ x. default_obj;
      deleted = [];
    }

abbrev pub write_cell : (ℕ → ℕ → ℕ) → ℕ → ℕ → ℕ → ℕ → ℕ → ℕ
write_cell f r c x r' c' = if r' == r && (c' == c) then x else f r' c'

module _ {ℓ} {V : Type ℓ} where
  -- `new Obj` with `InitObj_`; the object is `p.fresh`.
  abbrev pub new_obj : Pool V → Pool V
  new_obj p = record p {
    fresh = p.fresh + 1;
    content = λ x. if x == p.fresh then p.init_obj p.default_obj else p.content x;
  }

  -- The first `k` rounds of the loop of `AllocABlock_`
  pub fill : ℕ → Pool V → Pool V
  fill zero p = p
  fill (suc i) p =
      let q = fill i p in
      record (new_obj q) {
        cell = write_cell q.cell q.current_row i q.fresh;
        num_objs_alloc = q.num_objs_alloc + 1;
      }

  pub alloc_a_block : Pool V → Bool × Pool V
  unfolding fill
  alloc_a_block p =
      let q = fill p.num_objs_per_block p in
      if p.max_num_blocks == p.num_blocks_alloc then (false, p) else (
        true,
        record q { num_blocks_alloc = q.num_blocks_alloc + 1; current_row = q.current_row + 1 },
      )

  -- The loop of `Init_`. `max_num_blocks_ + 1` rounds are enough.
  pub init_loop : ℕ → Pool V → Bool × Pool V
  unfolding alloc_a_block
  init_loop zero p = (false, p)
  init_loop (suc fuel) p =
      let r = alloc_a_block p in
      let rest = init_loop fuel r.1 in
      if ltb (p.num_blocks_alloc * p.num_objs_per_block) p.init_num_objs
      then if r.0 then rest else r
      else (true, record p { init = true })

  pub init_pool : Pool V → Bool × Pool V
  unfolding init_loop
  init_pool p = if p.max_num_blocks == 0 then (false, p) else init_loop (p.max_num_blocks + 1) p

  -- `XFC_RAII_INIT`
  pub ensure : Pool V → Bool × Pool V
  unfolding init_pool
  ensure p = if p.init then (true, p) else init_pool p

  -- `Get` when no object is left
  pub get_empty : Pool V → Option ℕ × Pool V
  unfolding alloc_a_block
  get_empty p =
      let r = alloc_a_block p in
      let last = p.num_objs_per_block - 1 in
      if p.to_resize && r.0
      then (some (r.1.cell 0 last), record r.1 { current_row = 0; current_col = last })
      else if p.new_if_no_resize
      then (some p.fresh, new_obj p)
      else (none, p)

  -- `Get` behind `XFC_RAII_INIT`
  pub get_ready : Pool V → Option ℕ × Pool V
  unfolding get_empty
  get_ready p =
      let col = p.current_col - 1 in
      let row = p.current_row - 1 in
      let last = p.num_objs_per_block - 1 in
      if not p.lock
      then (none, p)
      else if not (p.current_col == 0)
      then (some (p.cell p.current_row col), record p { current_col = col })
      else if not (p.current_row == 0)
      then (some (p.cell row last), record p { current_row = row; current_col = last })
      else get_empty p

  pub get : Pool V → Option ℕ × Pool V
  unfolding ensure get_ready
  get p = let (ok, q) = ensure p in if ok then get_ready q else (none, q)

  -- `NumObjsLeft`, which multiplies by the number of blocks
  pub num_objs_left : Pool V → ℕ
  num_objs_left p = p.current_row * p.num_blocks_alloc + p.current_col

  pub num_objs_alloc_out : Pool V → ℕ
  unfolding num_objs_left
  num_objs_alloc_out p = p.num_objs_alloc - num_objs_left p

  -- The last statement of `Free`
  pub put : Pool V → ℕ → Pool V
  put p obj =
      let cell = write_cell p.cell p.current_row p.current_col obj in
      if not (p.num_objs_per_block - 1 == p.current_col)
      then record p { cell = cell; current_col = p.current_col + 1 }
      else record p { cell = cell; current_row = p.current_row + 1; current_col = 0 }

  -- `Free` behind its first test
  pub store : Pool V → ℕ → Pool V
  unfolding put
  store p obj =
      if p.num_blocks_alloc == p.current_row
      then (if p.max_num_blocks == p.num_blocks_alloc
          then p
          else put (record p { num_blocks_alloc = p.num_blocks_alloc + 1 }) obj)
      else put p obj

  -- `Free` behind `XFC_RAII_INIT`. A null pointer is `none`.
  pub free_ready : Pool V → Option ℕ → Pool V
  unfolding store num_objs_left
  free_ready p none = p
  free_ready p (some obj) =
      if not p.lock
      then p
      else if not p.to_resize && (num_objs_left p == p.init_num_objs)
      then record p { deleted = obj ∷ p.deleted }
      else store p obj

  pub free : Pool V → Option ℕ → Pool V
  unfolding ensure free_ready
  free p obj = let (ok, q) = ensure p in if ok then free_ready q obj else q

  -- `MemCost`, with the sizes of an object and of a pointer
  pub mem_cost : Pool V → ℕ → ℕ → ℕ
  mem_cost p size_obj size_ptr =
      p.num_objs_alloc * size_obj
      + p.num_blocks_alloc * p.num_objs_per_block * size_ptr
      + size_ptr * p.max_num_blocks
