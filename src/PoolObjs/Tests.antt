-- ===== src/PoolObjs/Tests.antt =====
-- Runs of the pool of pool_objs/pool_objs.hpp, and its theorems at concrete inputs.
use public_cpp.Base.{ℕ, ◌≡◌, ◌⊎◌, ◌↔◌, refl, arith, [], ◌∷◌, length, true, false, some}
use public_cpp.PoolObjs.{Pool, construct, ensure, get, free, num_objs_left}
use public_cpp.PoolObjs.FreeList.{free_objs, IsPool}
use public_cpp.PoolObjs.Start.{IsNew, Outcome, ensure-new}
use public_cpp.PoolObjs.Get.{Got, get-Got}
use public_cpp.PoolObjs.Free.{Freed, free-Freed, num_objs_left-exact}
use public_cpp.PoolObjs.Client.{Reaches, IsSafe, remove, Reaches-new}

-- Two objects in a block, three at first
abbrev new : Pool ℕ
new = record {
  init_num_objs = 3;
  num_objs_per_block = 2;
  to_resize = true;
  new_if_no_resize = true;
  max_num_blocks = 4;
  lock = true;
  default_obj = 0;
  init_obj = λ v. 7;
  cell = λ r c. 0;
  current_row = 0;
  current_col = 0;
  num_objs_alloc = 0;
  num_blocks_alloc = 0;
  init = false;
  fresh = 0;
  content = λ x. 0;
  deleted = [];
}

abbrev ready : Pool ℕ
ready = (ensure new).1

run : (free_objs ready ≡ 3 ∷ 2 ∷ 1 ∷ 0 ∷ []) × ((get ready).0 ≡ some 3) × (num_objs_left ready ≡ 4)
unfolding ensure free_objs get num_objs_left
run = (refl, refl, refl)

-- `construct` counts the objects of a block upwards.
run_construct : (construct {V = ℕ} 24 0 (λ v. v) 0 50 true true 8 true).num_objs_per_block ≡ 3
unfolding construct
run_construct = refl

new-IsNew : IsNew new
new-IsNew = record { new = refl; col = refl; row = refl; blocks = refl; positive = omega arith }

ready-IsPool : IsPool ready
unfolding ensure
ready-IsPool = record {
  ready = refl;
  col_bound = omega arith;
  row_bound = omega arith;
  full = λ e. refl;
  block_bound = omega arith;
}

ready-lock : ready.lock ≡ true
unfolding ensure
ready-lock = refl

ensure-new_example : Outcome new (ensure new)
ensure-new_example = ensure-new new new-IsNew (omega arith)

get-Got_example : Got ready (get ready)
get-Got_example = get-Got ready ready-IsPool ready-lock

free-Freed_example : Freed ready 9 (free ready (some 9))
free-Freed_example = free-Freed ready 9 ready-IsPool ready-lock

num_objs_left-exact_example :
    (num_objs_left ready ≡ length (free_objs ready))
    ↔ ((ready.current_row ≡ 0) ⊎ (ready.num_blocks_alloc ≡ ready.num_objs_per_block))
num_objs_left-exact_example = num_objs_left-exact ready

abbrev taken : Pool ℕ
taken = (get ready).1

gets_three : (get ready).0 ≡ some 3
unfolding ensure get
gets_three = refl

calls : Reaches ready (free taken (some 3)) (remove 3 (3 ∷ []))
calls = Reaches.frees 3 (Reaches.gets 3 Reaches.start gets_three) (omega arith)

Reaches-new_example : IsSafe (free taken (some 3)) (remove 3 (3 ∷ []))
Reaches-new_example = Reaches-new new new-IsNew refl refl (omega arith) (omega arith) calls
