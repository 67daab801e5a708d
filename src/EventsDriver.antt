-- ===== src/EventsDriver.antt =====
-- events_driver.hpp: an event loop over epoll, with the timeouts of its descriptors in a heap.
pub mod Delete
pub mod Remove
mod Tests
use public_cpp.Base.{
  ℕ, zero, suc, ◌+◌, ◌-◌, Bool, true, false, not, ◌&&◌, Option, none, some, List, [], ◌∷◌, ◌++◌,
  leb, ltb, ◌==◌, if◌then◌else◌, length, get_or, set, replicate,
}
use public_cpp.Heap.{Heap, Less, insert, erase, update_item, top}
use public_cpp.Heap.Feature.{by_feature}

-- The results of `epoll_ctl` and of `Lock`
pub record Calls : Type 0 where
  pub ctl_add : ℕ → Bool
  pub ctl_mod : ℕ → Bool
  pub ctl_del : ℕ → Bool
  pub lock : Bool

pub data Op : Type 0 where
  add_event mod_event del_event : Op

-- `sign_timeo` is 0 for a descriptor without a timeout. Contexts are numbers.
pub record EventCtx : Type 0 where
  pub context : Option ℕ
  pub sign_timeo : ℕ

pub record EventTimeo : Type 0 where
  pub expire_time_ms : ℕ
  pub descriptor : ℕ

instance abbrev pub earliest : Less EventTimeo
earliest = by_feature false (λ e. e.expire_time_ms)

-- The driver behind `Init_`
pub record Driver : Type 0 where
  pub heap_timeo : Heap EventTimeo
  pub ctxs : List EventCtx

abbrev pub no_ctx : EventCtx
no_ctx = record { context = none; sign_timeo = 0 }

abbrev pub ctx : Driver → ℕ → EventCtx
ctx d fd = get_or d.ctxs fd no_ctx

abbrev pub set_ctx : Driver → ℕ → EventCtx → Driver
set_ctx d fd c = record d { ctxs = set d.ctxs fd c }

-- `resize` of `fd_to_event_ctx_`
pub grow : Driver → ℕ → Driver
grow d fd =
    if leb (length d.ctxs) fd
    then record d { ctxs = d.ctxs ++ replicate (fd + 1 - length d.ctxs) no_ctx }
    else d

-- `RegEventDel` up to its lock
pub drop_timeo : Driver → ℕ → Driver
drop_timeo d fd =
    let c = ctx d fd in
    if c.sign_timeo == 0 then d else record d {
      heap_timeo = erase d.heap_timeo c.sign_timeo;
      ctxs = set d.ctxs fd (record c { sign_timeo = 0 });
    }

abbrev pub drop_context : Driver → ℕ → Driver
drop_context d fd = set_ctx d fd (record (ctx d fd) { context = none })

pub reg_event_del : Calls → Driver → ℕ → Bool × Driver
unfolding drop_timeo
reg_event_del sys d fd =
    let dropped = drop_timeo d fd in
    if sys.lock
    then if sys.ctl_del fd then (true, drop_context dropped fd) else (false, dropped)
    else (false, dropped)

-- `heap_timeo_.Insert` with the sign for the descriptor
abbrev pub insert_timeo : Driver → ℕ → ℕ → Driver
insert_timeo d fd expire =
    let r = insert d.heap_timeo (record { expire_time_ms = expire; descriptor = fd }) in
    record d { heap_timeo = r.0; ctxs = set d.ctxs fd (record (ctx d fd) { sign_timeo = r.1 }) }

-- The branches of `RegEvent` up to `epoll_ctl`. A negative timeout is `none`.
pub add_timeo : Driver → ℕ → ℕ → Option ℕ → Driver
add_timeo d now fd none = set_ctx d fd (record (ctx d fd) { sign_timeo = 0 })
add_timeo d now fd (some ms) = insert_timeo d fd (now + ms)

pub mod_timeo : Driver → ℕ → ℕ → Option ℕ → Driver
mod_timeo d now fd none = d
mod_timeo d now fd (some ms) =
    let sign = (ctx d fd).sign_timeo in
    if sign == 0 then insert_timeo d fd (now + ms) else record d {
      heap_timeo =
          update_item d.heap_timeo sign (record { expire_time_ms = now + ms; descriptor = fd });
    }

-- The end of `RegEvent`: the call of `epoll_ctl`, and `RegEventDel` when it fails
pub control : Calls → Driver → ℕ → Bool → Bool × Driver
unfolding reg_event_del
control sys d fd result =
    if sys.lock && result then (true, d) else (false, (reg_event_del sys d fd).1)

-- The branch for `kDelEvent`, which takes the result true for a failure
pub reg_del : Calls → Driver → ℕ → Bool × Driver
unfolding reg_event_del
reg_del sys d fd =
    let r = reg_event_del sys d fd in
    if r.0 then (false, (reg_event_del sys r.1 fd).1) else (true, drop_context r.1 fd)

pub reg_event : Calls → Driver → ℕ → ℕ → Op → ℕ → Option ℕ → Bool × Driver
unfolding grow add_timeo mod_timeo control reg_del
reg_event sys d now fd add_event context timeo =
    let g = grow d fd in
    let c = set_ctx g fd (record (ctx g fd) { context = some context }) in
    control sys (add_timeo c now fd timeo) fd (sys.ctl_add fd)
reg_event sys d now fd mod_event context timeo =
    control sys (mod_timeo (grow d fd) now fd timeo) fd (sys.ctl_mod fd)
reg_event sys d now fd del_event context timeo = reg_del sys (grow d fd) fd

-- The loop of `ClearAll` from the descriptor `fd` on, with the contexts that it meets
pub clear_from : Calls → ℕ → ℕ → Driver → List ℕ × Driver
unfolding reg_event_del
clear_from sys zero fd d = ([], d)
clear_from sys (suc rounds) fd d =
    let kept = clear_from sys rounds (fd + 1) d in
    let gone = clear_from sys rounds (fd + 1) (reg_event_del sys d fd).1 in
    elim (ctx d fd).context [ none ↦ kept | some c ↦ (c ∷ gone.0, gone.1) ]

pub clear_all : Calls → Driver → List ℕ × Driver
unfolding clear_from
clear_all sys d = clear_from sys (length d.ctxs) 0 d
