-- ===== src/EventsDriver/Tests.antt =====
-- Runs of the driver of events_driver.hpp, and its theorems at concrete inputs.
use public_cpp.Base.{
  ◌≡◌, inl, inr, refl, arith, true, false, [], ◌∷◌, none, some, get_or, set, replicate,
}
use public_cpp.Heap.{Heap, ensure, insert}
use public_cpp.Heap.Invariant.{IsHeap, ensure-new, ensure-ready}
use public_cpp.EventsDriver.{
  Calls, EventTimeo, earliest, earliest, Driver, no_ctx, add_event, del_event, reg_event,
  reg_event_del, clear_all,
}
use public_cpp.Heap.Insert.{Inserted, insert-Inserted}
use public_cpp.EventsDriver.Delete.{HasTimeo, Cleared, reg_event_del-Cleared}
use public_cpp.EventsDriver.Remove.{Removed, reg_event-Removed}

abbrev sys : Calls
sys = record { ctl_add = λ fd. true; ctl_mod = λ fd. true; ctl_del = λ fd. true; lock = true }

abbrev empty : Heap EventTimeo
empty = record {
  init_size_heap = 4;
  num_items = 0;
  size_container = 0;
  links = record { slot = λ i. 0; index = λ n. 0 };
  val = λ n. record { expire_time_ms = 0; descriptor = 0 };
  init = false;
}

abbrev driver : Driver
driver = record { heap_timeo = ensure empty; ctxs = no_ctx ∷ no_ctx ∷ [] }

run :
    ((reg_event sys driver 100 3 add_event 9 (some 50)).0 ≡ true)
    × ((clear_all sys (reg_event sys driver 100 3 add_event 9 (some 50)).1).0 ≡ 9 ∷ [])
unfolding reg_event clear_all get_or set replicate
run = (refl, refl)

empty-IsHeap : IsHeap (ensure empty)
empty-IsHeap = (ensure-new empty refl (omega arith)).0

reg_event_del-Cleared_example : Cleared sys driver 1 (reg_event_del sys driver 1)
unfolding get_or
reg_event_del-Cleared_example =
    reg_event_del-Cleared sys driver 1 empty-IsHeap (omega arith) (inl refl)

-- The driver after it was told of the descriptor 1, with a timeout
abbrev waiting : Driver
unfolding reg_event
waiting = (reg_event sys driver 100 1 add_event 9 (some 50)).1

waiting-Inserted :
    Inserted
      (ensure driver.heap_timeo)
      (record { expire_time_ms = 150; descriptor = 1 })
      (insert driver.heap_timeo (record { expire_time_ms = 150; descriptor = 1 }))
waiting-Inserted =
    insert-Inserted driver.heap_timeo (record { expire_time_ms = 150; descriptor = 1 })
      (rw (ensure-ready driver.heap_timeo empty-IsHeap) empty-IsHeap)

waiting-IsHeap : IsHeap waiting.heap_timeo
unfolding waiting
waiting-IsHeap = waiting-Inserted.valid

waiting-HasTimeo : HasTimeo waiting 1
unfolding get_or set waiting
waiting-HasTimeo = inr waiting-Inserted.added

reg_event-Removed_example : Removed sys waiting 1 (reg_event sys waiting 200 1 del_event 9 none)
reg_event-Removed_example =
    reg_event-Removed sys waiting 200 1 9 none waiting-IsHeap waiting-HasTimeo
