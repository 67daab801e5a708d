-- ===== src/ThreadPrivacy/Tests.antt =====
-- Runs of the store of thread_privacy/thread_privacy.h, and its theorem at a concrete input.
use public_cpp.Base.{◌≡◌, refl, arith, true, false, [], ◌∷◌, some, get_or, set, replicate}
use public_cpp.ThreadPrivacy.{Calls, Store, new_store, peek, try_lock, get, destroy}
use public_cpp.ThreadPrivacy.Private.{IsPrivate, Succeeds, Given, get-Given}

abbrev sys : Calls
sys = record { init_lock = true; key_create = true; set_specific = true; lock = λ i. true }

-- Thread 4 asks for its numbers 2 and 2 again, and thread 5 for its number 2.
abbrev first : Store
first = (get sys new_store 4 2).1

run :
    ((get sys first 4 2).0 ≡ some (0, false))
    × ((get sys first 5 2).0 ≡ some (1, true))
    × ((destroy first).deleted ≡ 0 ∷ [])
unfolding get destroy get_or set replicate
run = (refl, refl, refl)

abbrev ready : Store
ready = record new_store { init = true }

ready-IsPrivate : IsPrivate ready
unfolding peek get_or
ready-IsPrivate = record {
  ready = refl;
  old = λ t num x e. ground arith;
  own = λ t u num other x e f. ground arith;
}

sys-Succeeds : Succeeds sys
unfolding try_lock
sys-Succeeds = record { set = refl; locks = refl }

get-Given_example : Given ready 4 2 (get sys ready 4 2)
get-Given_example = get-Given sys ready 4 2 sys-Succeeds ready-IsPrivate
