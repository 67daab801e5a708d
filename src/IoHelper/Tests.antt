-- ===== src/IoHelper/Tests.antt =====
-- Runs of the loops of details/io_helper.cpp, and their theorems at concrete inputs.
use public_cpp.Base.{
  ℕ, zero, suc, ◌+◌, ◌≤◌, ◌<◌, ◌≡◌, ◌⊎◌, refl, arith, true, false, List, [], ◌∷◌, length, take,
  drop, if◌then◌else◌,
}
use public_cpp.IoHelper.{
  Error, Result, done, failed, interrupted, count, write_non_block, read_non_block,
}
use public_cpp.IoHelper.Transfer.{Written, write_non_block-Written}
use public_cpp.IoHelper.Receive.{Received, read_non_block-Received}
use public_cpp.IoHelper.Sockets.{
  Calls, fd, error, set_non_block, listen, accept_loop, Listening, listen-Listening,
  accept_loop-returns,
}

-- A system that takes one byte of what it is offered
abbrev take_one : ℕ → List ℕ → Result
take_one call [] = done 0
take_one call (b ∷ bytes) = done 1

-- A system that delivers a byte if it is asked for one
abbrev deliver_one : ℕ → ℕ → Result
deliver_one call zero = done 0
deliver_one call (suc want) = done 1

run : (write_non_block take_one (7 ∷ 8 ∷ 9 ∷ [])).0 ≡ count 3
unfolding write_non_block drop
run = refl

run_read : read_non_block deliver_one (7 ∷ 8 ∷ 9 ∷ []) (0 ∷ 0 ∷ []) ≡ (count 2, 7 ∷ 8 ∷ [])
unfolding read_non_block take drop
run_read = refl

write_non_block-Written_example :
    Written take_one (7 ∷ 8 ∷ 9 ∷ []) 0 (write_non_block take_one (7 ∷ 8 ∷ 9 ∷ []))
write_non_block-Written_example =
    write_non_block-Written take_one (7 ∷ 8 ∷ 9 ∷ []) (omega arith) take_one-TakesOffered
  where
    take_one-TakesOffered :
        (call n : ℕ) (bytes : List ℕ) → take_one call bytes ≡ done n → n ≤ length bytes
    take_one-TakesOffered call n [] e = ground arith
    take_one-TakesOffered call n (b ∷ bytes) e = ground arith

read_non_block-Received_example :
    Received deliver_one
      (7 ∷ 8 ∷ 9 ∷ [])
      (0 ∷ 0 ∷ [])
      (read_non_block deliver_one (7 ∷ 8 ∷ 9 ∷ []) (0 ∷ 0 ∷ []))
read_non_block-Received_example =
    read_non_block-Received deliver_one (7 ∷ 8 ∷ 9 ∷ []) (0 ∷ 0 ∷ []) (omega arith) (omega arith)
      deliver_one-DeliversAsked
  where
    deliver_one-DeliversAsked : (call want n : ℕ) → deliver_one call want ≡ done n → n ≤ want
    deliver_one-DeliversAsked call zero n e = ground arith
    deliver_one-DeliversAsked call (suc want) n e = ground arith

-- The first call of `accept` is interrupted, and the descriptors cannot be set to reuse addresses.
abbrev first_again : ℕ → List ℕ → Result
first_again zero opened = failed interrupted
first_again (suc call) opened = done 6

abbrev sys : Calls
sys = record {
  socket = λ opened. done 5;
  accept = first_again;
  get_flags = λ x. done 0;
  set_flags = λ x flags. done 0;
  with_non_block = λ flags. flags + 2048;
  set_reuse = λ x. false;
  bind = λ x. true;
  listen_on = λ x. true;
}

listen-Listening_example : Listening sys (3 ∷ []) (listen sys (3 ∷ []))
listen-Listening_example = listen-Listening sys (3 ∷ [])

accept_loop-returns_example :
    ((x : ℕ) × (sys.accept 1 (3 ∷ []) ≡ done x)
      × (accept_loop sys 2 0 (3 ∷ [])
          ≡ ((if set_non_block sys x then fd x else error 2), x ∷ 3 ∷ [])))
    ⊎ ((e : Error) × (sys.accept 1 (3 ∷ []) ≡ failed e)
        × (accept_loop sys 2 0 (3 ∷ []) ≡ (error 1, 3 ∷ [])))
accept_loop-returns_example = accept_loop-returns sys 1 (3 ∷ []) first_interrupted (λ e. cc)
  where
    first_interrupted : (k : ℕ) → k < 1 → first_again k (3 ∷ []) ≡ failed interrupted
    first_interrupted zero h = refl
    first_interrupted (suc k) h = absurd (omega arith)
