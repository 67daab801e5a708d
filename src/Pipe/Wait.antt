-- ===== src/Pipe/Wait.antt =====
-- The receiver that waits: a few tries, and then the notifier or sleeps of growing length.
use public_cpp.Base.{
  ℕ, zero, suc, ◌+◌, ◌*◌, ◌≤◌, ◌<◌, ◌≡◌, refl, true, false, Option, none, some, ◌==◌, if◌then◌else◌,
  if-elim, is_some, ltb, arith,
}
use public_cpp.Pipe.{Pipe, receive_msg}

-- `others` is what the senders do to the pipe between two looks of the receiver.
unfoldable pub receive_tries : (Pipe → Pipe) → ℕ → Pipe → Option ℕ × Pipe
receive_tries others zero p = (none, p)
receive_tries others (suc tries) p =
    let found = receive_msg p in
    let rest = receive_tries others tries (others (found.1)) in
    if is_some found.0 then found else rest

-- `ReceiveMsgWithNotify_`, with `Wait` of the notifier in `others`
unfoldable pub receive_msg_with_notify : (Pipe → Pipe) → ℕ → Pipe → Option ℕ × Pipe
unfolding receive_tries
receive_msg_with_notify others timeo p =
    let found = receive_tries others 2 p in
    if is_some found.0
    then found
    else if timeo == 0
    then (none, found.1)
    else receive_msg (others (found.1))

-- `GetTimeToSleepUs_`
unfoldable pub get_time_to_sleep : ℕ → ℕ
get_time_to_sleep zero = 1
get_time_to_sleep (suc zero) = 10
get_time_to_sleep (suc (suc zero)) = 100
get_time_to_sleep (suc (suc (suc slot))) = 1000

-- The endless loop of `ReceiveMsgWithoutNotify_`, for a number of rounds; `none` when they are used up.
-- `sleep` is what the senders do while the receiver sleeps, and `clock` the time in each round.
unfoldable pub sleep_loop :
    (ℕ → Pipe → Pipe) → (ℕ → ℕ) → ℕ → ℕ → ℕ → Pipe → Option (Option ℕ × Pipe)
unfolding get_time_to_sleep
sleep_loop sleep clock deadline zero round p = none
sleep_loop sleep clock deadline (suc rounds) round p =
    let found = receive_msg (sleep (get_time_to_sleep round) p) in
    let rest = sleep_loop sleep clock deadline rounds (suc round) (found.1) in
    if is_some found.0
    then some found
    else if ltb deadline (clock round)
    then some (none, found.1)
    else rest

-- `ReceiveMsgWithoutNotify_`
unfoldable pub receive_msg_without_notify :
    (Pipe → Pipe) → (ℕ → Pipe → Pipe) → ℕ → (ℕ → ℕ) → ℕ → ℕ → Pipe → Option (Option ℕ × Pipe)
unfolding receive_tries sleep_loop
receive_msg_without_notify others sleep start clock rounds timeo p =
    let found = receive_tries others 2 p in
    if is_some found.0
    then some found
    else if timeo == 0
    then some (none, found.1)
    else sleep_loop sleep clock (start + timeo * 1000) rounds 0 (found.1)

-- `ReceiveMsg`
pub receive :
    (Pipe → Pipe) → (ℕ → Pipe → Pipe) → ℕ → (ℕ → ℕ) → ℕ → ℕ → Pipe → Option (Option ℕ × Pipe)
unfolding receive_msg_with_notify receive_msg_without_notify
receive others sleep start clock rounds timeo p =
    if p.threshold == 0
    then receive_msg_without_notify others sleep start clock rounds timeo p
    else some (receive_msg_with_notify others timeo p)

IsReturned : Option (Option ℕ × Pipe) → Type 0
IsReturned o = is_some o ≡ true

sleep_loop-IsReturned :
    (sleep : ℕ → Pipe → Pipe) (clock : ℕ → ℕ) (deadline last rounds round : ℕ) (p : Pipe)
    → round ≤ last
    → last < round + rounds
    → deadline < clock last
    → IsReturned (sleep_loop sleep clock deadline rounds round p)
unfolding sleep_loop IsReturned
sleep_loop-IsReturned sleep clock deadline last zero round p h₁ h₂ late = absurd (omega arith)
sleep_loop-IsReturned sleep clock deadline last (suc rounds) round p h₁ h₂ late =
    if-elim IsReturned (is_some ((receive_msg (sleep (get_time_to_sleep round) p)).0)) (λ _. refl)
      λ _.
        if-elim IsReturned (ltb deadline (clock round)) (λ _. refl)
          λ early.
            sleep_loop-IsReturned sleep clock deadline last rounds (suc round) _ (later early)
              (omega arith) late
  where
    later : ltb deadline (clock round) ≡ false → suc round ≤ last
    later early = grind (arith, h₁, early, late)
