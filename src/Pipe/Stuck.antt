-- ===== src/Pipe/Stuck.antt =====
-- A message that fits neither behind the pointers nor before them.
use public_cpp.Base.{
  if◌then◌else◌, ℕ, ◌≡◌, refl, ap, ◌∙◌, Bool, true, false, Option, none, some, List, [], ◌∷◌,
  length, arith,
}
use public_cpp.Pipe.{Pipe, send_msg_once}
use public_cpp.Pipe.Queue.{Msg, Queue}
use public_cpp.Pipe.Send.{Sent, has_room, send_msg_once-Sent}
use public_cpp.Pipe.Receive.{Received, receive_msg-Received}
use public_cpp.Pipe.Client.{go_on, Call, send, receive, Log, run, note_sent}

-- No message that is sent finds room in the pipe as it is.
unfoldable pub TooLong : Pipe → List Call → Type 0
TooLong p [] = Unit
TooLong p (send m ∷ calls) = (has_room p (length (m.1)) ≡ false) × TooLong p calls
TooLong p (receive ∷ calls) = TooLong p calls

refused :
    (rounds : ℕ) (calls : List Call) (p : Pipe) (m : Msg) (answer : Option (Bool × Pipe))
    → has_room p (length (m.1)) ≡ false
    → Sent p [] m answer
    → run rounds calls p ≡ some (p, [], [])
    → (elim answer as (λ _. Option Log) [
      | none ↦ none
      | some answer ↦
          if answer.0
          then note_sent m (run rounds calls (answer.1))
          else run rounds calls (answer.1)
    ])
      ≡ some (p, [], [])
unfolding Sent
refused rounds calls p m none full h later = absurd h
refused rounds calls p m (some (false, q)) full (same, _) later = ap (run rounds calls) same ∙ later
refused rounds calls p m (some (true, q)) full (_, room) later = absurd (grind (arith, full, room))

-- An empty pipe into which the messages do not fit as its pointers stand takes none of them, however
-- often they are sent and whatever is received in between: nothing moves the pointers.
pub run-TooLong :
    (rounds : ℕ) (calls : List Call) (p : Pipe)
    → Queue p []
    → TooLong p calls
    → run rounds calls p ≡ some (p, [], [])
unfolding run TooLong Received
run-TooLong rounds [] p queue long = refl
run-TooLong rounds (send m ∷ calls) p queue (full, long) =
    refused rounds calls p m (send_msg_once rounds p (m.0) (m.1)) full
      (send_msg_once-Sent p [] m queue rounds) (run-TooLong rounds calls p queue long)
run-TooLong rounds (receive ∷ calls) p queue long =
    ap (go_on rounds calls) (receive_msg-Received p [] queue)
    ∙ run-TooLong rounds calls p queue long
