-- ===== src/Pipe/Client.antt =====
-- Sequences of calls of the senders and the receiver, one after another.
use mathlib.Core.List.{append_assoc}
use public_cpp.Base.{
  if◌then◌else◌, ℕ, ◌≡◌, sym, ap, ◌∙◌, subst, Bool, true, false, Option, none, some, List, [], ◌∷◌,
  ◌++◌, append_nil,
}
use public_cpp.Pipe.{Pipe, Cell, send_msg_once, receive_msg, msg_consumed}
use public_cpp.Pipe.Queue.{Msg, Queue}
use public_cpp.Pipe.Send.{Sent, send_msg_once-Sent}
use public_cpp.Pipe.Receive.{Received, receive_msg-Received}

-- `SendMsg_` of a message, or `ReceiveMsg_` with `MsgConsumed` after it
pub data Call : Type 0 where
  send : Msg → Call
  receive : Call

-- The pipe after the calls, the messages that were sent, and those that were received
abbrev pub Log : Type 0
Log = Pipe × List Msg × List Msg

abbrev pub note_sent : Msg → Option Log → Option Log
note_sent m none = none
note_sent m (some (p, out, received)) = some (p, m ∷ out, received)

abbrev note_received : Msg → Option Log → Option Log
note_received m none = none
note_received m (some (p, out, received)) = some (p, out, m ∷ received)

unfoldable pub run : ℕ → List Call → Pipe → Option Log
unfolding send_msg_once receive_msg msg_consumed
run rounds [] p = some (p, [], [])
run rounds (send m ∷ calls) p = elim (send_msg_once rounds p (m.0) (m.1)) [
  | none ↦ none
  | some answer ↦
      if answer.0 then note_sent m (run rounds calls (answer.1)) else run rounds calls (answer.1)
]
run rounds (receive ∷ calls) p =
    let found = receive_msg p in
    elim found.0 [
      | none ↦ run rounds calls (found.1)
      | some at ↦
          note_received ((found.1.cells at).header, (found.1.cells at).content)
            (run rounds calls (msg_consumed (found.1)))
    ]

-- The queue `ms` with what was sent is what was received with what is left.
pub Delivered : List Msg → Option Log → Type 0
Delivered ms none = ⊥
Delivered ms (some (q, out, received)) =
    (left : List Msg) × Queue q left × (ms ++ out ≡ received ++ left)

note_sent-Delivered :
    (ms : List Msg) (m : Msg) (log : Option Log)
    → Delivered (ms ++ m ∷ []) log
    → Delivered ms (note_sent m log)
unfolding Delivered
note_sent-Delivered ms m none h = h
note_sent-Delivered ms m (some (q, out, received)) (left, queue, eq) =
    (left, queue, sym (append_assoc ms (m ∷ []) out) ∙ eq)

note_received-Delivered :
    (ms : List Msg) (m : Msg) (log : Option Log)
    → Delivered ms log
    → Delivered (m ∷ ms) (note_received m log)
unfolding Delivered
note_received-Delivered ms m none h = h
note_received-Delivered ms m (some (q, out, received)) (left, queue, eq) =
    (left, queue, ap (λ l. m ∷ l) eq)

-- The rest of a run, once the receiver has looked
abbrev pub go_on : ℕ → List Call → Option ℕ × Pipe → Option Log
go_on rounds calls found = elim found.0 [
  | none ↦ run rounds calls (found.1)
  | some at ↦
      note_received ((found.1.cells at).header, (found.1.cells at).content)
        (run rounds calls (msg_consumed (found.1)))
]

-- One call and the calls behind it
module _ (rounds : ℕ) (calls : List Call)
    (later : (q : Pipe) (ns : List Msg) → Queue q ns → Delivered ns (run rounds calls q)) where
  after_send :
      (p : Pipe) (ms : List Msg) (m : Msg) (answer : Option (Bool × Pipe))
      → Queue p ms
      → Sent p ms m answer
      → Delivered ms (elim answer as (λ _. Option Log) [
        | none ↦ none
        | some answer ↦
            if answer.0
            then note_sent m (run rounds calls (answer.1))
            else run rounds calls (answer.1)
      ])
  unfolding Sent
  after_send p ms m none queue h = absurd h
  after_send p ms m (some (false, q)) queue (same, _) =
      later q ms (subst (λ q. Queue q ms) (sym same) queue)
  after_send p ms m (some (true, q)) queue (grown, _) =
      note_sent-Delivered ms m (run rounds calls q) (later q (ms ++ m ∷ []) grown)

  after_receive :
      (p : Pipe) (ms : List Msg)
      → Queue p ms
      → Received p ms
      → Delivered ms (go_on rounds calls (receive_msg p))
  unfolding Received
  after_receive p [] queue h =
      subst (λ found. Delivered [] (go_on rounds calls found)) (sym h) (later p [] queue)
  after_receive p (m ∷ ms) queue (finds, here, _, consumed) =
      subst
        (λ at. Delivered (m ∷ ms) (elim at as (λ _. Option Log) [
          | none ↦ run rounds calls ((receive_msg p).1)
          | some at ↦
              note_received
                (((receive_msg p).1.cells at).header, ((receive_msg p).1.cells at).content)
                (run rounds calls (msg_consumed ((receive_msg p).1)))
        ]))
        (sym finds)
        (subst
          (λ (c : Cell). Delivered (m ∷ ms) (
            note_received (c.header, c.content)
              (run rounds calls (msg_consumed ((receive_msg p).1)))))
          (sym here)
          (note_received-Delivered ms m _ (later (msg_consumed ((receive_msg p).1)) ms consumed)))

-- From a pipe that holds a queue of messages every sequence of calls comes to its end. The messages that
-- were there and those that were sent, in this order, are the messages that were received, each as it was
-- sent, and behind them those that the pipe still holds: none is lost, changed, doubled or out of order.
pub run-Delivered :
    (rounds : ℕ) (calls : List Call) (p : Pipe) (ms : List Msg)
    → Queue p ms
    → Delivered ms (run rounds calls p)
unfolding run Delivered
run-Delivered rounds [] p ms queue = (ms, queue, append_nil ms)
run-Delivered rounds (send m ∷ calls) p ms queue =
    after_send rounds calls (run-Delivered rounds calls) p ms m (send_msg_once rounds p (m.0) (m.1))
      queue (send_msg_once-Sent p ms m queue rounds)
run-Delivered rounds (receive ∷ calls) p ms queue =
    after_receive rounds calls (run-Delivered rounds calls) p ms queue
      (receive_msg-Received p ms queue)
