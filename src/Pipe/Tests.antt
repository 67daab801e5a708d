-- ===== src/Pipe/Tests.antt =====
-- Runs of a small pipe, and the properties on it.
use public_cpp.Base.{
  replicate, ◌^◌, ◌<◌, ◌≡◌, refl, Bool, false, Option, none, some, List, [], ◌∷◌, arith,
}
use public_cpp.Pipe.{
  Pipe, init, encode_sender_pace, decode_sender_pace_ptr, decode_sender_pace_version,
  reserve_space_for_send, send_msg_once, set_blank, receive_msg, msg_consumed,
}
use public_cpp.Pipe.Pace.{encode_sender_pace-decode}
use public_cpp.Pipe.Reserve.{Reserved, reserve_space_for_send-Reserved}
use public_cpp.Pipe.Queue.{Queue, Msg}
use public_cpp.Pipe.Send.{Sent, send_msg_once-Sent}
use public_cpp.Pipe.Start.{Started, init-Started}
use public_cpp.Pipe.Client.{Call, send, receive, run, Delivered, run-Delivered}
use public_cpp.Pipe.Receive.{Received, receive_msg-Received}
use public_cpp.Pipe.Stuck.{TooLong, run-TooLong}

abbrev raw : Pipe
raw = record {
  msg_offset = 8;
  size_pipe = 0;
  max_size_content = 0;
  threshold = 0;
  has_notifier = false;
  pipe = 0;
  receiver = 0;
  sender_from = 0;
  sender_to = 0;
  cells = λ _. record { header = 0; size = 0; content = [] };
}

-- A pipe of 32 bytes at the address 100
abbrev ring : Pipe
ring = (init raw 32 16 0 false (some 100)).1

ring-Queue : Queue ring []
unfolding init Started
ring-Queue = (init-Started raw 32 16 0 false (some 100) (omega arith) (omega arith) (omega arith)).1

abbrev hello : Msg
hello = (7, 104 ∷ 105 ∷ [])

encode_sender_pace-decode_example :
    (encode_sender_pace 100 3 < 2 ^ 64)
    × (decode_sender_pace_ptr (encode_sender_pace 100 3) ≡ 100)
    × (decode_sender_pace_version (encode_sender_pace 100 3) ≡ 3)
encode_sender_pace-decode_example = encode_sender_pace-decode 100 3 (omega arith) (omega arith)

reserve_space_for_send-Reserved_example :
    Reserved ring 4 (reserve_space_for_send 100 ring.receiver ring 4)
reserve_space_for_send-Reserved_example =
    reserve_space_for_send-Reserved ring 100 4 (Queue.bounded ring-Queue)

send_msg_once-Sent_example : Sent ring [] hello (send_msg_once 1 ring 7 (104 ∷ 105 ∷ []))
send_msg_once-Sent_example = send_msg_once-Sent ring [] hello ring-Queue 1

-- Three messages of ten bytes, the third at the start of the pipe after the first was received
abbrev calls : List Call
calls =
    send hello ∷ send hello ∷ receive ∷ receive ∷ send (8, 1 ∷ []) ∷ send (9, 2 ∷ []) ∷ receive ∷ []

run-Delivered_example : Delivered [] (run 1 calls ring)
run-Delivered_example = run-Delivered 1 calls ring [] ring-Queue

logged : Option (Pipe × List Msg × List Msg) → List Msg × List Msg
logged none = ([], [])
logged (some (p, out, received)) = (out, received)

run-calls :
    logged (run 1 calls ring)
    ≡ (hello ∷ hello ∷ (8, 1 ∷ []) ∷ (9, 2 ∷ []) ∷ [], hello ∷ hello ∷ (8, 1 ∷ []) ∷ [])
unfolding run logged init set_blank reserve_space_for_send
run-calls = refl

pipe_of : Option (Bool × Pipe) → Pipe
pipe_of none = raw
pipe_of (some answer) = answer.1

-- The pipe after one message of ten bytes was sent and received
abbrev moved : Pipe
moved = msg_consumed ((receive_msg (pipe_of (send_msg_once 1 ring 7 (104 ∷ 105 ∷ [])))).1)

moved-Queue : Queue moved []
unfolding pipe_of Sent Received send_msg_once init
moved-Queue =
    (receive_msg-Received (pipe_of (send_msg_once 1 ring 7 (104 ∷ 105 ∷ []))) (hello ∷ [])
      ((send_msg_once-Sent ring [] hello ring-Queue 1).0)).3

-- Sixteen bytes, as many as the pipe was initialised for
abbrev long : Msg
long = (1, replicate 16 0)

run-TooLong_example : run 1 (send long ∷ receive ∷ send long ∷ []) moved ≡ some (moved, [], [])
unfolding TooLong receive_msg init set_blank send_msg_once pipe_of msg_consumed replicate
run-TooLong_example =
    run-TooLong 1 (send long ∷ receive ∷ send long ∷ []) moved moved-Queue (refl, (refl, tt))
