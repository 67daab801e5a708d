-- ===== src/Pipe.antt =====
-- mpsc_fixed_pipe/mpsc_fixed_pipe.hpp: a ring of messages of different lengths, with many senders and
-- one receiver. A pointer is an address; the fields of the message that starts at an address are a
-- cell. A step of another thread may come between two calls, and between the reads at the start of
-- `ReserveSpaceForSend_` and the rest of it; the other functions run in one piece.
pub mod Pace
pub mod Reserve
pub mod Queue
pub mod Consume
pub mod Receive
pub mod Publish
pub mod Grow
pub mod Send
pub mod Start
pub mod Client
pub mod Stuck
pub mod Wait
mod Tests
use public_cpp.Base.{
  ℕ, zero, suc, ◌+◌, ◌-◌, ◌*◌, ◌/◌, ◌%◌, ◌^◌, Bool, true, false, not, Option, none, some, List,
  ◌==◌, ◌&&◌, ◌||◌, if◌then◌else◌, length, ltb, leb, is_none,
}

-- MPSCFixedPipeMsg: the size has the length of the content in its low 31 bits.
pub record Cell : Type 0 where
  pub header : ℕ
  pub size : ℕ
  pub content : List ℕ

-- `msg_offset` is kMsgOffset, which depends on the type of the header.
pub record Pipe : Type 0 where
  pub msg_offset : ℕ
  pub size_pipe : ℕ
  pub max_size_content : ℕ
  pub threshold : ℕ
  pub has_notifier : Bool
  pub pipe : ℕ
  pub receiver : ℕ
  pub sender_from : ℕ
  pub sender_to : ℕ
  pub cells : ℕ → Cell

abbrev pub end_of_pipe : Pipe → ℕ
end_of_pipe p = p.size_pipe + p.pipe

-- uint32_t(-1)
abbrev pub blank_size : ℕ
blank_size = 4294967295

-- kMaskNotWriting
abbrev pub ready_bit : ℕ
ready_bit = 2147483648

-- The low 48 bits are a pointer, the high 16 a version. The bits do not meet, so the `|` is a sum.
unfoldable pub encode_sender_pace : ℕ → ℕ → ℕ
encode_sender_pace ptr version = ptr + version * 2 ^ 48 % 2 ^ 64

unfoldable pub decode_sender_pace_ptr : ℕ → ℕ
decode_sender_pace_ptr pace = pace % 2 ^ 48

unfoldable pub decode_sender_pace_version : ℕ → ℕ
decode_sender_pace_version pace = pace / 2 ^ 48 % 2 ^ 16

abbrev pub from_ptr : Pipe → ℕ
from_ptr p = decode_sender_pace_ptr p.sender_from

abbrev pub to_ptr : Pipe → ℕ
to_ptr p = decode_sender_pace_ptr p.sender_to

abbrev pub next_version : Bool → ℕ → ℕ
next_version new_version version = if new_version then (version + 1) % 2 ^ 16 else version

-- `CASSenderPaceFrom_` and `CASSenderPaceTo_`
unfoldable pub cas_from : Pipe → ℕ → ℕ → Bool → Bool × Pipe
cas_from p old ptr new_version =
    if p.sender_from == old
    then (
      true,
      record p {
        sender_from =
            encode_sender_pace ptr (next_version new_version (decode_sender_pace_version old));
      },
    )
    else (false, p)

unfoldable pub cas_to : Pipe → ℕ → ℕ → Bool → Bool × Pipe
cas_to p old ptr new_version =
    if p.sender_to == old
    then (
      true,
      record p {
        sender_to =
            encode_sender_pace ptr (next_version new_version (decode_sender_pace_version old));
      },
    )
    else (false, p)

-- `IsBlank_`, `IsNotWriting_` and `IsReady_` of a size
abbrev pub is_blank : ℕ → Bool
is_blank size = size == blank_size

abbrev pub is_not_writing : ℕ → Bool
is_not_writing size = size / ready_bit % 2 == 1

abbrev pub is_ready : ℕ → Bool
is_ready size = not (is_blank size) && is_not_writing size

-- `size |= kMaskNotWriting`
abbrev pub set_ready : ℕ → ℕ
set_ready size = if is_not_writing size then size else size + ready_bit

-- `GetMsgSize_`
abbrev pub get_msg_size : Pipe → ℕ → ℕ
get_msg_size p size =
    if is_blank size then blank_size else (p.msg_offset + size % ready_bit) % 2 ^ 32

-- `memset` with 255: the cells that start in the range have all bits set in their size.
unfoldable pub set_blank : ℕ → ℕ → (ℕ → Cell) → ℕ → Cell
set_blank start stop cells a =
    if leb start a && ltb a stop then record (cells a) { size = blank_size } else cells a

abbrev pub write : (ℕ → Cell) → ℕ → Cell → ℕ → Cell
write cells at cell a = if a == at then cell else cells a

-- `Init`. The last argument is what `new` returned.
unfoldable pub init : Pipe → ℕ → ℕ → ℕ → Bool → Option ℕ → Bool × Pipe
unfolding encode_sender_pace set_blank
init p size_pipe max_size_content threshold notifier memory =
    let sized = record p {
      size_pipe = size_pipe;
      max_size_content = max_size_content;
      threshold = threshold;
    } in
    if leb size_pipe (max_size_content + p.msg_offset) || (not (threshold == 0) && not notifier)
    then (false, p)
    else elim memory [
      | none ↦ (false, sized)
      | some pipe ↦ (
        true,
        record sized {
          pipe = pipe;
          receiver = pipe;
          sender_from = encode_sender_pace pipe 0;
          sender_to = encode_sender_pace pipe 0;
          cells = set_blank pipe (size_pipe + pipe) p.cells;
          has_notifier = notifier;
        },
      )
    ]

pub size_msg_ready : Pipe → ℕ
size_msg_ready p =
    if leb p.receiver (from_ptr p)
    then from_ptr p - p.receiver
    else from_ptr p + p.size_pipe - p.receiver

unfoldable pub size_space : Pipe → ℕ
size_space p =
    if ltb (to_ptr p) p.receiver then p.receiver - to_ptr p else p.receiver + p.size_pipe - to_ptr p

-- What a sender has after `ReserveSpaceForSend_`: its message, and where it was before a rewind
abbrev pub Space : Type 0
Space = ℕ × Option ℕ

-- A CAS, and what it reserves when it succeeds
abbrev pub reserved : Bool × Pipe → Space → Option Space × Pipe
reserved (swapped, p) space = (if swapped then some space else none, p)

-- `seen_to` and `seen_receiver` are what the sender read of the pipe before; `p` is the pipe at the CAS.
unfoldable pub reserve_space_for_send : ℕ → ℕ → Pipe → ℕ → Option Space × Pipe
unfolding decode_sender_pace_ptr cas_to
reserve_space_for_send seen_to seen_receiver p size_content =
    let ptr = decode_sender_pace_ptr seen_to in
    let need = p.msg_offset + size_content in
    if ltb p.max_size_content size_content
    then (none, p)
    else if leb seen_receiver ptr
    then if leb (ptr + need) (end_of_pipe p)
      then reserved (cas_to p seen_to (ptr + need) false) (ptr, none)
      else if ltb (p.pipe + need) seen_receiver
      then reserved (cas_to p seen_to (p.pipe + need) true) (p.pipe, some ptr)
      else (none, p)
    else if ltb (ptr + need) seen_receiver
    then reserved (cas_to p seen_to (ptr + need) false) (ptr, none)
    else (none, p)

-- The loop of `JustSendMsg_` over the messages that are ready behind the one sent
unfoldable pub send_loop : ℕ → Pipe → ℕ → ℕ → Pipe
unfolding cas_from encode_sender_pace
send_loop zero p version ptr = p
send_loop (suc rounds) p version ptr =
    let size = get_msg_size p ((p.cells ptr).size) in
    let moved = cas_from p (encode_sender_pace ptr version) (ptr + size) false in
    let rest = send_loop rounds (moved.1) version (ptr + size) in
    if not (ptr == to_ptr p) && is_ready ((p.cells ptr).size)
    then if size == blank_size then p else if moved.0 then rest else p
    else p

-- `JustSendMsg_` behind its first tests: the pace `old` of the senders is at `ptr`, with its version.
unfoldable pub advance : ℕ → Pipe → ℕ → ℕ → ℕ → Pipe
unfolding send_loop
advance rounds p old ptr version =
    let size = get_msg_size p ((p.cells ptr).size) in
    let moved = cas_from p old (ptr + size) false in
    if size == blank_size
    then p
    else if moved.0
    then send_loop rounds (moved.1) version (ptr + size)
    else moved.1

-- `JustSendMsg_`; `none` while it waits for the message before the rewind. The rounds are those of its
-- loop.
unfoldable pub just_send_msg : ℕ → Pipe → Space → Option Pipe
unfolding advance encode_sender_pace decode_sender_pace_version
just_send_msg rounds p (msg, before_rewind) =
    let p₁ = record p {
      cells = write p.cells msg (record (p.cells msg) { size = set_ready ((p.cells msg).size) });
    } in
    let version = decode_sender_pace_version p.sender_from in
    let next = (version + 1) % 2 ^ 16 in
    let rewound = record p₁ { sender_from = encode_sender_pace p.pipe next } in
    if from_ptr p == msg
    then some (advance rounds p₁ p.sender_from msg version)
    else if msg == p.pipe
    then elim before_rewind [
      | none ↦ none
      | some before ↦
          if from_ptr p == before
          then some (advance rounds rewound (encode_sender_pace p.pipe next) p.pipe next)
          else none
    ]
    else some p₁

-- `SendMsg_`: reserve, write the message, and send it
unfoldable pub send_msg_once : ℕ → Pipe → ℕ → List ℕ → Option (Bool × Pipe)
unfolding reserve_space_for_send just_send_msg
send_msg_once rounds p header content =
    let space = reserve_space_for_send p.sender_to p.receiver p (length content) in
    elim space.0 [
      | none ↦ some (false, space.1)
      | some place ↦
          elim (just_send_msg rounds
            (record (space.1) {
              cells =
                  write (space.1.cells) (place.0)
                    (record { header = header; size = length content; content = content });
            })
            place) [ none ↦ none | some sent ↦ some (true, sent) ]
    ]

-- `HasTodoMPSCFixedPipeMsg_`, which takes the receiver back to the start where the senders went back
unfoldable pub has_todo : Pipe → Bool × Pipe
has_todo p =
    if ltb p.receiver (from_ptr p)
    then (true, p)
    else if from_ptr p == p.receiver
    then (false, p)
    else if ltb (end_of_pipe p) (p.receiver + p.msg_offset) || is_blank ((p.cells p.receiver).size)
    then (not (from_ptr p == p.pipe), record p { receiver = p.pipe })
    else (true, p)

-- `ReceiveMsg_`
unfoldable pub receive_msg : Pipe → Option ℕ × Pipe
unfolding has_todo
receive_msg p = let todo = has_todo p in (if todo.0 then some (todo.1.receiver) else none, todo.1)

-- `MsgConsumed`
unfoldable pub msg_consumed : Pipe → Pipe
unfolding set_blank
msg_consumed p =
    let next = p.receiver + get_msg_size p ((p.cells p.receiver).size) in
    record p { receiver = next; cells = set_blank p.receiver next p.cells }

-- `SendMsg`: kTimesBusyQuery tries; whether the message was sent, and whether `Notify` was called
unfoldable pub send_tries : ℕ → ℕ → Pipe → ℕ → List ℕ → Option (Bool × Pipe)
unfolding send_msg_once
send_tries zero rounds p header content = some (false, p)
send_tries (suc tries) rounds p header content = elim (send_msg_once rounds p header content) [
  | none ↦ none
  | some sent ↦ if sent.0 then some sent else send_tries tries rounds (sent.1) header content
]

unfoldable pub send_msg : ℕ → Pipe → ℕ → List ℕ → Option (Bool × Bool × Pipe)
unfolding send_tries size_space
send_msg rounds p header content =
    let notify = not (p.threshold == 0) && leb (p.size_pipe - size_space p) p.threshold in
    elim (send_tries 2 rounds p header content) [
      | none ↦ none
      | some sent ↦ some (sent.0, sent.0 && notify, sent.1)
    ]
