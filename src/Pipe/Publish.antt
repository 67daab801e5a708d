-- ===== src/Pipe/Publish.antt =====
-- `JustSendMsg_` of a sender that runs alone moves the senders behind the message.
use public_cpp.Base.{
  ℕ, zero, suc, ◌+◌, ◌%◌, ◌^◌, ◌<◌, ◌≡◌, ◌≢◌, refl, sym, ap, ◌∙◌, Bool, true, false, not, none,
  some, ◌==◌, ◌&&◌, if◌then◌else◌, ==_iff, length, if_false, if_true, arith,
}
use public_cpp.Pipe.{
  Pipe, Cell, to_ptr, from_ptr, blank_size, ready_bit, write, is_ready, is_not_writing, set_ready,
  get_msg_size, cas_to, cas_from, next_version, encode_sender_pace, decode_sender_pace_ptr,
  decode_sender_pace_version, send_loop, advance, just_send_msg,
}
use public_cpp.Pipe.Queue.{Msg, cell_of, size-cell_of, write-other, write-same}

-- The loop ends at once where no other message is behind.
send_loop-end :
    (rounds : ℕ) (p : Pipe) (version ptr : ℕ) → ptr ≡ to_ptr p → send_loop rounds p version ptr ≡ p
unfolding send_loop
send_loop-end zero p version ptr h = refl
send_loop-end (suc rounds) p version ptr h =
    if_false (not (ptr == to_ptr p) && is_ready ((p.cells ptr).size)) _ _
      (closed _ _ ((==_iff _ _).1 h))
  where
    closed : (a b : Bool) → a ≡ true → (not a && b) ≡ false
    closed a b h = ground arith

-- A CAS on the value that is there
cas_from-same :
    (p : Pipe) (ptr : ℕ) (new_version : Bool)
    → cas_from p p.sender_from ptr new_version ≡ (
      true,
      record p {
        sender_from =
            encode_sender_pace ptr
              (next_version new_version (decode_sender_pace_version p.sender_from));
      },
    )
unfolding cas_from
cas_from-same p ptr new_version = if_true (p.sender_from == p.sender_from) _ _ ((==_iff _ _).1 refl)

pub cas_to-same :
    (p : Pipe) (ptr : ℕ) (new_version : Bool)
    → cas_to p p.sender_to ptr new_version ≡ (
      true,
      record p {
        sender_to =
            encode_sender_pace ptr
              (next_version new_version (decode_sender_pace_version p.sender_to));
      },
    )
unfolding cas_to
cas_to-same p ptr new_version = if_true (p.sender_to == p.sender_to) _ _ ((==_iff _ _).1 refl)

advance-one :
    (rounds : ℕ) (p : Pipe) (ptr version need : ℕ)
    → get_msg_size p ((p.cells ptr).size) ≡ need
    → need < ready_bit
    → ptr + need ≡ to_ptr p
    → advance rounds p p.sender_from ptr version ≡ record p {
      sender_from = encode_sender_pace (ptr + need) (decode_sender_pace_version p.sender_from);
    }
unfolding advance
advance-one rounds p ptr version need size few at_to =
    ap (λ k. go k (cas_from p p.sender_from (ptr + k) false)) size
    ∙ if_false (need == blank_size) _ _ (ground (arith, few))
    ∙ ap (go_on need) (cas_from-same p (ptr + need) false)
    ∙ send_loop-end rounds _ version (ptr + need) at_to
  where
    go_on : ℕ → Bool × Pipe → Pipe
    go_on k moved = if moved.0 then send_loop rounds (moved.1) version (ptr + k) else moved.1

    go : ℕ → Bool × Pipe → Pipe
    go k moved = if k == blank_size then p else go_on k moved

-- The pipe after a message was written at `at`, with its size marked as ready
abbrev pub filled : Pipe → ℕ → Msg → ℕ → Pipe
filled p to m at = record p {
  sender_to = to;
  cells = write p.cells at (record { header = m.0; size = length (m.1); content = m.1 });
}

abbrev pub marked : Pipe → ℕ → Pipe
marked p at = record p {
  cells = write p.cells at (record (p.cells at) { size = set_ready ((p.cells at).size) });
}

pub marked-filled :
    (p : Pipe) (to : ℕ) (m : Msg) (at : ℕ)
    → length (m.1) < ready_bit
    → (marked (filled p to m at) at).cells at ≡ cell_of m
marked-filled p to m at few =
    write-same (filled p to m at).cells at _
    ∙ ap (λ (c : Cell). record c { size = set_ready (c.size) }) (write-same p.cells at _)
    ∙ ap (λ size. record { header = m.0; size = size; content = m.1 })
        (if_false (is_not_writing (length (m.1))) _ _ (ground (arith, few)))

pub marked-other :
    (p : Pipe) (to : ℕ) (m : Msg) (at a : ℕ)
    → a ≢ at
    → (marked (filled p to m at) at).cells a ≡ p.cells a
marked-other p to m at a other =
    write-other (filled p to m at).cells at
      (record ((filled p to m at).cells at) {
        size = set_ready (((filled p to m at).cells at).size);
      })
      a other
    ∙ write-other p.cells at (record { header = m.0; size = length (m.1); content = m.1 }) a other

-- The pipe when the message is sent
abbrev pub sent : Pipe → ℕ → Msg → ℕ → ℕ → Pipe
sent p to m at from = record (marked (filled p to m at) at) { sender_from = from }

-- `JustSendMsg_` of the message written, where it is the next, and where the pipe went back to its start
module _ (p : Pipe) (m : Msg) (to at : ℕ) (few : p.msg_offset + length (m.1) < ready_bit)
    (some_offset : 0 < p.msg_offset)
    (to-at : decode_sender_pace_ptr to ≡ at + (p.msg_offset + length (m.1))) where
  size-marked :
      get_msg_size p (((marked (filled p to m at) at).cells at).size) ≡ p.msg_offset + length (m.1)
  size-marked =
      ap (λ (c : Cell). get_msg_size p (c.size)) (marked-filled p to m at (omega (arith, few)))
      ∙ (size-cell_of p m few some_offset).1

  pub just_send_msg-next :
      (rounds : ℕ)
      → from_ptr p ≡ at
      → just_send_msg rounds (filled p to m at) (at, none)
        ≡ some (
            sent p to m at (
              encode_sender_pace
                (at + (p.msg_offset + length (m.1)))
                (decode_sender_pace_version p.sender_from)))
  unfolding just_send_msg
  just_send_msg-next rounds from-at =
      if_true (from_ptr p == at) _ _ ((==_iff _ _).1 from-at)
      ∙ ap some (
          advance-one rounds (marked (filled p to m at) at) at
            (decode_sender_pace_version p.sender_from) (p.msg_offset + length (m.1)) size-marked few
            (sym to-at))

  pub just_send_msg-rewound :
      (rounds before : ℕ)
      → at ≡ p.pipe
      → from_ptr p ≡ before
      → before ≢ at
      → just_send_msg rounds (filled p to m at) (at, some before)
        ≡ some (
            sent p to m at (
              encode_sender_pace (at + (p.msg_offset + length (m.1))) (
                decode_sender_pace_version (
                  encode_sender_pace p.pipe
                    ((decode_sender_pace_version p.sender_from + 1) % 2 ^ 16)))))
  unfolding just_send_msg
  just_send_msg-rewound rounds before at_start from_before apart =
      if_false (from_ptr p == at) _ _ (ground (arith, from_before, apart))
      ∙ if_true (at == p.pipe) _ _ ((==_iff _ _).1 at_start)
      ∙ if_true (from_ptr p == before) _ _ ((==_iff _ _).1 from_before)
      ∙ ap (λ k. some (advance rounds rewound rewound.sender_from k next)) (sym at_start)
      ∙ ap some (
          advance-one rounds rewound at next (p.msg_offset + length (m.1)) size-marked few
            (sym to-at))
    where
      next : ℕ
      next = (decode_sender_pace_version p.sender_from + 1) % 2 ^ 16

      rewound : Pipe
      rewound = record (marked (filled p to m at) at) {
        sender_from = encode_sender_pace p.pipe next;
      }
