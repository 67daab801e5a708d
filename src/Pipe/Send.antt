-- ===== src/Pipe/Send.antt =====
-- A sender that runs alone puts its message behind the others of the queue.
use public_cpp.Base.{
  ℕ, ◌+◌, ◌%◌, ◌^◌, ◌≤◌, ◌<◌, ◌≡◌, ◌⊎◌, inl, inr, refl, sym, ap, ◌∙◌, subst, Bool, true, false,
  Option, none, some, List, [], ◌∷◌, ◌++◌, ◌&&◌, ◌||◌, if◌then◌else◌, ltb, leb, length, if-elim,
  leb→le, ltb→lt, arith,
}
use public_cpp.Pipe.{
  Pipe, Space, end_of_pipe, to_ptr, ready_bit, write, cas_to, next_version, encode_sender_pace,
  decode_sender_pace_ptr, decode_sender_pace_version, reserved, reserve_space_for_send,
  just_send_msg, send_msg_once,
}
use public_cpp.Pipe.Pace.{encode_sender_pace-ptr}
use public_cpp.Pipe.Reserve.{Bounded}
use public_cpp.Pipe.Queue.{Msg, Straight, Wrapped, Queue, Chain-le}
use public_cpp.Pipe.Publish.{cas_to-same, sent, just_send_msg-next, just_send_msg-rewound}
use public_cpp.Pipe.Grow.{after-Queue, sent-Straight, sent-rewound, sent-Wrapped}

-- Whether there is room for a content of the size
abbrev pub has_room : Pipe → ℕ → Bool
has_room p size =
    leb size p.max_size_content
    && (if leb p.receiver (to_ptr p)
        then leb (to_ptr p + (p.msg_offset + size)) (end_of_pipe p)
          || ltb (p.pipe + (p.msg_offset + size)) p.receiver
        else ltb (to_ptr p + (p.msg_offset + size)) p.receiver)

-- What is left of `SendMsg_` once `ReserveSpaceForSend_` has answered
unfoldable rest_of : ℕ → Msg → Option Space × Pipe → Option (Bool × Pipe)
rest_of rounds m space = elim space.0 [
  | none ↦ some (false, space.1)
  | some place ↦
      elim (just_send_msg rounds
        (record (space.1) {
          cells =
              write (space.1.cells) (place.0)
                (record { header = m.0; size = length (m.1); content = m.1 });
        })
        place) [ none ↦ none | some q ↦ some (true, q) ]
]

-- Sent, behind the queue, where there is room; or not sent, and nothing changed, where there is none
unfoldable pub Sent : Pipe → List Msg → Msg → Option (Bool × Pipe) → Type 0
Sent p ms m none = ⊥
Sent p ms m (some (false, q)) = (q ≡ p) × (has_room p (length (m.1)) ≡ false)
Sent p ms m (some (true, q)) = Queue q (ms ++ m ∷ []) × (has_room p (length (m.1)) ≡ true)

module _ (p : Pipe) (ms : List Msg) (m : Msg) (queue : Queue p ms) (rounds : ℕ) where
  abbrev need : ℕ
  need = p.msg_offset + length (m.1)

  pace : ℕ → ℕ → ℕ
  pace at version = encode_sender_pace (at + need) version

  pace-ptr :
      (at version : ℕ)
      → at + need ≤ end_of_pipe p
      → decode_sender_pace_ptr (pace at version) ≡ at + need
  unfolding pace
  pace-ptr at version inside =
      encode_sender_pace-ptr (at + need) version
        (omega (arith, inside, Bounded.addresses (Queue.bounded queue)))

  rest_of-Sent :
      (q : Pipe) (s : Option Space × Pipe)
      → rest_of rounds m s ≡ some (true, q)
      → has_room p (length (m.1)) ≡ true
      → Queue q (ms ++ m ∷ [])
      → Sent p ms m (rest_of rounds m s)
  unfolding Sent
  rest_of-Sent q s eq room grown = subst (Sent p ms m) (sym eq) (grown, room)

  few_bytes : (at : ℕ) → p.pipe ≤ at → at + need ≤ end_of_pipe p → need < ready_bit
  few_bytes at lo hi = omega (arith, lo, hi, Queue.small queue)

  -- The message goes behind the last one.
  send-next :
      to_ptr p + need ≤ end_of_pipe p
      → has_room p (length (m.1)) ≡ true
      → ((to : ℕ)
          → decode_sender_pace_ptr to ≡ to_ptr p + need
          → (from : ℕ)
          → Straight (sent p to m (to_ptr p) from) (ms ++ m ∷ [])
            ⊎ Wrapped (sent p to m (to_ptr p) from) (ms ++ m ∷ []))
      → Sent p ms m (
          rest_of rounds m
            (reserved (cas_to p p.sender_to (to_ptr p + need) false) (to_ptr p, none)))
  unfolding rest_of pace
  send-next inside room layout =
      rest_of-Sent _ _
        (ap (λ s. rest_of rounds m (reserved s (to_ptr p, none)))
            (cas_to-same p (to_ptr p + need) false)
          ∙ ap
              (λ o. elim o as (λ _. Option (Bool × Pipe)) [ none ↦ none | some q ↦ some (true, q) ])
              (just_send_msg-next p m (pace (to_ptr p) (decode_sender_pace_version p.sender_to))
                (to_ptr p) few (Queue.some_offset queue) to-at rounds (Queue.settled queue)))
        room
        (after-Queue p ms m queue (pace (to_ptr p) (decode_sender_pace_version p.sender_to))
          (pace (to_ptr p) (decode_sender_pace_version p.sender_from)) (to_ptr p) few to-at
          (pace-ptr (to_ptr p) _ inside) (Bounded.to-from (Queue.bounded queue)) inside
          (layout _ to-at _))
    where
      few : need < ready_bit
      few = few_bytes (to_ptr p) (Bounded.to-from (Queue.bounded queue)) inside

      to-at :
          decode_sender_pace_ptr (pace (to_ptr p) (decode_sender_pace_version p.sender_to))
          ≡ to_ptr p + need
      to-at = pace-ptr (to_ptr p) _ inside

  -- The message goes to the start of the pipe.
  send-rewound :
      p.pipe + need < p.receiver
      → p.receiver ≤ to_ptr p
      → has_room p (length (m.1)) ≡ true
      → Straight p ms
      → Sent p ms m (
          rest_of rounds m
            (reserved (cas_to p p.sender_to (p.pipe + need) true) (p.pipe, some (to_ptr p))))
  unfolding rest_of pace
  send-rewound below before room straight =
      rest_of-Sent _ _
        (ap (λ s. rest_of rounds m (reserved s (p.pipe, some (to_ptr p))))
            (cas_to-same p (p.pipe + need) true)
          ∙ ap
              (λ o. elim o as (λ _. Option (Bool × Pipe)) [ none ↦ none | some q ↦ some (true, q) ])
              (just_send_msg-rewound p m (pace p.pipe to_version) p.pipe few
                (Queue.some_offset queue) to-at rounds (to_ptr p) refl (Queue.settled queue)
                (λ same. omega (arith, same, below, before))))
        room
        (after-Queue p ms m queue (pace p.pipe to_version) (pace p.pipe from_version) p.pipe few
          to-at (pace-ptr p.pipe from_version inside) (omega arith) inside
          (inr (
            sent-rewound p ms m queue (pace p.pipe to_version) (pace p.pipe from_version) p.pipe few
              to-at refl below straight)))
    where
      inside : p.pipe + need ≤ end_of_pipe p
      inside = omega (arith, below, Bounded.receiver-to (Queue.bounded queue))

      few : need < ready_bit
      few = few_bytes p.pipe (omega arith) inside

      to_version : ℕ
      to_version = next_version true (decode_sender_pace_version p.sender_to)

      from_version : ℕ
      from_version =
          decode_sender_pace_version
            (encode_sender_pace p.pipe ((decode_sender_pace_version p.sender_from + 1) % 2 ^ 16))

      to-at : decode_sender_pace_ptr (pace p.pipe to_version) ≡ p.pipe + need
      to-at = pace-ptr p.pipe to_version inside

  refused :
      (s : Option Space × Pipe)
      → s ≡ (none, p)
      → has_room p (length (m.1)) ≡ false
      → Sent p ms m (rest_of rounds m s)
  unfolding Sent rest_of
  refused s eq room = subst (λ s. Sent p ms m (rest_of rounds m s)) (sym eq) (refl, room)

  -- Where the receiver is not behind the senders, the queue is in one piece, and else in two.
  one_piece : p.receiver ≤ to_ptr p → Straight p ms
  one_piece before = by_layout (Queue.layout queue)
    where
      by_layout : Straight p ms ⊎ Wrapped p ms → Straight p ms
      by_layout (inl straight) = straight
      by_layout (inr wrapped) = absurd (omega (arith, before, Wrapped.below_receiver wrapped))

  two_pieces : to_ptr p < p.receiver → Wrapped p ms
  unfolding Straight
  two_pieces below = by_layout (Queue.layout queue)
    where
      by_layout : Straight p ms ⊎ Wrapped p ms → Wrapped p ms
      by_layout (inl (chain, before, behind)) =
          absurd
            (omega (arith, below, Chain-le p.cells p.msg_offset p.receiver ms (to_ptr p) chain))
      by_layout (inr wrapped) = wrapped

  -- In a pipe that holds a queue, `SendMsg_` of a sender that runs alone comes to an end. Where there is
  -- room for the message, which may be at the start of the pipe, it puts the message behind the others;
  -- else it returns false and changes nothing.
  pub send_msg_once-Sent : Sent p ms m (send_msg_once rounds p (m.0) (m.1))
  unfolding send_msg_once reserve_space_for_send rest_of
  send_msg_once-Sent =
      if-elim P (ltb p.max_size_content (length (m.1)))
        (λ long. refused _ refl (ground (arith, long)))
        λ short.
          if-elim P (leb p.receiver (to_ptr p))
            (λ before.
              if-elim P (leb (to_ptr p + need) (end_of_pipe p))
                (λ room.
                  send-next (leb→le _ _ room) (ground (arith, short, before, room)) λ to to-at from.
                    inl (
                      sent-Straight p ms m queue to from (to_ptr p)
                        (few_bytes (to_ptr p) (Bounded.to-from (Queue.bounded queue))
                          (leb→le _ _ room))
                        to-at refl (one_piece (leb→le _ _ before))))
                λ full.
                  if-elim P (ltb (p.pipe + need) p.receiver)
                    (λ room.
                      send-rewound (ltb→lt _ _ room) (leb→le _ _ before)
                        (ground (arith, short, before, room)) (one_piece (leb→le _ _ before)))
                    λ no_room. refused _ refl (ground (arith, short, before, full, no_room)))
            λ below.
              if-elim P (ltb (to_ptr p + need) p.receiver)
                (λ room.
                  send-next (inside room) (ground (arith, short, below, room)) λ to to-at from.
                    inr (
                      sent-Wrapped p ms m queue to from (to_ptr p)
                        (few_bytes (to_ptr p) (Bounded.to-from (Queue.bounded queue)) (inside room))
                        to-at refl (ltb→lt _ _ room) (two_pieces (ground (arith, below)))))
                λ no_room. refused _ refl (ground (arith, short, below, no_room))
    where
      P : Option Space × Pipe → Type 0
      P s = Sent p ms m (rest_of rounds m s)

      inside : ltb (to_ptr p + need) p.receiver ≡ true → to_ptr p + need ≤ end_of_pipe p
      inside room = omega (arith, ltb→lt _ _ room, Bounded.receiver-to (Queue.bounded queue))
