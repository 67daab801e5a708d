-- ===== src/Pipe/Grow.antt =====
-- The queue after a message was sent: behind the last one, or at the start of the pipe.
use mathlib.Core.List.{append_assoc}
use public_cpp.Base.{
  ℕ, ◌+◌, ◌≤◌, ◌<◌, ◌≡◌, ◌≢◌, ◌⊎◌, refl, sym, ap, ◌∙◌, subst, List, [], ◌∷◌, ◌++◌, length, arith,
}
use public_cpp.Pipe.{Pipe, Cell, end_of_pipe, to_ptr, ready_bit, decode_sender_pace_ptr}
use public_cpp.Pipe.Reserve.{Bounded}
use public_cpp.Pipe.Queue.{
  Msg, Chain, Blank, Straight, Wrapped, Queue, Chain-le, Chain-agree, Chain-snoc,
}
use public_cpp.Pipe.Publish.{marked-filled, marked-other, sent}

-- The three ways the queue grows. `q` is the pipe after the message was sent at `at`.
module _ (p : Pipe) (ms : List Msg) (m : Msg) (queue : Queue p ms) (to from at : ℕ)
    (few : p.msg_offset + length (m.1) < ready_bit) where
  abbrev after : Pipe
  after = sent p to m at from

  after-agree :
      (start : ℕ) (ns : List Msg) (stop : ℕ)
      → ((a : ℕ) → start ≤ a → a < stop → a ≢ at)
      → Chain p.cells p.msg_offset start ns stop
      → Chain after.cells p.msg_offset start ns stop
  after-agree start ns stop apart =
      Chain-agree p.cells after.cells p.msg_offset start ns stop (Queue.some_offset queue)
        (λ a lo hi. marked-other p to m at a (apart a lo hi))

  after-Blank :
      (lo hi : ℕ)
      → ((a : ℕ) → lo ≤ a → a < hi → a ≢ at)
      → Blank p.cells lo hi
      → Blank after.cells lo hi
  after-Blank lo hi apart blank a low high =
      ap (λ (c : Cell). c.size) (marked-other p to m at a (apart a low high)) ∙ blank a low high

  pub after-Queue :
      decode_sender_pace_ptr to ≡ at + (p.msg_offset + length (m.1))
      → decode_sender_pace_ptr from ≡ at + (p.msg_offset + length (m.1))
      → p.pipe ≤ at
      → at + (p.msg_offset + length (m.1)) ≤ end_of_pipe p
      → (Straight after (ms ++ m ∷ []) ⊎ Wrapped after (ms ++ m ∷ []))
      → Queue after (ms ++ m ∷ [])
  after-Queue to-at from-at lo hi layout = record {
    bounded = record {
      addresses = Bounded.addresses (Queue.bounded queue);
      receiver-from = Bounded.receiver-from (Queue.bounded queue);
      receiver-to = Bounded.receiver-to (Queue.bounded queue);
      to-from = omega (arith, to-at);
      to-to = omega (arith, to-at);
    };
    settled = from-at ∙ sym to-at;
    some_offset = Queue.some_offset queue;
    small = Queue.small queue;
    layout = layout;
  }

  pub sent-Straight :
      decode_sender_pace_ptr to ≡ at + (p.msg_offset + length (m.1))
      → at ≡ to_ptr p
      → Straight p ms
      → Straight after (ms ++ m ∷ [])
  unfolding Straight
  sent-Straight to-at at_to (chain, before, behind) = (
    subst (Chain after.cells p.msg_offset p.receiver (ms ++ m ∷ [])) (sym to-at) (
        Chain-snoc after.cells p.msg_offset p.receiver ms at m
          (after-agree p.receiver ms at (λ a lo hi same. omega (arith, hi, same))
            (subst (Chain p.cells p.msg_offset p.receiver ms) (sym at_to) chain))
          (marked-filled p to m at (omega (arith, few)))),
    after-Blank p.pipe p.receiver
        (λ a lo hi same.
          omega
            (arith, hi, same, at_to, Chain-le p.cells p.msg_offset p.receiver ms (to_ptr p) chain))
        before,
    after-Blank _ (end_of_pipe p)
        (λ a lo hi same. omega (arith, lo, to-at, same, Queue.some_offset queue))
        (λ a lo hi. behind a (omega (arith, lo, to-at, at_to)) hi),
  )

  pub sent-rewound :
      decode_sender_pace_ptr to ≡ at + (p.msg_offset + length (m.1))
      → at ≡ p.pipe
      → at + (p.msg_offset + length (m.1)) < p.receiver
      → Straight p ms
      → Wrapped after (ms ++ m ∷ [])
  unfolding Straight Chain
  sent-rewound to-at at_start room (chain, before, behind) = record {
    first = ms;
    second = m ∷ [];
    gap = to_ptr p;
    both = refl;
    first-Chain =
        after-agree p.receiver ms (to_ptr p) (λ a lo hi same. omega (arith, lo, same, room)) chain;
    second-Chain = (
      ap after.cells (sym at_start) ∙ marked-filled p to m at (omega (arith, few)),
      omega (arith, to-at, at_start),
    );
    started = omega (arith, to-at, at_start, Queue.some_offset queue);
    below_receiver = omega (arith, to-at, room);
    gap-le = Bounded.to-to (Queue.bounded queue);
    between =
        after-Blank _ p.receiver
          (λ a lo hi same. omega (arith, lo, to-at, same, Queue.some_offset queue))
          (λ a lo hi. before a (omega (arith, lo, to-at, at_start)) hi);
    behind =
        after-Blank (to_ptr p) (end_of_pipe p)
          (λ a lo hi same.
            omega
              (arith, lo, same, room, Chain-le p.cells p.msg_offset p.receiver ms (to_ptr p) chain))
          behind;
  }

  pub sent-Wrapped :
      decode_sender_pace_ptr to ≡ at + (p.msg_offset + length (m.1))
      → at ≡ to_ptr p
      → at + (p.msg_offset + length (m.1)) < p.receiver
      → Wrapped p ms
      → Wrapped after (ms ++ m ∷ [])
  sent-Wrapped to-at at_to room wrapped = record {
    first = Wrapped.first wrapped;
    second = Wrapped.second wrapped ++ m ∷ [];
    gap = Wrapped.gap wrapped;
    both =
        ap (λ l. l ++ m ∷ []) (Wrapped.both wrapped)
        ∙ append_assoc (Wrapped.first wrapped) (Wrapped.second wrapped) (m ∷ []);
    first-Chain =
        after-agree p.receiver (Wrapped.first wrapped) (Wrapped.gap wrapped)
          (λ a lo hi same. omega (arith, lo, same, room)) (Wrapped.first-Chain wrapped);
    second-Chain =
        subst (Chain after.cells p.msg_offset p.pipe (Wrapped.second wrapped ++ m ∷ [])) (sym to-at)
          (Chain-snoc after.cells p.msg_offset p.pipe (Wrapped.second wrapped) at m
            (after-agree p.pipe (Wrapped.second wrapped) at
              (λ a lo hi same. omega (arith, hi, same))
              (subst (Chain p.cells p.msg_offset p.pipe (Wrapped.second wrapped)) (sym at_to)
                (Wrapped.second-Chain wrapped)))
            (marked-filled p to m at (omega (arith, few))));
    started = omega (arith, to-at, at_to, Wrapped.started wrapped);
    below_receiver = omega (arith, to-at, room);
    gap-le = Wrapped.gap-le wrapped;
    between =
        after-Blank _ p.receiver
          (λ a lo hi same. omega (arith, lo, to-at, same, Queue.some_offset queue))
          (λ a lo hi. Wrapped.between wrapped a (omega (arith, lo, to-at, at_to)) hi);
    behind =
        after-Blank (Wrapped.gap wrapped) (end_of_pipe p)
          (λ a lo hi same. omega (
            arith,
            lo,
            same,
            room,
            Chain-le p.cells p.msg_offset p.receiver (Wrapped.first wrapped) (Wrapped.gap wrapped)
                (Wrapped.first-Chain wrapped),
          ))
          (Wrapped.behind wrapped);
  }
