-- ===== src/Pipe/Consume.antt =====
-- What `MsgConsumed` leaves of the queue.
use mathlib.Core.List.{tail-eq_of_cons-eq}
use public_cpp.Base.{
  ℕ, ◌+◌, ◌≤◌, ◌<◌, ◌≡◌, ◌⊎◌, inl, inr, sym, ap, ◌∙◌, subst, false, List, ◌∷◌, ◌++◌, length, arith,
}
use public_cpp.Pipe.{
  Pipe, Cell, end_of_pipe, to_ptr, ready_bit, set_blank, is_blank, get_msg_size, msg_consumed,
}
use public_cpp.Pipe.Reserve.{Bounded}
use public_cpp.Pipe.Queue.{
  Msg, Chain, Straight, Wrapped, Queue, Chain-le, Chain-agree, size-cell_of, set_blank-outside,
  Blank-keep, Blank-more,
}

-- The cell at the receiver, and how far `MsgConsumed` goes
pub next-of :
    (p : Pipe) (m : Msg) (ms : List Msg) (stop : ℕ)
    → Bounded p
    → 0 < p.msg_offset
    → p.size_pipe < ready_bit
    → stop ≤ end_of_pipe p
    → Chain p.cells p.msg_offset p.receiver (m ∷ ms) stop
    → (is_blank ((p.cells p.receiver).size) ≡ false)
      × (p.receiver + get_msg_size p ((p.cells p.receiver).size)
          ≡ p.receiver + (p.msg_offset + length (m.1)))
unfolding Chain
next-of p m ms stop bounded pos small inside (here, rest) = (
  ap (λ (c : Cell). is_blank (c.size)) here ∙ (size-cell_of p m few pos).0,
  ap (λ k. p.receiver + k)
      (ap (λ (c : Cell). get_msg_size p (c.size)) here ∙ (size-cell_of p m few pos).1),
)
  where
    few : p.msg_offset + length (m.1) < ready_bit
    few = omega (
      arith,
      small,
      inside,
      Bounded.receiver-from bounded,
      Chain-le p.cells p.msg_offset (p.receiver + (p.msg_offset + length (m.1))) ms stop rest,
    )

-- The pipe after `MsgConsumed` went to `next`
abbrev passed : Pipe → ℕ → Pipe
passed p next = record p { receiver = next; cells = set_blank p.receiver next p.cells }

abbrev pub after_first : Pipe → Msg → ℕ
after_first p m = p.receiver + (p.msg_offset + length (m.1))

msg_consumed-passed :
    (p : Pipe) (m : Msg) (ms : List Msg) (stop : ℕ)
    → Bounded p
    → 0 < p.msg_offset
    → p.size_pipe < ready_bit
    → stop ≤ end_of_pipe p
    → Chain p.cells p.msg_offset p.receiver (m ∷ ms) stop
    → passed p (after_first p m) ≡ msg_consumed p
unfolding msg_consumed
msg_consumed-passed p m ms stop bounded pos small inside chain =
    sym (ap (passed p) ((next-of p m ms stop bounded pos small inside chain).1))

-- What `MsgConsumed` leaves of the queue, where its first message stands at the receiver
module _ (p : Pipe) (m : Msg) (ms : List Msg) (queue : Queue p (m ∷ ms)) where
  passed-Bounded : after_first p m ≤ end_of_pipe p → Bounded (passed p (after_first p m))
  passed-Bounded inside = record {
    addresses = Bounded.addresses (Queue.bounded queue);
    receiver-from = omega (arith, Bounded.receiver-from (Queue.bounded queue));
    receiver-to = inside;
    to-from = Bounded.to-from (Queue.bounded queue);
    to-to = Bounded.to-to (Queue.bounded queue);
  }

  passed-Queue :
      after_first p m ≤ end_of_pipe p
      → (Straight (passed p (after_first p m)) ms ⊎ Wrapped (passed p (after_first p m)) ms)
      → Queue (passed p (after_first p m)) ms
  passed-Queue inside layout = record {
    bounded = passed-Bounded inside;
    settled = Queue.settled queue;
    some_offset = Queue.some_offset queue;
    small = Queue.small queue;
    layout = layout;
  }

  pub consumed-Straight : Straight p (m ∷ ms) → Queue (msg_consumed p) ms
  unfolding Chain Straight
  consumed-Straight (chain, before, after) =
      subst (λ q. Queue q ms)
        (msg_consumed-passed p m ms (to_ptr p) (Queue.bounded queue) (Queue.some_offset queue)
          (Queue.small queue) (Bounded.to-to (Queue.bounded queue)) chain)
        (passed-Queue inside (
          inl (
            Chain-agree p.cells _ p.msg_offset (after_first p m) ms (to_ptr p)
                (Queue.some_offset queue)
                (λ a lo hi. set_blank-outside p.receiver (after_first p m) p.cells a (inr lo))
                (chain.1),
            Blank-more p.receiver (after_first p m) p.pipe p.cells before,
            Blank-keep p.receiver (after_first p m) (to_ptr p) (end_of_pipe p) p.cells after,
          )))
    where
      inside : after_first p m ≤ end_of_pipe p
      inside = omega (
        arith,
        Chain-le p.cells p.msg_offset (after_first p m) ms (to_ptr p) (chain.1),
        Bounded.to-to (Queue.bounded queue),
      )

  pub consumed-Wrapped :
      (rest : List Msg) (wrapped : Wrapped p (m ∷ ms))
      → Wrapped.first wrapped ≡ m ∷ rest
      → Queue (msg_consumed p) ms
  unfolding Chain
  consumed-Wrapped rest wrapped eq =
      subst (λ q. Queue q ms)
        (msg_consumed-passed p m rest (Wrapped.gap wrapped) (Queue.bounded queue)
          (Queue.some_offset queue) (Queue.small queue) (Wrapped.gap-le wrapped) chain)
        (passed-Queue (omega (arith, inside, Wrapped.gap-le wrapped)) (
          inr record {
            first = rest;
            second = Wrapped.second wrapped;
            gap = Wrapped.gap wrapped;
            both =
                tail-eq_of_cons-eq
                  (Wrapped.both wrapped ∙ ap (λ l. l ++ Wrapped.second wrapped) eq);
            first-Chain =
                Chain-agree p.cells _ p.msg_offset (after_first p m) rest (Wrapped.gap wrapped)
                  (Queue.some_offset queue)
                  (λ a lo hi. set_blank-outside p.receiver (after_first p m) p.cells a (inr lo))
                  (chain.1);
            second-Chain =
                Chain-agree p.cells _ p.msg_offset p.pipe (Wrapped.second wrapped) (to_ptr p)
                  (Queue.some_offset queue)
                  (λ a lo hi.
                    set_blank-outside p.receiver (after_first p m) p.cells a
                      (inl (omega (arith, hi, Wrapped.below_receiver wrapped))))
                  (Wrapped.second-Chain wrapped);
            started = Wrapped.started wrapped;
            below_receiver = omega (arith, Wrapped.below_receiver wrapped);
            gap-le = Wrapped.gap-le wrapped;
            between =
                Blank-more p.receiver (after_first p m) (to_ptr p) p.cells
                  (Wrapped.between wrapped);
            behind =
                Blank-keep p.receiver (after_first p m) (Wrapped.gap wrapped) (end_of_pipe p)
                  p.cells (Wrapped.behind wrapped);
          }))
    where
      chain : Chain p.cells p.msg_offset p.receiver (m ∷ rest) (Wrapped.gap wrapped)
      chain =
          subst (λ l. Chain p.cells p.msg_offset p.receiver l (Wrapped.gap wrapped)) eq
            (Wrapped.first-Chain wrapped)

      inside : after_first p m ≤ Wrapped.gap wrapped
      inside = Chain-le p.cells p.msg_offset (after_first p m) rest (Wrapped.gap wrapped) (chain.1)
