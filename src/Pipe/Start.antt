-- ===== src/Pipe/Start.antt =====
-- `Init` of a pipe.
use public_cpp.Base.{
  IfSome, ℕ, ◌+◌, ◌^◌, ◌<◌, ◌≡◌, refl, sym, Bool, true, false, not, Option, none, some, [], ◌==◌,
  ◌&&◌, ◌||◌, leb, inl, inr, if-elim, arith,
}
use public_cpp.Pipe.{Pipe, ready_bit, set_blank, init, encode_sender_pace, decode_sender_pace_ptr}
use public_cpp.Pipe.Pace.{encode_sender_pace-ptr}
use public_cpp.Pipe.Queue.{Chain, Straight, Queue, set_blank-size}

-- What `Init` answers for: a size above that of the longest message, a notifier where one is needed, and
-- memory. The pipe is then an empty queue, and else `Init` answers false.
unfoldable pub Started : Pipe → ℕ → ℕ → ℕ → Bool → Option ℕ → Bool × Pipe → Type 0
Started p size_pipe max_size_content threshold notifier none (answer, q) = answer ≡ false
Started p size_pipe max_size_content threshold notifier (some memory) (false, q) =
    (leb size_pipe (max_size_content + p.msg_offset) || (not (threshold == 0) && not notifier))
    ≡ true
Started p size_pipe max_size_content threshold notifier (some memory) (true, q) =
    (max_size_content + p.msg_offset < size_pipe) × Queue q []

pub init-Started :
    (p : Pipe) (size_pipe max_size_content threshold : ℕ) (notifier : Bool) (memory : Option ℕ)
    → 0 < p.msg_offset
    → size_pipe < ready_bit
    → IfSome (λ start. size_pipe + start < 2 ^ 48) memory
    → Started p size_pipe max_size_content threshold notifier memory
        (init p size_pipe max_size_content threshold notifier memory)
unfolding init Started Straight Chain
init-Started p size_pipe max_size_content threshold notifier none pos small inside =
    if-elim (Started p size_pipe max_size_content threshold notifier none)
      (leb size_pipe (max_size_content + p.msg_offset) || (not (threshold == 0) && not notifier))
      (λ _. refl) λ _. refl
init-Started p size_pipe max_size_content threshold notifier (some start) pos small inside =
    if-elim (Started p size_pipe max_size_content threshold notifier (some start))
      (leb size_pipe (max_size_content + p.msg_offset) || (not (threshold == 0) && not notifier))
      (λ refuses. refuses) λ good. (large _ _ good refl, empty)
  where
    q : Pipe
    q = (record p {
      size_pipe = size_pipe;
      max_size_content = max_size_content;
      threshold = threshold;
      pipe = start;
      receiver = start;
      sender_from = encode_sender_pace start 0;
      sender_to = encode_sender_pace start 0;
      cells = set_blank start (size_pipe + start) p.cells;
      has_notifier = notifier;
    })

    at_start : decode_sender_pace_ptr (encode_sender_pace start 0) ≡ start
    at_start = encode_sender_pace-ptr start 0 (omega (arith, inside))

    empty : Queue q []
    empty = record {
      bounded = record {
        addresses = inside;
        receiver-from = omega arith;
        receiver-to = omega arith;
        to-from = omega (arith, at_start);
        to-to = omega (arith, at_start);
      };
      settled = refl;
      some_offset = pos;
      small = small;
      layout = inl (
        sym at_start,
        (λ a lo hi. absurd (omega (arith, lo, hi))),
        λ a lo hi.
            set_blank-size start (size_pipe + start) p.cells a
              (inr (omega (arith, lo, at_start), hi)),
      );
    }

    large :
        (a b : Bool)
        → (a || b) ≡ false
        → leb size_pipe (max_size_content + p.msg_offset) ≡ a
        → max_size_content + p.msg_offset < size_pipe
    large false b h same = ground (arith, same)
    large true b h same = absurd (grind (arith, h))
