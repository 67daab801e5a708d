-- ===== src/Pipe/Receive.antt =====
-- The receiver takes the messages out of the pipe in the order of the queue.
use mathlib.Core.List.{head-eq_of_cons-eq, cons≢nil}
use public_cpp.Base.{
  if_true, ltb→lt, ℕ, ◌+◌, ◌≤◌, ◌<◌, ◌≡◌, ◌⊎◌, inl, inr, refl, sym, ap, ◌∙◌, subst, Bool, true,
  false, not, none, some, List, [], ◌∷◌, ◌++◌, ◌==◌, ◌||◌, if◌then◌else◌, ltb, ==_iff, Bool-cases,
  if_false, arith,
}
use public_cpp.Pipe.{
  Pipe, end_of_pipe, to_ptr, from_ptr, blank_size, is_blank, has_todo, receive_msg, msg_consumed,
}
use public_cpp.Pipe.Reserve.{Bounded}
use public_cpp.Pipe.Queue.{Msg, cell_of, Chain, Straight, Wrapped, Queue, Chain-le}
use public_cpp.Pipe.Consume.{next-of, after_first, consumed-Straight, consumed-Wrapped}

-- The four branches of `HasTodoMPSCFixedPipeMsg_`
module _ (p : Pipe) where
  has_todo-before : p.receiver < from_ptr p → has_todo p ≡ (true, p)
  unfolding has_todo
  has_todo-before h = if_true (ltb p.receiver (from_ptr p)) _ _ (ground (arith, h))

  has_todo-empty : from_ptr p ≡ p.receiver → has_todo p ≡ (false, p)
  unfolding has_todo
  has_todo-empty h =
      if_false (ltb p.receiver (from_ptr p)) _ _ (ground (arith, h))
      ∙ if_true (from_ptr p == p.receiver) _ _ ((==_iff _ _).1 h)

  has_todo-piece :
      from_ptr p < p.receiver
      → p.receiver + p.msg_offset ≤ end_of_pipe p
      → is_blank ((p.cells p.receiver).size) ≡ false
      → has_todo p ≡ (true, p)
  unfolding has_todo
  has_todo-piece h room full =
      if_false (ltb p.receiver (from_ptr p)) _ _ (ground (arith, h))
      ∙ if_false (from_ptr p == p.receiver) _ _ (ground (arith, h))
      ∙ if_false
          (ltb (end_of_pipe p) (p.receiver + p.msg_offset) || is_blank ((p.cells p.receiver).size))
          _ _ (neither _ _ (ground (arith, room)) full)
    where
      neither : (a b : Bool) → a ≡ false → b ≡ false → (a || b) ≡ false
      neither a b ha hb = ground arith

  has_todo-back :
      from_ptr p < p.receiver
      → p.pipe < from_ptr p
      → (p.receiver + p.msg_offset ≤ end_of_pipe p → (p.cells p.receiver).size ≡ blank_size)
      → has_todo p ≡ (true, record p { receiver = p.pipe })
  unfolding has_todo
  has_todo-back h started blank =
      if_false (ltb p.receiver (from_ptr p)) _ _ (ground (arith, h))
      ∙ if_false (from_ptr p == p.receiver) _ _ (ground (arith, h))
      ∙ if_true
          (ltb (end_of_pipe p) (p.receiver + p.msg_offset) || is_blank ((p.cells p.receiver).size))
          _ _ (either (Bool-cases (ltb (end_of_pipe p) (p.receiver + p.msg_offset))))
      ∙ ap (λ b. (not b, record p { receiver = p.pipe })) elsewhere
    where
      elsewhere : (from_ptr p == p.pipe) ≡ false
      elsewhere = ground (arith, started)

      either :
          (ltb (end_of_pipe p) (p.receiver + p.msg_offset) ≡ true)
            ⊎ (ltb (end_of_pipe p) (p.receiver + p.msg_offset) ≡ false)
          → (ltb (end_of_pipe p) (p.receiver + p.msg_offset)
              || is_blank ((p.cells p.receiver).size))
            ≡ true
      either (inl h) = ap (λ b. b || is_blank ((p.cells p.receiver).size)) h
      either (inr h) =
          ap (λ b. b || is_blank ((p.cells p.receiver).size)) h
          ∙ (==_iff _ blank_size).1 (blank (ground (arith, h)))

-- The receiver finds the first message of the queue, in the cell that it gives, and the queue as it was;
-- when it has consumed it, the others are left. It finds none where the queue is empty.
unfoldable pub Received : Pipe → List Msg → Type 0
Received p [] = receive_msg p ≡ (none, p)
Received p (m ∷ ms) =
    ((receive_msg p).0 ≡ some ((receive_msg p).1.receiver))
    × ((receive_msg p).1.cells ((receive_msg p).1.receiver) ≡ cell_of m)
    × Queue ((receive_msg p).1) (m ∷ ms)
    × Queue (msg_consumed ((receive_msg p).1)) ms

-- What a receiver that finds something at `q` gives
found :
    (p q : Pipe) (m : Msg) (ms : List Msg)
    → has_todo p ≡ (true, q)
    → q.cells q.receiver ≡ cell_of m
    → Queue q (m ∷ ms)
    → Queue (msg_consumed q) ms
    → Received p (m ∷ ms)
unfolding Received receive_msg
found p q m ms todo here queue consumed =
    subst
      (λ (t : Bool × Pipe).
        ((if t.0 then some (t.1.receiver) else none) ≡ some (t.1.receiver))
        × (t.1.cells (t.1.receiver) ≡ cell_of m)
        × Queue (t.1) (m ∷ ms)
        × Queue (msg_consumed (t.1)) ms)
      (sym todo) (refl, here, queue, consumed)

found_nothing : (p : Pipe) → has_todo p ≡ (false, p) → Received p []
unfolding Received receive_msg
found_nothing p todo =
    ap (λ (t : Bool × Pipe). ((if t.0 then some (t.1.receiver) else none), t.1)) todo

-- A queue in one piece
receive-Straight : (p : Pipe) (ms : List Msg) → Queue p ms → Straight p ms → Received p ms
unfolding Straight Chain
receive-Straight p [] queue (chain, before, after) =
    found_nothing p (has_todo-empty p (Queue.settled queue ∙ sym chain))
receive-Straight p (m ∷ ms) queue (chain, before, after) =
    found p p m ms
      (has_todo-before p (
        omega (
          arith,
          Queue.settled queue,
          Queue.some_offset queue,
          Chain-le p.cells p.msg_offset (after_first p m) ms (to_ptr p) (chain.1),
        )))
      (chain.0) queue (consumed-Straight p m ms queue (chain, before, after))

-- The second piece holds a message.
Wrapped-some : (p : Pipe) → Wrapped p [] → ⊥
unfolding Chain
Wrapped-some p wrapped =
    by_pieces (Wrapped.first wrapped) (Wrapped.second wrapped) (Wrapped.both wrapped)
      (Wrapped.second-Chain wrapped)
  where
    by_pieces :
        (first second : List Msg)
        → [] ≡ first ++ second
        → Chain p.cells p.msg_offset p.pipe second (to_ptr p)
        → ⊥
    by_pieces [] [] both chain = omega (arith, chain, Wrapped.started wrapped)
    by_pieces [] (n ∷ second) both chain = cons≢nil (sym both)
    by_pieces (n ∷ first) second both chain = cons≢nil (sym both)

-- The receiver at the end of the first piece goes back to the second.
module _ (p : Pipe) (m : Msg) (ms : List Msg) (queue : Queue p (m ∷ ms))
    (wrapped : Wrapped p (m ∷ ms)) where
  abbrev back : Pipe
  back = record p { receiver = p.pipe }

  receive-back : Wrapped.first wrapped ≡ [] → Received p (m ∷ ms)
  unfolding Chain Straight
  receive-back eq =
      found p back m ms
        (has_todo-back p (omega (arith, Queue.settled queue, Wrapped.below_receiver wrapped))
          (omega (arith, Queue.settled queue, Wrapped.started wrapped))
          λ room.
            Wrapped.behind wrapped p.receiver (omega (arith, at_gap))
              (omega (arith, room, Queue.some_offset queue)))
        (chain.0) queue_back (consumed-Straight back m ms queue_back straight)
    where
      at_gap : p.receiver ≡ Wrapped.gap wrapped
      at_gap =
          subst (λ l. Chain p.cells p.msg_offset p.receiver l (Wrapped.gap wrapped)) eq
            (Wrapped.first-Chain wrapped)

      chain : Chain p.cells p.msg_offset p.pipe (m ∷ ms) (to_ptr p)
      chain =
          subst (λ l. Chain p.cells p.msg_offset p.pipe l (to_ptr p))
            (sym (Wrapped.both wrapped ∙ ap (λ l. l ++ Wrapped.second wrapped) eq))
            (Wrapped.second-Chain wrapped)

      side :
          (a : ℕ)
          → to_ptr p ≤ a
          → a < end_of_pipe p
          → (ltb a p.receiver ≡ true) ⊎ (ltb a p.receiver ≡ false)
          → (p.cells a).size ≡ blank_size
      side a lo hi (inl h) = Wrapped.between wrapped a lo (ltb→lt a p.receiver h)
      side a lo hi (inr h) = Wrapped.behind wrapped a (omega (arith, at_gap, above h)) hi
        where
          above : ltb a p.receiver ≡ false → p.receiver ≤ a
          above h = ground (arith, h)

      straight : Straight back (m ∷ ms)
      straight = (
        chain,
        (λ a lo hi. absurd (omega (arith, lo, hi))),
        λ a lo hi. side a lo hi (Bool-cases (ltb a p.receiver)),
      )

      queue_back : Queue back (m ∷ ms)
      queue_back = record {
        bounded = record {
          addresses = Bounded.addresses (Queue.bounded queue);
          receiver-from = omega arith;
          receiver-to = omega arith;
          to-from = Bounded.to-from (Queue.bounded queue);
          to-to = Bounded.to-to (Queue.bounded queue);
        };
        settled = Queue.settled queue;
        some_offset = Queue.some_offset queue;
        small = Queue.small queue;
        layout = inl straight;
      }

  receive-piece : (rest : List Msg) → Wrapped.first wrapped ≡ m ∷ rest → Received p (m ∷ ms)
  unfolding Chain
  receive-piece rest eq =
      found p p m ms
        (has_todo-piece p (omega (arith, Queue.settled queue, Wrapped.below_receiver wrapped))
          (omega (
            arith,
            Wrapped.gap-le wrapped,
            Chain-le p.cells p.msg_offset (after_first p m) rest (Wrapped.gap wrapped) (chain.1),
          ))
          ((next-of p m rest (Wrapped.gap wrapped) (Queue.bounded queue) (Queue.some_offset queue)
            (Queue.small queue) (Wrapped.gap-le wrapped) chain).0))
        (chain.0) queue (consumed-Wrapped p m ms queue rest wrapped eq)
    where
      chain : Chain p.cells p.msg_offset p.receiver (m ∷ rest) (Wrapped.gap wrapped)
      chain =
          subst (λ l. Chain p.cells p.msg_offset p.receiver l (Wrapped.gap wrapped)) eq
            (Wrapped.first-Chain wrapped)

-- A queue in two pieces
receive-Wrapped : (p : Pipe) (ms : List Msg) → Queue p ms → Wrapped p ms → Received p ms
receive-Wrapped p [] queue wrapped = absurd (Wrapped-some p wrapped)
receive-Wrapped p (m ∷ ms) queue wrapped = by_first (Wrapped.first wrapped) refl
  where
    by_first : (l : List Msg) → Wrapped.first wrapped ≡ l → Received p (m ∷ ms)
    by_first [] eq = receive-back p m ms queue wrapped eq
    by_first (n ∷ rest) eq = receive-piece p m ms queue wrapped rest (
        eq
        ∙ ap (λ x. x ∷ rest)
            (sym (
              head-eq_of_cons-eq
                (Wrapped.both wrapped ∙ ap (λ l. l ++ Wrapped.second wrapped) eq))))

-- In a pipe that holds a queue of messages, sent and not in the writing, `ReceiveMsg_` finds the first of
-- them, and `MsgConsumed` after it leaves the queue of the others; of an empty queue it finds nothing and
-- changes nothing.
pub receive_msg-Received : (p : Pipe) (ms : List Msg) → Queue p ms → Received p ms
receive_msg-Received p ms queue = by_layout (Queue.layout queue)
  where
    by_layout : Straight p ms ⊎ Wrapped p ms → Received p ms
    by_layout (inl straight) = receive-Straight p ms queue straight
    by_layout (inr wrapped) = receive-Wrapped p ms queue wrapped
