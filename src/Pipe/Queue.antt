-- ===== src/Pipe/Queue.antt =====
-- The messages in the pipe as a queue, when the calls of the senders and the receiver run one after
-- another.
use public_cpp.Base.{
  ℕ, ◌+◌, ◌≤◌, ◌<◌, ◌≡◌, ◌≢◌, ◌⊎◌, inl, inr, refl, ap, ◌∙◌, true, false, List, [], ◌∷◌, ◌++◌, ◌==◌,
  ◌&&◌, ltb, leb, leb→le, Bool-cases, length, if-elim, if_false, arith,
}
use public_cpp.Pipe.{
  Pipe, Cell, end_of_pipe, to_ptr, from_ptr, blank_size, ready_bit, write, set_blank, is_blank,
  get_msg_size,
}
use public_cpp.Pipe.Reserve.{Bounded}

-- A header and a content
abbrev pub Msg : Type 0
Msg = ℕ × List ℕ

-- The cell of a message that is ready
abbrev pub cell_of : Msg → Cell
cell_of m = record { header = m.0; size = length (m.1) + ready_bit; content = m.1 }

-- The messages stand one behind the other from `at` to `stop`.
unfoldable pub Chain : (ℕ → Cell) → ℕ → ℕ → List Msg → ℕ → Type 0
Chain cells offset at [] stop = at ≡ stop
Chain cells offset at (m ∷ ms) stop =
    (cells at ≡ cell_of m) × Chain cells offset (at + (offset + length (m.1))) ms stop

abbrev pub Blank : (ℕ → Cell) → ℕ → ℕ → Type 0
Blank cells start stop = (a : ℕ) → start ≤ a → a < stop → (cells a).size ≡ blank_size

-- The messages are in one piece, or in two with the second at the start of the pipe; all else is blank.
unfoldable pub Straight : Pipe → List Msg → Type 0
Straight p ms =
    Chain p.cells p.msg_offset p.receiver ms (to_ptr p)
    × Blank p.cells p.pipe p.receiver
    × Blank p.cells (to_ptr p) (end_of_pipe p)

pub record Wrapped (p : Pipe) (ms : List Msg) : Type 0 where
  pub first : List Msg
  pub second : List Msg
  pub gap : ℕ
  pub both : ms ≡ first ++ second
  pub first-Chain : Chain p.cells p.msg_offset p.receiver first gap
  pub second-Chain : Chain p.cells p.msg_offset p.pipe second (to_ptr p)
  pub started : p.pipe < to_ptr p
  pub below_receiver : to_ptr p < p.receiver
  pub gap-le : gap ≤ end_of_pipe p
  pub between : Blank p.cells (to_ptr p) p.receiver
  pub behind : Blank p.cells gap (end_of_pipe p)

pub record Queue (p : Pipe) (ms : List Msg) : Type 0 where
  pub bounded : Bounded p
  pub settled : from_ptr p ≡ to_ptr p
  pub some_offset : 0 < p.msg_offset
  pub small : p.size_pipe < ready_bit
  pub layout : Straight p ms ⊎ Wrapped p ms

pub Chain-le :
    (cells : ℕ → Cell) (offset at : ℕ) (ms : List Msg) (stop : ℕ)
    → Chain cells offset at ms stop
    → at ≤ stop
unfolding Chain
Chain-le cells offset at [] stop h = omega (arith, h)
Chain-le cells offset at (m ∷ ms) stop (_, rest) =
    omega (arith, Chain-le cells offset (at + (offset + length (m.1))) ms stop rest)

-- A chain sees the cells from its start to its end only.
pub Chain-agree :
    (cells others : ℕ → Cell) (offset at : ℕ) (ms : List Msg) (stop : ℕ)
    → 0 < offset
    → ((a : ℕ) → at ≤ a → a < stop → others a ≡ cells a)
    → Chain cells offset at ms stop
    → Chain others offset at ms stop
unfolding Chain
Chain-agree cells others offset at [] stop pos same h = h
Chain-agree cells others offset at (m ∷ ms) stop pos same (here, rest) = (
  same at (omega arith)
        (omega (arith, Chain-le cells offset (at + (offset + length (m.1))) ms stop rest))
      ∙ here,
  Chain-agree cells others offset (at + (offset + length (m.1))) ms stop pos
      (λ a lo hi. same a (omega arith) hi) rest,
)

pub Chain-snoc :
    (cells : ℕ → Cell) (offset at : ℕ) (ms : List Msg) (stop : ℕ) (m : Msg)
    → Chain cells offset at ms stop
    → cells stop ≡ cell_of m
    → Chain cells offset at (ms ++ m ∷ []) (stop + (offset + length (m.1)))
unfolding Chain
Chain-snoc cells offset at [] stop m h here =
    (ap cells h ∙ here, ap (λ k. k + (offset + length (m.1))) h)
Chain-snoc cells offset at (n ∷ ms) stop m (first, rest) here =
    (first, Chain-snoc cells offset (at + (offset + length (n.1))) ms stop m rest here)

-- The size of a message that is ready, and its tests
pub size-cell_of :
    (p : Pipe) (m : Msg)
    → p.msg_offset + length (m.1) < ready_bit
    → 0 < p.msg_offset
    → (is_blank ((cell_of m).size) ≡ false)
      × (get_msg_size p ((cell_of m).size) ≡ p.msg_offset + length (m.1))
size-cell_of p m few pos = (not_blank, if_false _ _ _ not_blank ∙ omega arith)
  where
    not_blank : is_blank ((cell_of m).size) ≡ false
    not_blank = ground (arith, few, pos)

-- Blanking and writing, at the addresses that are looked at
pub set_blank-outside :
    (start stop : ℕ) (cells : ℕ → Cell) (a : ℕ)
    → (a < start) ⊎ (stop ≤ a)
    → set_blank start stop cells a ≡ cells a
unfolding set_blank
set_blank-outside start stop cells a h = if_false _ _ _ (outside h)
  where
    outside : (a < start) ⊎ (stop ≤ a) → (leb start a && ltb a stop) ≡ false
    outside (inl h) = ground arith
    outside (inr h) = ground arith

pub set_blank-size :
    (start stop : ℕ) (cells : ℕ → Cell) (a : ℕ)
    → ((cells a).size ≡ blank_size) ⊎ ((start ≤ a) × (a < stop))
    → (set_blank start stop cells a).size ≡ blank_size
unfolding set_blank
set_blank-size start stop cells a h =
    if-elim (λ (c : Cell). c.size ≡ blank_size) (leb start a && ltb a stop) (λ _. refl)
      λ outside. blank_there outside h
  where
    blank_there :
        (leb start a && ltb a stop) ≡ false
        → ((cells a).size ≡ blank_size) ⊎ ((start ≤ a) × (a < stop))
        → (cells a).size ≡ blank_size
    blank_there outside (inl h) = h
    blank_there outside (inr (lo, hi)) = absurd (grind (arith, outside, lo, hi))

pub Blank-keep :
    (start stop lo hi : ℕ) (cells : ℕ → Cell)
    → Blank cells lo hi
    → Blank (set_blank start stop cells) lo hi
Blank-keep start stop lo hi cells blank a low high =
    set_blank-size start stop cells a (inl (blank a low high))

pub Blank-more :
    (start stop lo : ℕ) (cells : ℕ → Cell)
    → Blank cells lo start
    → Blank (set_blank start stop cells) lo stop
Blank-more start stop lo cells blank a low high =
    set_blank-size start stop cells a (by_side (Bool-cases (leb start a)))
  where
    by_side :
        (leb start a ≡ true) ⊎ (leb start a ≡ false)
        → ((cells a).size ≡ blank_size) ⊎ ((start ≤ a) × (a < stop))
    by_side (inl h) = inr (leb→le start a h, high)
    by_side (inr h) = inl (blank a low (ground (arith, h)))

pub write-other :
    (cells : ℕ → Cell) (at : ℕ) (cell : Cell) (a : ℕ) → a ≢ at → write cells at cell a ≡ cells a
write-other cells at cell a h = if_false (a == at) _ _ (ground (arith, h))

pub write-same : (cells : ℕ → Cell) (at : ℕ) (cell : Cell) → write cells at cell at ≡ cell
write-same cells at cell =
    if-elim (λ c. c ≡ cell) (at == at) (λ _. refl) λ h. absurd (grind (arith, h))
