-- ===== src/IoHelper/Receive.antt =====
-- `ReadNonBlock` of details/io_helper.cpp.
use native.Mathlib.Nat.{mod-eq_of_lt}
use public_cpp.Base.{
  ℕ, zero, suc, ◌+◌, ◌-◌, ◌^◌, ◌≤◌, ◌<◌, ◌≡◌, ◌⊎◌, inl, inr, refl, sym, ap, ◌∙◌, true, false, List,
  [], ◌∷◌, ◌++◌, arith, ltb, ◌==◌, ==_iff, if◌then◌else◌, length, length-append, take, drop,
  Bool-cases,
}
use public_cpp.IoHelper.{
  Error, Result, Ret, done, failed, count, negative, to_int, may_retry, put_bytes, read_loop,
  read_non_block,
}
use public_cpp.IoHelper.Transfer.{length-drop, drop-drop, take-drop, Result-cases}

-- A call delivers no more bytes than it is asked for.
abbrev pub DeliversAsked : (ℕ → ℕ → Result) → Type 0
DeliversAsked read = (call want n : ℕ) → read call want ≡ done n → n ≤ want

-- The call for the rest of a buffer made the loop stop early.
pub data Starved (read : ℕ → ℕ → Result) (want : ℕ) : Type 0 where
  ended : (call : ℕ) → read call want ≡ done 0 → Starved read want
  blocked :
      (call : ℕ) (e : Error) → read call want ≡ failed e → may_retry e ≡ true → Starved read want

-- The buffer with the first `k` bytes of the input over its own
pub filled : List ℕ → List ℕ → ℕ → List ℕ
filled input buf k = take k input ++ drop k buf

length-take : (n : ℕ) (xs : List ℕ) → n ≤ length xs → length (take n xs) ≡ n
unfolding take
length-take zero xs h = refl
length-take (suc n) [] h = absurd (omega arith)
length-take (suc n) (x ∷ xs) h = ap suc (length-take n xs (omega arith))

take-append : (n : ℕ) (xs ys : List ℕ) → length xs ≡ n → take n (xs ++ ys) ≡ xs
unfolding take
take-append zero [] ys h = refl
take-append zero (x ∷ xs) ys h = absurd (omega arith)
take-append (suc n) [] ys h = absurd (omega arith)
take-append (suc n) (x ∷ xs) ys h = ap (λ t. x ∷ t) (take-append n xs ys (omega arith))

drop-append : (n : ℕ) (xs ys : List ℕ) → length xs ≡ n → drop n (xs ++ ys) ≡ ys
unfolding drop
drop-append zero [] ys h = refl
drop-append zero (x ∷ xs) ys h = absurd (omega arith)
drop-append (suc n) [] ys h = absurd (omega arith)
drop-append (suc n) (x ∷ xs) ys h = drop-append n xs ys (omega arith)

append_assoc : (xs ys zs : List ℕ) → xs ++ (ys ++ zs) ≡ (xs ++ ys) ++ zs
append_assoc [] ys zs = refl
append_assoc (x ∷ xs) ys zs = ap (λ t. x ∷ t) (append_assoc xs ys zs)

-- The system has put the first bytes of the input in place, and the function says how many, or failed
-- behind them.
pub record Received (read : ℕ → ℕ → Result) (input buf : List ℕ) (r : Ret × List ℕ) : Type 0 where
  pub got : ℕ
  pub bound : got ≤ length buf
  pub buffer : r.1 ≡ filled input buf got
  pub result :
      ((r.0 ≡ count got) × ((got ≡ length buf) ⊎ Starved read (length buf - got)))
      ⊎ ((r.0 ≡ negative 2)
          × ((call : ℕ) × (e : Error) × (read call (length buf - got) ≡ failed e)
              × (may_retry e ≡ false)))

module _ (read : ℕ → ℕ → Result) (input buf : List ℕ) (small : length buf < 2 ^ 31)
    (enough : length buf ≤ length input) where
  int_of : (n : ℕ) → n ≤ length buf → to_int n ≡ n
  int_of n h = mod-eq_of_lt (omega arith)

  length-filled : (k : ℕ) → k ≤ length buf → length (filled input buf k) ≡ length buf
  unfolding filled
  length-filled k h = omega (
    arith,
    length-append (take k input) (drop k buf),
    length-take k input (omega arith),
    length-drop k buf,
  )

  put_bytes-filled :
      (from n : ℕ)
      → from + n ≤ length buf
      → put_bytes (filled input buf from) from (take n (drop from input))
        ≡ filled input buf (from + n)
  unfolding filled
  put_bytes-filled from n h =
      let front = take from input in
      let bytes = take n (drop from input) in
      let size : length front ≡ from = length-take from input (omega arith) in
      let more : length bytes ≡ n =
        length-take n (drop from input) (omega (arith, length-drop from input)) in
      ap (λ t. t ++ (bytes ++ drop (from + length bytes) (front ++ drop from buf)))
        (take-append from front (drop from buf) size)
      ∙ ap (λ k. front ++ (bytes ++ drop (from + k) (front ++ drop from buf))) more
      ∙ ap (λ t. front ++ (bytes ++ t))
          (sym (drop-drop from n (front ++ drop from buf))
            ∙ ap (drop n) (drop-append from front (drop from buf) size)
            ∙ drop-drop from n buf)
      ∙ append_assoc front bytes (drop (from + n) buf)
      ∙ ap (λ t. t ++ drop (from + n) buf) (take-drop from n input)

  starves :
      (from : ℕ)
      → from ≤ length buf
      → Starved read (length buf - from)
      → Received read input buf (count (to_int from), filled input buf from)
  starves from b s = record {
    got = from;
    bound = b;
    buffer = refl;
    result = inl (ap count (int_of from b), inr s);
  }

  abbrev loop_from : ℕ → ℕ → ℕ → Ret × List ℕ
  loop_from fuel call from = read_loop read input fuel call (filled input buf from) from

  -- The round behind a call that delivered `n` bytes, with the buffer that has them
  abbrev delivered : ℕ → ℕ → ℕ → ℕ → List ℕ → Ret × List ℕ
  delivered size fuel call total b =
      if total == size
      then (count (to_int size), b)
      else if ltb size total
      then (negative 1, b)
      else read_loop read input fuel (call + 1) b total

  abbrev body : ℕ → Result → ℕ → ℕ → ℕ → List ℕ → Ret × List ℕ
  body size result fuel call from b = elim result [
    | done zero ↦ (count (to_int from), b)
    | done (suc n) ↦
        delivered size fuel call (from + suc n) (put_bytes b from (take (suc n) (drop from input)))
    | failed e ↦ if may_retry e then (count (to_int from), b) else (negative 2, b)
  ]

  read_loop-body :
      (fuel call from : ℕ) (b : List ℕ)
      → read_loop read input (suc fuel) call b from
        ≡ body (length b) (read call (length b - from)) fuel call from b
  unfolding read_loop
  read_loop-body fuel call from b = refl

  loop_from-body :
      (fuel call from : ℕ) (r : Result)
      → from ≤ length buf
      → read call (length buf - from) ≡ r
      → loop_from (suc fuel) call from ≡ body (length buf) r fuel call from (filled input buf from)
  loop_from-body fuel call from r b e =
      let full = filled input buf from in
      read_loop-body fuel call from full
      ∙ ap (λ k. body k (read call (k - from)) fuel call from full) (length-filled from b)
      ∙ ap (λ r. body (length buf) r fuel call from full) e

  receives :
      (fuel call from n : ℕ)
      → read call (length buf - from) ≡ done (suc n)
      → from + suc n ≤ length buf
      → (from + suc n < length buf
          → Received read input buf (loop_from fuel (call + 1) (from + suc n)))
      → Received read input buf (loop_from (suc fuel) call from)
  receives fuel call from n e b rest =
      let total = from + suc n in
      rw
        (loop_from-body fuel call from (done (suc n)) (omega arith) e
          ∙ ap (delivered (length buf) fuel call total) (put_bytes-filled from (suc n) b))
        (elim (Bool-cases (total == length buf)) [
          | inl last ↦
              let same = (==_iff total (length buf)).0 last in
              rw last (record {
                got = total;
                bound = b;
                buffer = refl;
                result = inl (ap count (int_of (length buf) (omega arith) ∙ sym same), inl same);
              })
          | inr more ↦
              let below : ltb (length buf) total ≡ false = ground arith in
              rw (more, below) (rest (ground arith))
        ])

  fails :
      (fuel call from : ℕ) (x : Error)
      → read call (length buf - from) ≡ failed x
      → from ≤ length buf
      → Received read input buf (loop_from (suc fuel) call from)
  fails fuel call from x e b =
      rw (loop_from-body fuel call from (failed x) b e) (elim (Bool-cases (may_retry x)) [
        | inl r ↦ rw r (starves from b (blocked call x e r))
        | inr r ↦
            rw r (record {
              got = from;
              bound = b;
              buffer = refl;
              result = inr (refl, (call, x, e, r));
            })
      ])

  read_loop-Received :
      DeliversAsked read
      → (fuel call from : ℕ) → from ≤ length buf
      → length buf < from + fuel
      → Received read input buf (loop_from fuel call from)
  read_loop-Received asked zero call from b f = absurd (omega arith)
  read_loop-Received asked (suc fuel) call from b f =
      elim (Result-cases (read call (length buf - from))) [
        | inl e ↦ rw (loop_from-body fuel call from (done 0) b e) (starves from b (ended call e))
        | inr (inl (n, e)) ↦
            let fits = asked call (length buf - from) (suc n) e in
            receives fuel call from n e (omega arith) (λ l.
              read_loop-Received asked fuel (call + 1) (from + suc n) (omega arith) (omega arith))
        | inr (inr (x, e)) ↦ fails fuel call from x e b
      ]

-- If no call delivers more bytes than it is asked for, `ReadNonBlock` returns for a buffer of less than
-- 2^31 bytes, no longer than the input. The first bytes of the input, each once and in order, then
-- stand over the first of the buffer, and the rest of the buffer is as it was. The result is how many
-- they are, the whole length unless the next call delivered nothing or asked to come again; or it is
-- -2, after a call behind them with any other error.
pub read_non_block-Received :
    (read : ℕ → ℕ → Result) (input buf : List ℕ)
    → length buf < 2 ^ 31
    → length buf ≤ length input
    → DeliversAsked read
    → Received read input buf (read_non_block read input buf)
unfolding read_non_block
read_non_block-Received read input buf small enough asked = rw start (
    read_loop-Received read input buf small enough asked (length buf + 1) 0 0 (omega arith)
      (omega arith))
  where
    start :
        read_loop read input (length buf + 1) 0 buf 0
        ≡ read_loop read input (length buf + 1) 0 (filled input buf 0) 0
    start = unfold filled take drop in refl
