-- ===== src/IoHelper.antt =====
-- io_helper.h and details/io_helper.cpp: loops over system calls, and the calls that make sockets.
pub mod Transfer
pub mod Receive
pub mod Sockets
pub mod Ip
mod Tests
use public_cpp.Base.{
  ℕ, zero, suc, ◌+◌, ◌-◌, ◌%◌, ◌^◌, List, [], ◌∷◌, ◌++◌, Bool, true, false, Option, none, some, ltb,
  ◌==◌, ◌||◌, if◌then◌else◌, length, take, drop,
}

-- `errno` after a call: EAGAIN or EWOULDBLOCK, EINTR, or anything else
pub data Error : Type 0 where
  again interrupted other : Error

-- What a system call returns: a number, or -1 with `errno`
pub data Result : Type 0 where
  done : ℕ → Result
  failed : Error → Result

-- What a function returns: the 32 bits of a count, or the negative of a number. `unfinished` says that
-- the rounds of a loop were too few.
pub data Ret : Type 0 where
  count : ℕ → Ret
  negative : ℕ → Ret
  unfinished : Ret

abbrev pub to_int : ℕ → ℕ
to_int n = n % 2 ^ 32

abbrev pub may_retry : Error → Bool
may_retry again = true
may_retry interrupted = true
may_retry other = false

-- The parameter `write n bytes` is the result of the `n`th call of `write`, with the bytes offered.
module _ (write : ℕ → List ℕ → Result) where
  -- The loop of `WriteNonBlock`, with the bytes that the system took. One round more than there are
  -- bytes is enough.
  pub write_loop : ℕ → ℕ → List ℕ → ℕ → Ret × List ℕ
  write_loop zero call buf bytes_write = (unfinished, [])
  write_loop (suc fuel) call buf bytes_write = elim (write call (drop bytes_write buf)) [
    | done zero ↦ (count (to_int bytes_write), [])
    | done (suc n) ↦
        let taken = take (suc n) (drop bytes_write buf) in
        let total = bytes_write + suc n in
        let rest = write_loop fuel (call + 1) buf total in
        if total == length buf
        then (count (to_int (length buf)), taken)
        else if ltb (length buf) total
        then (negative 1, taken)
        else (rest.0, taken ++ rest.1)
    | failed e ↦ if may_retry e then (count (to_int bytes_write), []) else (negative 2, [])
  ]

  pub write_non_block : List ℕ → Ret × List ℕ
  unfolding write_loop
  write_non_block buf = write_loop (length buf + 1) 0 buf 0

-- `read` puts the next bytes of `input` into the buffer at `bytes_read`; `read n want` is how many the
-- `n`th call puts there.
abbrev pub put_bytes : List ℕ → ℕ → List ℕ → List ℕ
put_bytes buf pos bytes = take pos buf ++ (bytes ++ drop (pos + length bytes) buf)

module _ (read : ℕ → ℕ → Result) (input : List ℕ) where
  -- The loop of `ReadNonBlock`, with the buffer
  pub read_loop : ℕ → ℕ → List ℕ → ℕ → Ret × List ℕ
  read_loop zero call buf bytes_read = (unfinished, buf)
  read_loop (suc fuel) call buf bytes_read = elim (read call (length buf - bytes_read)) [
    | done zero ↦ (count (to_int bytes_read), buf)
    | done (suc n) ↦
        let filled = put_bytes buf bytes_read (take (suc n) (drop bytes_read input)) in
        let total = bytes_read + suc n in
        let rest = read_loop fuel (call + 1) filled total in
        if total == length buf
        then (count (to_int (length buf)), filled)
        else if ltb (length buf) total
        then (negative 1, filled)
        else rest
    | failed e ↦ if may_retry e then (count (to_int bytes_read), buf) else (negative 2, buf)
  ]

  pub read_non_block : List ℕ → Ret × List ℕ
  unfolding read_loop
  read_non_block buf = read_loop (length buf + 1) 0 buf 0
