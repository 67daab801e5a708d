-- ===== src/IoHelper/Transfer.antt =====
-- `WriteNonBlock` and `ReadNonBlock` of details/io_helper.cpp.
use native.Mathlib.Nat.{mod-eq_of_lt}
use public_cpp.Base.{
  ℕ, zero, suc, ◌+◌, ◌-◌, ◌^◌, ◌≤◌, ◌<◌, ◌≡◌, ◌⊎◌, inl, inr, refl, sym, ap, ◌∙◌, true, false, List,
  [], ◌∷◌, ◌++◌, arith, ltb, ◌==◌, ==_iff, length, take, drop, Bool-cases,
}
use public_cpp.IoHelper.{
  Error, Result, Ret, done, failed, count, negative, to_int, may_retry, write_loop, write_non_block,
}

-- The system takes no more bytes than it is offered.
abbrev pub TakesOffered : (ℕ → List ℕ → Result) → Type 0
TakesOffered write = (call n : ℕ) (bytes : List ℕ) → write call bytes ≡ done n → n ≤ length bytes

-- The call with the rest of the buffer behind `k` bytes made the loop stop early.
pub data Stopped (write : ℕ → List ℕ → Result) (rest : List ℕ) : Type 0 where
  closed : (call : ℕ) → write call rest ≡ done 0 → Stopped write rest
  blocked :
      (call : ℕ) (e : Error) → write call rest ≡ failed e → may_retry e ≡ true → Stopped write rest

-- The system has taken the first `sent` bytes, and the function says so, or failed behind them.
pub record Written (write : ℕ → List ℕ → Result) (buf : List ℕ) (from : ℕ) (r : Ret × List ℕ)
    : Type 0 where
  pub sent : ℕ
  pub bound : from + sent ≤ length buf
  pub taken : r.1 ≡ take sent (drop from buf)
  pub result :
      ((r.0 ≡ count (from + sent))
        × ((from + sent ≡ length buf) ⊎ Stopped write (drop (from + sent) buf)))
      ⊎ ((r.0 ≡ negative 2)
          × ((call : ℕ) × (e : Error) × (write call (drop (from + sent) buf) ≡ failed e)
              × (may_retry e ≡ false)))

pub length-drop : (n : ℕ) (xs : List ℕ) → length (drop n xs) ≡ length xs - n
unfolding drop
length-drop zero xs = omega arith
length-drop (suc n) [] = omega arith
length-drop (suc n) (x ∷ xs) = omega (arith, length-drop n xs)

drop-nil : (n : ℕ) → drop {A = ℕ} n [] ≡ []
unfolding drop
drop-nil zero = refl
drop-nil (suc n) = refl

take-nil : (n : ℕ) → take {A = ℕ} n [] ≡ []
unfolding take
take-nil zero = refl
take-nil (suc n) = refl

pub take-drop : (m n : ℕ) (xs : List ℕ) → take m xs ++ take n (drop m xs) ≡ take (m + n) xs
unfolding take drop
take-drop zero n xs = let e : n ≡ 0 + n = omega arith in ap (λ k. take k xs) e
take-drop (suc m) n [] = take-nil n ∙ sym (take-nil (suc m + n))
take-drop (suc m) n (x ∷ xs) =
    let e : suc (m + n) ≡ suc m + n = omega arith in
    ap (λ t. x ∷ t) (take-drop m n xs) ∙ ap (λ k. take k (x ∷ xs)) e

pub drop-drop : (m n : ℕ) (xs : List ℕ) → drop n (drop m xs) ≡ drop (m + n) xs
unfolding drop
drop-drop zero n xs = let e : n ≡ 0 + n = omega arith in ap (λ k. drop k xs) e
drop-drop (suc m) n [] = drop-nil n ∙ sym (drop-nil (suc m + n))
drop-drop (suc m) n (x ∷ xs) =
    let e : suc (m + n) ≡ suc m + n = omega arith in drop-drop m n xs ∙ ap (λ k. drop k (x ∷ xs)) e

pub Result-cases :
    (r : Result) → (r ≡ done 0) ⊎ ((n : ℕ) × (r ≡ done (suc n))) ⊎ ((e : Error) × (r ≡ failed e))
Result-cases (done zero) = inl refl
Result-cases (done (suc n)) = inr (inl (n, refl))
Result-cases (failed e) = inr (inr (e, refl))

module _ (write : ℕ → List ℕ → Result) (buf : List ℕ) (small : length buf < 2 ^ 31) where
  int_of : (n : ℕ) → n ≤ length buf → to_int n ≡ n
  int_of n h = mod-eq_of_lt (omega arith)

  stops :
      (from : ℕ)
      → from ≤ length buf
      → Stopped write (drop from buf)
      → Written write buf from (count (to_int from), [])
  unfolding take
  stops from b s =
      let same : from ≡ from + 0 = omega arith in
      record {
        sent = 0;
        bound = omega arith;
        taken = refl;
        result = inl (ap count (int_of from b ∙ same), inr (rw same at s));
      }

  -- A round that sent `n` bytes, and the rounds behind it
  adds :
      (from n : ℕ) (r : Ret × List ℕ)
      → Written write buf (from + n) r
      → Written write buf from (r.0, take n (drop from buf) ++ r.1)
  adds from n r w =
      let same : from + n + w.sent ≡ from + (n + w.sent) = omega arith in
      record {
        sent = n + w.sent;
        bound = omega (arith, w.bound);
        taken =
            ap (λ t. take n (drop from buf) ++ t)
              (w.taken ∙ ap (take w.sent) (sym (drop-drop from n buf)))
            ∙ take-drop n w.sent (drop from buf);
        result = rw same at w.result;
      }

  whole :
      (from n : ℕ)
      → from + n ≡ length buf
      → Written write buf from (count (to_int (length buf)), take n (drop from buf))
  whole from n e = record {
    sent = n;
    bound = omega arith;
    taken = refl;
    result = inl (ap count (int_of (length buf) (omega arith) ∙ sym e), inl e);
  }

  sends :
      (fuel call from n : ℕ)
      → write call (drop from buf) ≡ done (suc n)
      → from + suc n ≤ length buf
      → (from + suc n < length buf
          → Written write buf (from + suc n) (write_loop write fuel (call + 1) buf (from + suc n)))
      → Written write buf from (write_loop write (suc fuel) call buf from)
  unfolding write_loop
  sends fuel call from n e b rest = elim (Bool-cases (from + suc n == length buf)) [
    | inl last ↦
        rw (e, write_loop, last) (whole from (suc n) ((==_iff (from + suc n) (length buf)).0 last))
    | inr more ↦
        let below : ltb (length buf) (from + suc n) ≡ false = ground arith in
        rw (e, write_loop, more, below) (adds from (suc n) _ (rest (ground arith)))
  ]

  fails :
      (fuel call from : ℕ) (x : Error)
      → write call (drop from buf) ≡ failed x
      → from ≤ length buf
      → Written write buf from (write_loop write (suc fuel) call buf from)
  unfolding write_loop take
  fails fuel call from x e b = elim (Bool-cases (may_retry x)) [
    | inl r ↦ rw (e, write_loop, r) (stops from b (blocked call x e r))
    | inr r ↦
        let same : from ≡ from + 0 = omega arith in
        rw (e, write_loop, r)
          (record {
            sent = 0;
            bound = omega arith;
            taken = refl;
            result = inr (refl, (call, x, rw (← same) e, r));
          })
  ]

  write_loop-Written :
      TakesOffered write
      → (fuel call from : ℕ) → from ≤ length buf
      → length buf < from + fuel
      → Written write buf from (write_loop write fuel call buf from)
  unfolding write_loop
  write_loop-Written offered zero call from b f = absurd (omega arith)
  write_loop-Written offered (suc fuel) call from b f =
      elim (Result-cases (write call (drop from buf))) [
        | inl e ↦ rw (e, write_loop) (stops from b (closed call e))
        | inr (inl (n, e)) ↦
            let fits = offered call (suc n) (drop from buf) e in
            let bound : from + suc n ≤ length buf = omega (arith, length-drop from buf, fits) in
            sends fuel call from n e bound
              (λ l. write_loop-Written offered fuel (call + 1) (from + suc n) bound (omega arith))
        | inr (inr (x, e)) ↦ fails fuel call from x e b
      ]

-- If the system never takes more bytes than it is offered, `WriteNonBlock` returns for a buffer of less
-- than 2^31 bytes, and the system has then taken a first part of the buffer, each byte once and in
-- order. The result is the length of that part, which is the whole buffer unless the next call took
-- nothing or asked to come again; or it is -2, after a call behind that part with any other error.
pub write_non_block-Written :
    (write : ℕ → List ℕ → Result) (buf : List ℕ)
    → length buf < 2 ^ 31
    → TakesOffered write
    → Written write buf 0 (write_non_block write buf)
unfolding write_non_block
write_non_block-Written write buf small offered =
    write_loop-Written write buf small offered (length buf + 1) 0 0 (omega arith) (omega arith)
