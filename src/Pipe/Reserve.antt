-- ===== src/Pipe/Reserve.antt =====
-- `ReserveSpaceForSend_` gives out room inside the pipe that nobody else has.
use public_cpp.Base.{
  if-elim, ℕ, ◌+◌, ◌^◌, ◌≤◌, ◌<◌, ◌≡◌, ◌≢◌, refl, sym, ap, subst, Bool, true, false, Option, none,
  some, ◌==◌, ◌&&◌, ◌||◌, if◌then◌else◌, ltb, leb, leb→le, ltb→lt, ==_iff, arith,
}
use public_cpp.Pipe.{
  Pipe, end_of_pipe, to_ptr, Space, cas_to, reserve_space_for_send, reserved,
  decode_sender_pace_ptr, encode_sender_pace, next_version, decode_sender_pace_version,
}
use public_cpp.Pipe.Pace.{encode_sender_pace-ptr}

-- The pointers stand in the pipe, and addresses have 48 bits.
pub record Bounded (p : Pipe) : Type 0 where
  pub addresses : end_of_pipe p < 2 ^ 48
  pub receiver-from : p.pipe ≤ p.receiver
  pub receiver-to : p.receiver ≤ end_of_pipe p
  pub to-from : p.pipe ≤ to_ptr p
  pub to-to : to_ptr p ≤ end_of_pipe p

-- The addresses from the receiver up to `to`, over the end of the pipe where `to` is before the receiver
abbrev pub used : ℕ → ℕ → ℕ → ℕ → ℕ → Bool
used start stop receiver to a =
    if leb receiver to
    then leb receiver a && ltb a to
    else (leb receiver a && ltb a stop) || (leb start a && ltb a to)

-- The numbers of a reservation: a message of `need` bytes at `at`, after which the senders stand at `to_after`
pub record Fits (start stop receiver to need at to_after : ℕ) : Type 0 where
  pub inside : (start ≤ at) × (at + need ≤ stop)
  pub ends : to_after ≡ at + need
  pub free : (a : ℕ) → at ≤ a → a < at + need → used start stop receiver to a ≡ false
  pub taken : (a : ℕ) → at ≤ a → a < at + need → used start stop receiver to_after a ≡ true
  pub kept :
      (a : ℕ) → used start stop receiver to a ≡ true → used start stop receiver to_after a ≡ true
  pub apart : 0 < need → to_after ≢ receiver

-- The three ways to find room
behind :
    (start stop receiver to need : ℕ)
    → start ≤ receiver
    → receiver ≤ to
    → to + need ≤ stop
    → Fits start stop receiver to need to (to + need)
behind start stop receiver to need h₁ h₂ h₃ = record {
  inside = (omega arith, omega arith);
  ends = refl;
  free = λ a lo hi. ground arith;
  taken = λ a lo hi. ground arith;
  kept = λ a h. ground arith;
  apart = λ some_need same. omega arith;
}

rewound :
    (start stop receiver to need : ℕ)
    → receiver ≤ to
    → to ≤ stop
    → start + need < receiver
    → Fits start stop receiver to need start (start + need)
rewound start stop receiver to need h₁ h₂ h₃ = record {
  inside = (omega arith, omega arith);
  ends = refl;
  free = λ a lo hi. ground arith;
  taken = λ a lo hi. ground arith;
  kept = λ a h. ground arith;
  apart = λ some_need same. omega arith;
}

between :
    (start stop receiver to need : ℕ)
    → start ≤ to
    → receiver ≤ stop
    → to + need < receiver
    → Fits start stop receiver to need to (to + need)
between start stop receiver to need h₁ h₂ h₃ = record {
  inside = (omega arith, omega arith);
  ends = refl;
  free = λ a lo hi. ground arith;
  taken = λ a lo hi. ground arith;
  kept = λ a h. ground arith;
  apart = λ some_need same. omega arith;
}

-- The room found, and nothing but `to` changed; or nothing changed at all
pub Reserved : Pipe → ℕ → Option Space × Pipe → Type 0
Reserved p size (none, q) = q ≡ p
Reserved p size (some (at, rewind), q) =
    Fits p.pipe (end_of_pipe p) p.receiver (to_ptr p) (p.msg_offset + size) at (to_ptr q)
    × (q ≡ record p { sender_to = q.sender_to })
    × Bounded q

-- A CAS to an address in the pipe where the message fits
cas_to-Reserved :
    (p : Pipe) (seen ptr at size : ℕ) (new_version : Bool) (rewind : Option ℕ)
    → Bounded p
    → (p.sender_to ≡ seen
        → Fits p.pipe (end_of_pipe p) p.receiver (to_ptr p) (p.msg_offset + size) at ptr)
    → Reserved p size (reserved (cas_to p seen ptr new_version) (at, rewind))
unfolding Reserved cas_to
cas_to-Reserved p seen ptr at size new_version rewind bounded fits =
    if-elim (λ swapped. Reserved p size (reserved swapped (at, rewind))) (p.sender_to == seen)
      (λ same. moved_to (fits ((==_iff p.sender_to seen).0 same))) λ _. refl
  where
    pace : ℕ
    pace = encode_sender_pace ptr (next_version new_version (decode_sender_pace_version seen))

    moved_to :
        Fits p.pipe (end_of_pipe p) p.receiver (to_ptr p) (p.msg_offset + size) at ptr
        → Reserved p size (some (at, rewind), record p { sender_to = pace })
    moved_to fits = (
      subst (Fits p.pipe (end_of_pipe p) p.receiver (to_ptr p) (p.msg_offset + size) at)
          (sym at_ptr) fits,
      refl,
      record {
        addresses = Bounded.addresses bounded;
        receiver-from = Bounded.receiver-from bounded;
        receiver-to = Bounded.receiver-to bounded;
        to-from = omega (arith, at_ptr, Fits.ends fits, Fits.inside fits);
        to-to = omega (arith, at_ptr, Fits.ends fits, Fits.inside fits);
      },
    )
      where
        at_ptr : decode_sender_pace_ptr pace ≡ ptr
        at_ptr =
            encode_sender_pace-ptr ptr _
              (omega (arith, Fits.ends fits, Fits.inside fits, Bounded.addresses bounded))

-- In a pipe whose pointers stand in it, whatever pace the sender saw, and with the receiver as it stands,
-- `ReserveSpaceForSend_` gives it room for the message that is in the pipe and that nothing from the
-- receiver on has; all that was in use and this room are in use from then on, `to` does not come to the
-- receiver, and nothing but the pace of the senders moves. Or it changes nothing.
pub reserve_space_for_send-Reserved :
    (p : Pipe) (seen size : ℕ)
    → Bounded p
    → Reserved p size (reserve_space_for_send seen p.receiver p size)
unfolding reserve_space_for_send Reserved
reserve_space_for_send-Reserved p seen size bounded =
    if-elim P (ltb p.max_size_content size) (λ _. refl)
      λ _.
        if-elim P (leb p.receiver (decode_sender_pace_ptr seen))
          (λ before.
            if-elim P (leb (decode_sender_pace_ptr seen + need) (end_of_pipe p))
              (λ room. cas_to-Reserved p seen _ _ size false none bounded (
                here _ _ λ to_from to_to.
                  behind p.pipe (end_of_pipe p) p.receiver ptr need (Bounded.receiver-from bounded)
                    (leb→le _ _ before) (leb→le _ _ room)))
              λ _.
                if-elim P (ltb (p.pipe + need) p.receiver)
                  (λ room. cas_to-Reserved p seen _ _ size true _ bounded (
                    here _ _ λ to_from to_to.
                      rewound p.pipe (end_of_pipe p) p.receiver ptr need (leb→le _ _ before) to_to
                        (ltb→lt _ _ room)))
                  λ _. refl)
          λ _.
            if-elim P (ltb (decode_sender_pace_ptr seen + need) p.receiver)
              (λ room. cas_to-Reserved p seen _ _ size false none bounded (
                here _ _ λ to_from to_to.
                  between p.pipe (end_of_pipe p) p.receiver ptr need to_from
                    (Bounded.receiver-to bounded) (ltb→lt _ _ room)))
              λ _. refl
  where
    need : ℕ
    need = p.msg_offset + size

    P : Option Space × Pipe → Type 0
    P = Reserved p size

    ptr : ℕ
    ptr = decode_sender_pace_ptr seen

    here :
        (at to_after : ℕ)
        → (p.pipe ≤ ptr
            → ptr ≤ end_of_pipe p
            → Fits p.pipe (end_of_pipe p) p.receiver ptr need at to_after)
        → p.sender_to ≡ seen
        → Fits p.pipe (end_of_pipe p) p.receiver (to_ptr p) need at to_after
    here at to_after fits same =
        subst
          (λ pace.
            Fits p.pipe (end_of_pipe p) p.receiver (decode_sender_pace_ptr pace) need at to_after)
          (sym same)
          (fits (omega (arith, ap decode_sender_pace_ptr same, Bounded.to-from bounded))
            (omega (arith, ap decode_sender_pace_ptr same, Bounded.to-to bounded)))
