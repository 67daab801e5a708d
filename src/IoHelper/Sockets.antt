-- ===== src/IoHelper/Sockets.antt =====
-- `CreateSocket`, `Listen` and `Accept` of details/io_helper.cpp, with the descriptors that are open.
use public_cpp.Base.{
  ℕ, zero, suc, ◌+◌, ◌<◌, ◌≡◌, ◌≢◌, ◌⊎◌, inl, inr, refl, ap, Bool, true, false, not, ◌&&◌, List, [],
  ◌∷◌, arith, ◌==◌, if◌then◌else◌, Bool-cases,
}
use public_cpp.IoHelper.{Error, Result, done, failed, again, interrupted, other}

-- The system calls on descriptors. `socket` gets the open descriptors, `accept` the number of the call
-- too; a Boolean says that a call returned 0.
pub record Calls : Type 0 where
  pub socket : List ℕ → Result
  pub accept : ℕ → List ℕ → Result
  pub get_flags : ℕ → Result
  pub set_flags : ℕ → ℕ → Result
  pub with_non_block : ℕ → ℕ
  pub set_reuse : ℕ → Bool
  pub bind : ℕ → Bool
  pub listen_on : ℕ → Bool

-- What a function returns: a descriptor, or the negative of a number.
pub data Fd : Type 0 where
  fd : ℕ → Fd
  error : ℕ → Fd
  unfinished : Fd

-- `close`
pub close_fd : ℕ → List ℕ → List ℕ
close_fd x [] = []
close_fd x (y ∷ ys) = if x == y then ys else y ∷ close_fd x ys

module _ (sys : Calls) where
  pub set_non_block : ℕ → Bool
  set_non_block x = elim (sys.get_flags x) [
    | failed e ↦ false
    | done flags ↦ elim (sys.set_flags x (sys.with_non_block flags)) [
      | failed e ↦ false
      | done n ↦ true
    ]
  ]

  -- `CreateSocket` behind the call of `socket`
  pub set_up_socket : Bool → ℕ → Fd
  unfolding set_non_block
  set_up_socket is_non_block x =
      if is_non_block && not (set_non_block x)
      then error 2
      else if not (sys.set_reuse x)
      then error 3
      else fd x

  pub created : Bool → List ℕ → Result → Fd × List ℕ
  unfolding set_up_socket
  created is_non_block opened (failed e) = (error 1, opened)
  created is_non_block opened (done zero) = (error 1, 0 ∷ opened)
  created is_non_block opened (done (suc n)) = (set_up_socket is_non_block (suc n), suc n ∷ opened)

  pub create_socket : Bool → List ℕ → Fd × List ℕ
  unfolding created
  create_socket is_non_block opened = created is_non_block opened (sys.socket opened)

  -- `Listen` behind the call of `CreateSocket`
  pub listen_socket : ℕ → List ℕ → Fd × List ℕ
  unfolding close_fd
  listen_socket x opened =
      if not (sys.bind x)
      then (error 2, close_fd x opened)
      else if not (sys.listen_on x)
      then (error 3, close_fd x opened)
      else (fd x, opened)

  pub listen_made : Fd × List ℕ → Fd × List ℕ
  unfolding listen_socket
  listen_made (fd x, opened) = listen_socket x opened
  listen_made (error n, opened) = (error 1, opened)
  listen_made (unfinished, opened) = (unfinished, opened)

  pub listen : List ℕ → Fd × List ℕ
  unfolding create_socket listen_made
  listen opened = listen_made (create_socket true opened)

  -- `Accept` behind its loop
  pub set_up_accepted : ℕ → Fd
  unfolding set_non_block
  set_up_accepted x = if not (set_non_block x) then error 2 else fd x

  -- `Accept`, whose loop goes on while its call is interrupted. The address is left out.
  pub accept_loop : ℕ → ℕ → List ℕ → Fd × List ℕ
  unfolding set_up_accepted
  accept_loop zero call opened = (unfinished, opened)
  accept_loop (suc rounds) call opened = elim (sys.accept call opened) [
    | done x ↦ (set_up_accepted x, x ∷ opened)
    | failed interrupted ↦ accept_loop rounds (call + 1) opened
    | failed again ↦ (error 1, opened)
    | failed other ↦ (error 1, opened)
  ]

  -- What `Listen` returns and leaves open
  pub data Listening (opened : List ℕ) : Fd × List ℕ → Type 0 where
    listens :
        (x : ℕ)
        → sys.socket opened ≡ done (suc x)
        → sys.bind (suc x) ≡ true
        → sys.listen_on (suc x) ≡ true
        → Listening opened (fd (suc x), suc x ∷ opened)
    closed : (n : ℕ) → (n ≡ 2) ⊎ (n ≡ 3) → Listening opened (error n, opened)
    no_socket : (e : Error) → sys.socket opened ≡ failed e → Listening opened (error 1, opened)
    left_open : (x : ℕ) → sys.socket opened ≡ done x → Listening opened (error 1, x ∷ opened)

  close_fd-first : (x : ℕ) (opened : List ℕ) → close_fd x (x ∷ opened) ≡ opened
  unfolding close_fd
  close_fd-first x opened = ground arith

  listen_socket-Listening :
      (x : ℕ) (opened : List ℕ)
      → sys.socket opened ≡ done (suc x)
      → Listening opened (listen_socket (suc x) (suc x ∷ opened))
  unfolding listen_socket
  listen_socket-Listening x opened e =
      let back = close_fd-first (suc x) opened in
      elim (Bool-cases (sys.bind (suc x))) [
        | inr b ↦ rw (b, back) (closed 2 (inl refl))
        | inl b ↦ elim (Bool-cases (sys.listen_on (suc x))) [
          | inr l ↦ rw (b, l, back) (closed 3 (inr refl))
          | inl l ↦ rw (b, l) (listens x e b l)
        ]
      ]

  listen-created :
      (opened : List ℕ) (r : Result)
      → sys.socket opened ≡ r
      → listen opened ≡ listen_made (created true opened r)
  unfolding listen create_socket
  listen-created opened r e = ap (λ r. listen_made (created true opened r)) e

  set_up_socket-cases :
      (x : ℕ) → (set_up_socket true x ≡ fd x) ⊎ ((n : ℕ) × (set_up_socket true x ≡ error n))
  unfolding set_up_socket
  set_up_socket-cases x = elim (Bool-cases (set_non_block x)) [
    | inr a ↦ rw a (inr (2, refl))
    | inl a ↦ elim (Bool-cases (sys.set_reuse x)) [
      | inr b ↦ rw (a, b) (inr (3, refl))
      | inl b ↦ rw (a, b) (inl refl)
    ]
  ]

  -- `Listen` gives a bound and listening socket, which is then open besides the descriptors that were.
  -- After -2 and -3 the open descriptors are those that were. After -1 they are too if `socket`
  -- failed; if it gave a descriptor, that is left open.
  pub listen-Listening : (opened : List ℕ) → Listening opened (listen opened)
  unfolding listen_made created
  listen-Listening opened = elim (socket-cases (sys.socket opened)) [
    | inl (e, f) ↦ rw (listen-created opened (failed e) f) (no_socket e f)
    | inr (inl z) ↦ rw (listen-created opened (done 0) z) (left_open 0 z)
    | inr (inr (x, s)) ↦
        rw (listen-created opened (done (suc x)) s) (elim (set_up_socket-cases (suc x)) [
          | inl u ↦ rw u (listen_socket-Listening x opened s)
          | inr (n, u) ↦ rw u (left_open (suc x) s)
        ])
  ]
    where
      socket-cases :
          (r : Result)
          → ((e : Error) × (r ≡ failed e)) ⊎ (r ≡ done 0) ⊎ ((x : ℕ) × (r ≡ done (suc x)))
      socket-cases (failed e) = inl (e, refl)
      socket-cases (done zero) = inr (inl refl)
      socket-cases (done (suc x)) = inr (inr (x, refl))

  accept_loop-on :
      (rounds call stop : ℕ) (opened : List ℕ)
      → call + rounds ≡ stop
      → ((k : ℕ) → k < stop → sys.accept k opened ≡ failed interrupted)
      → accept_loop (suc rounds) call opened ≡ accept_loop 1 stop opened
  unfolding accept_loop
  accept_loop-on zero call stop opened e before =
      let same : call ≡ stop = omega arith in ap (λ c. accept_loop 1 c opened) same
  accept_loop-on (suc rounds) call stop opened e before =
      rw (before call (omega arith), accept_loop)
        (accept_loop-on rounds (call + 1) stop opened (omega arith) before)

  -- If the calls of `accept` before the call `stop` are interrupted and that call is not, `Accept`
  -- returns after it: with the new descriptor, now open, if it could be set; with -2, and the
  -- descriptor left open, if not; with -1, and nothing opened, if the call failed.
  pub accept_loop-returns :
      (stop : ℕ) (opened : List ℕ)
      → ((k : ℕ) → k < stop → sys.accept k opened ≡ failed interrupted)
      → sys.accept stop opened ≢ failed interrupted
      → ((x : ℕ) × (sys.accept stop opened ≡ done x)
          × (accept_loop (suc stop) 0 opened
              ≡ ((if set_non_block x then fd x else error 2), x ∷ opened)))
        ⊎ ((e : Error) × (sys.accept stop opened ≡ failed e)
            × (accept_loop (suc stop) 0 opened ≡ (error 1, opened)))
  unfolding accept_loop set_up_accepted
  accept_loop-returns stop opened before last =
      rw (accept_loop-on stop 0 stop opened (omega arith) before)
        (by_result (sys.accept stop opened) refl)
    where
      set : (x : ℕ) → set_up_accepted x ≡ (if set_non_block x then fd x else error 2)
      set x = elim (Bool-cases (set_non_block x)) [ inl a ↦ rw a refl | inr a ↦ rw a refl ]

      by_result :
          (r : Result)
          → sys.accept stop opened ≡ r
          → ((x : ℕ) × (sys.accept stop opened ≡ done x)
              × (accept_loop 1 stop opened
                  ≡ ((if set_non_block x then fd x else error 2), x ∷ opened)))
            ⊎ ((e : Error) × (sys.accept stop opened ≡ failed e)
                × (accept_loop 1 stop opened ≡ (error 1, opened)))
      by_result (done x) e = inl (x, e, rw (e, accept_loop) (ap (λ r. (r, x ∷ opened)) (set x)))
      by_result (failed interrupted) e = absurd (last e)
      by_result (failed again) e = inr (again, e, rw (e, accept_loop) refl)
      by_result (failed other) e = inr (other, e, rw (e, accept_loop) refl)
