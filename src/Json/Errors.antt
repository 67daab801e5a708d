-- ===== src/Json/Errors.antt =====
-- What the parser does with a text that is no value: the fragment it reports, and the loop that never ends.
use public_cpp.Base.{
  if-elim, ℕ, zero, suc, ◌+◌, ◌<◌, ◌≤◌, ◌≡◌, ◌⊎◌, inl, inr, refl, ap, ◌∙◌, true, false, none, some,
  List, ◌∷◌, if◌then◌else◌, length, ltb, drop, arith,
}
use public_cpp.Json.{
  Json, Items, Libc, Outcome, int, double, list, no_items, got, failed, thrown, overread,
  unfinished, bind, push_back,
}
use public_cpp.Json.Read.{
  starts, starts_digit, ignore_blanks, skip_comma, list_loop, readin_list, read_in_digits,
  error_handle, switch, parse_json, parse,
}
use public_cpp.Json.Words.{numbered, Consumes}
use public_cpp.Json.Ends.{Ends}
use public_cpp.Json.Progress.{parse-Ends}

-- A NULL comes with a pointer that has at least 20 characters before the terminator.
Reports : Outcome Json → Type 0
Reports (failed none) = ⊥
Reports (failed (some text)) = 20 ≤ length text
Reports _ = Unit

error_handle-Reports : (o : Outcome Json) → Reports (error_handle o)
unfolding error_handle Reports
error_handle-Reports (got v rest) = tt
error_handle-Reports (failed none) = tt
error_handle-Reports (failed (some text)) =
    if-elim Reports (ltb (length text) 20) (λ _. tt) (λ h. long (length text) h)
  where
    long : (n : ℕ) → ltb n 20 ≡ false → 20 ≤ n
    long n h = ground arith
error_handle-Reports thrown = tt
error_handle-Reports overread = tt
error_handle-Reports unfinished = tt

parse_json-Reports : (libc : Libc) (fuel : ℕ) (text : List ℕ) → Reports (parse_json libc fuel text)
unfolding parse_json Reports
parse_json-Reports libc zero text = tt
parse_json-Reports libc (suc fuel) text =
    error_handle-Reports (switch libc (parse_json libc fuel) fuel (ignore_blanks text))

-- A value, an exception, or a read behind the terminator.
abbrev pub Answered : Outcome Json → Type 0
Answered o = ((v : Json) × (rest : List ℕ) × (o ≡ got v rest)) ⊎ (o ≡ thrown) ⊎ (o ≡ overread)

short-Answered : (n : ℕ) (o : Outcome Json) → n < 20 → Ends n o → Reports o → Answered o
unfolding Ends Reports
short-Answered n (got v rest) few ends reports = inl (v, rest, refl)
short-Answered n (failed none) few ends reports = absurd reports
short-Answered n (failed (some text)) few ends reports = absurd (omega arith)
short-Answered n thrown few ends reports = inr (inl refl)
short-Answered n overread few ends reports = inr (inr refl)
short-Answered n unfinished few ends reports = absurd ends

-- Parsing a text of fewer than 20 characters, each `-` in it with a digit behind it, comes to an end, and
-- gives a value, throws, or reads behind the terminator: it is never refused with NULL.
pub parse-short :
    (libc : Libc)
    → Consumes libc
    → (text : List ℕ) → numbered text ≡ true
    → length text < 20
    → Answered (parse libc text)
unfolding parse
parse-short libc consumes text numbers few =
    short-Answered (length text) (parse libc text) few (parse-Ends libc consumes text numbers)
      (parse_json-Reports libc (length text + 1) text)

-- A `-` with no digit behind it is no number: `strtol` takes nothing.
pub record KeepsPlace (libc : Libc) : Type 0 where
  pub strtol-none :
      (text : List ℕ) → starts_digit text ≡ false → (Libc.strtol libc (45 ∷ text)).1 ≡ 45 ∷ text

-- The parser takes it for 0 or what else `strtol` returns, and stays where it is.
minus_read :
    (libc : Libc)
    → KeepsPlace libc
    → (text : List ℕ) (fuel : ℕ) → starts_digit text ≡ false
    → parse_json libc (suc fuel) (45 ∷ text)
      ≡ got (int ((Libc.strtol libc (45 ∷ text)).0)) (45 ∷ text)
unfolding parse_json error_handle switch ignore_blanks read_in_digits
minus_read libc keeps text fuel h =
    ap
      (λ after. error_handle (
        if starts 46 after
        then got (double ((Libc.strtod libc (45 ∷ text)).0)) ((Libc.strtod libc (45 ∷ text)).1)
        else got (int ((Libc.strtol libc (45 ∷ text)).0)) after))
      (KeepsPlace.strtol-none keeps text h)

-- In a list, a `-` with no digit behind it is read as a number over and over: whatever the fuel, the
-- parser does not come to an end.
pub parse_json-unfinished :
    (libc : Libc)
    → KeepsPlace libc
    → (text : List ℕ) → starts_digit text ≡ false
    → (fuel : ℕ) → parse_json libc fuel (91 ∷ 45 ∷ text) ≡ unfinished
unfolding parse_json error_handle switch ignore_blanks readin_list drop
parse_json-unfinished libc keeps text h zero = refl
parse_json-unfinished libc keeps text h (suc fuel) =
    ap (λ o. error_handle (bind o λ vs rest. got (list vs) rest)) (rounds_of fuel fuel no_items)
  where
    rounds_of :
        (fuel rounds : ℕ) (vs : Items)
        → list_loop (parse_json libc fuel) rounds vs (45 ∷ text) ≡ unfinished
    rounds_of fuel zero vs = refl
    rounds_of zero (suc rounds) vs = refl
    rounds_of (suc fuel) (suc rounds) vs =
        ap
          (λ o. bind o λ v rest.
            list_loop (parse_json libc (suc fuel)) rounds (push_back vs v)
              (skip_comma (ignore_blanks rest)))
          (minus_read libc keeps text fuel h)
        ∙ rounds_of (suc fuel) rounds _
