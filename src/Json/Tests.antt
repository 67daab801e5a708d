-- ===== src/Json/Tests.antt =====
-- Runs of the parser and the printer with a small C library, and the properties on them.
use public_cpp.Base.{
  if-elim, if_false, ℕ, zero, suc, ◌+◌, ◌-◌, ◌^◌, ◌<◌, ◌≡◌, ◌++◌, refl, ap, ◌∙◌, Bool, true, false,
  List, [], ◌∷◌, ◌==◌, ◌&&◌, ◌||◌, if◌then◌else◌, length, drop, arith,
}
use public_cpp.Json.{
  Json, Libc, null, bool, int, str, list, dict, no_items, item, no_fields, field, insert, got,
  thrown, overread, unfinished,
}
use public_cpp.Json.Read.{parse, parse_json, starts_digit, is_digit}
use public_cpp.Json.Dump.{dump_json}
use public_cpp.Json.Words.{Consumes, starts_number}
use public_cpp.Json.Plain.{Plain, PutsLong}
use public_cpp.Json.Ends.{Ends}
use public_cpp.Json.Progress.{parse-Ends}
use public_cpp.Json.Errors.{KeepsPlace, Answered, parse-short, parse_json-unfinished}
use public_cpp.Json.RoundTrip.{parse-dump_json}

-- A small C library: it reads the digits of a number and adds them up, and writes a number as that many
-- digits 1 and a 0.
eat : List ℕ → ℕ × List ℕ
eat [] = (0, [])
eat (c ∷ text) =
    let more = eat text in if is_digit c then (c - 48 + more.0, more.1) else (0, c ∷ text)

read_long : List ℕ → ℕ × List ℕ
read_long [] = (0, [])
read_long (c ∷ text) =
    if c == 45 then if starts_digit text then eat text else (0, c ∷ text) else eat (c ∷ text)

put : ℕ → List ℕ
put zero = 48 ∷ []
put (suc n) = 49 ∷ put n

abbrev small : Libc
small = record { strtol = read_long; strtod = read_long; put_long = put; put_double = put }

Takes : List ℕ → ℕ × List ℕ → Type 0
Takes text after = (taken : List ℕ) × (text ≡ taken ++ after.1) × (0 < length taken)

eat_part : (text : List ℕ) → (taken : List ℕ) × (text ≡ taken ++ (eat text).1)
unfolding eat
eat_part [] = ([], refl)
eat_part (c ∷ text) =
    if-elim (λ (after : ℕ × List ℕ). (taken : List ℕ) × (c ∷ text ≡ taken ++ after.1)) (is_digit c)
      (λ _. longer (eat_part text)) λ _. ([], refl)
  where
    longer :
        ((taken : List ℕ) × (text ≡ taken ++ (eat text).1))
        → (taken : List ℕ) × (c ∷ text ≡ taken ++ (eat text).1)
    longer (taken, eq) = (c ∷ taken, ap (λ t. c ∷ t) eq)

eat-Takes : (text : List ℕ) → starts_digit text ≡ true → Takes text (eat text)
unfolding eat Takes
eat-Takes [] h = absurd (grind arith)
eat-Takes (c ∷ text) h =
    if-elim (Takes (c ∷ text)) (is_digit c) (λ _. with_digit (eat_part text))
      λ no_digit. absurd (grind (arith, h, no_digit))
  where
    with_digit :
        ((taken : List ℕ) × (text ≡ taken ++ (eat text).1))
        → (taken : List ℕ) × (c ∷ text ≡ taken ++ (eat text).1) × (0 < length taken)
    with_digit (taken, eq) = (c ∷ taken, ap (λ t. c ∷ t) eq, omega arith)

read_long-Takes : (text : List ℕ) → starts_number text ≡ true → Takes text (read_long text)
unfolding read_long Takes
read_long-Takes [] h = absurd (grind arith)
read_long-Takes (c ∷ text) h =
    if-elim (Takes (c ∷ text)) (c == 45)
      (λ minus.
        if-elim (Takes (c ∷ text)) (starts_digit text)
          (λ digit. behind_minus (eat-Takes text digit))
          λ no_digit.
            absurd (
              neither (is_digit c) (c == 45) (starts_digit text) minus (no_minus minus) no_digit h))
      λ other. eat-Takes (c ∷ text) (digit_of (is_digit c) (c == 45) (starts_digit text) other h)
  where
    behind_minus : Takes text (eat text) → Takes (c ∷ text) (eat text)
    behind_minus (taken, eq, some_taken) = (c ∷ taken, ap (λ t. c ∷ t) eq, omega arith)

    no_minus : (c == 45) ≡ true → is_digit c ≡ false
    no_minus minus = ground arith

    neither : (a b d : Bool) → b ≡ true → a ≡ false → d ≡ false → (a || (b && d)) ≡ true → ⊥
    neither a b d hb ha hd h = ground arith

    digit_of : (a b d : Bool) → b ≡ false → (a || (b && d)) ≡ true → a ≡ true
    digit_of a b d hb h = ground arith

small-Consumes : Consumes small
unfolding Takes
small-Consumes = record { strtol-takes = read_long-Takes; strtod-takes = read_long-Takes }

eat-put : (n : ℕ) (rest : List ℕ) → starts_digit rest ≡ false → eat (put n ++ rest) ≡ (n, rest)
unfolding eat put
eat-put zero rest h = ap (λ (more : ℕ × List ℕ). (0 + more.0, more.1)) (stops rest h)
  where
    stops : (rest : List ℕ) → starts_digit rest ≡ false → eat rest ≡ (0, rest)
    stops [] h = refl
    stops (c ∷ rest) h = if_false _ _ _ h
eat-put (suc n) rest h =
    ap (λ (more : ℕ × List ℕ). (1 + more.0, more.1)) (eat-put n rest h)
    ∙ ap (λ k. (k, rest)) (omega arith)

small-PutsLong : PutsLong small
unfolding read_long put
small-PutsLong = record { strtol-put_long = back; put_long-starts = starts }
  where
    back :
        (n : ℕ) (rest : List ℕ)
        → n < 2 ^ 64
        → starts_digit rest ≡ false
        → read_long (put n ++ rest) ≡ (n, rest)
    back zero rest few h = eat-put zero rest h
    back (suc n) rest few h = eat-put (suc n) rest h

    starts : (n : ℕ) → n < 2 ^ 64 → starts_number (put n) ≡ true
    starts zero few = refl
    starts (suc n) few = refl

small-KeepsPlace : KeepsPlace small
unfolding read_long
small-KeepsPlace = record {
  strtol-none = λ text h. ap (λ (after : ℕ × List ℕ). after.1) (if_false _ _ _ h);
}

-- `{"a":[3,null,"x"]}`
abbrev sample : Json
sample =
    dict
      (field (97 ∷ []) (list (item (int 3) (item null (item (str (120 ∷ [])) no_items)))) no_fields)

parse-dump_json_example : parse small (dump_json small sample) ≡ got sample []
unfolding Plain insert
parse-dump_json_example =
    parse-dump_json small small-PutsLong sample
      (refl, refl, refl, (omega arith, (tt, (refl, tt))), tt)

-- `[1,-2]`
abbrev two_numbers : List ℕ
two_numbers = 91 ∷ 49 ∷ 44 ∷ 45 ∷ 50 ∷ 93 ∷ []

parse-Ends_example : Ends 6 (parse small two_numbers)
parse-Ends_example = parse-Ends small small-Consumes two_numbers refl

-- `nul`
parse-short_example : Answered (parse small (110 ∷ 117 ∷ 108 ∷ []))
parse-short_example = parse-short small small-Consumes (110 ∷ 117 ∷ 108 ∷ []) refl (omega arith)

-- `[-]`
parse_json-unfinished_example : parse_json small 7 (91 ∷ 45 ∷ 93 ∷ []) ≡ unfinished
parse_json-unfinished_example = parse_json-unfinished small small-KeepsPlace (93 ∷ []) refl 7

two_numbers_run : parse small two_numbers ≡ got (list (item (int 1) (item (int 2) no_items))) []
unfolding parse eat drop read_long
two_numbers_run = refl

short_fragment_run : parse small (110 ∷ 117 ∷ 108 ∷ []) ≡ thrown
unfolding parse
short_fragment_run = refl

-- `[1`
unclosed_list_run : parse small (91 ∷ 49 ∷ []) ≡ overread
unfolding parse eat drop read_long
unclosed_list_run = refl

-- `[1 2]`: no comma is needed.
no_comma_run :
    parse small (91 ∷ 49 ∷ 32 ∷ 50 ∷ 93 ∷ []) ≡ got (list (item (int 1) (item (int 2) no_items))) []
unfolding parse eat drop read_long
no_comma_run = refl

-- A Boolean is printed as a digit and comes back as a number.
bool_run : parse small (dump_json small (bool true)) ≡ got (int 1) []
unfolding parse dump_json eat read_long
bool_run = refl
