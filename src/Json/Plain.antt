-- ===== src/Json/Plain.antt =====
-- The values that the printed text describes: which strings may stand between quotes, and the values
-- that have no Boolean and no `double` in them.
use public_cpp.Base.{
  if_false, ℕ, ◌^◌, ◌<◌, ◌≡◌, ◌++◌, refl, ap, ◌∙◌, Bool, true, false, not, some, List, [], ◌∷◌,
  ◌==◌, ◌&&◌, ◌||◌, ltb, arith,
}
use public_cpp.Json.{
  Json, Items, Fields, Libc, null, bool, int, double, str, list, dict, no_items, item, no_fields,
  field, has_key, insert,
}
use public_cpp.Json.Read.{starts, at_end, starts_digit, is_digit, is_blank, raw_loop, add_char}
use public_cpp.Json.Words.{starts_number}

-- No quote without a backslash before it, no backslash at the end, and no terminator
abbrev pub quotable : Bool → List ℕ → Bool
quotable escaped [] = not escaped
quotable escaped (c ∷ chars) =
    (not ((c == 34) && not escaped) && not (c == 0)) && quotable (c == 92) chars

-- The keys of a dict are quotable, not empty and none of them twice; `seen` are the pairs before.
unfoldable mutual
  pub Plain : Json → Type 0
  Plain null = Unit
  Plain (bool b) = ⊥
  Plain (int n) = n < 2 ^ 64
  Plain (double d) = ⊥
  Plain (str chars) = quotable false chars ≡ true
  Plain (list vs) = PlainItems vs
  Plain (dict fs) = PlainFields no_fields fs

  pub PlainItems : Items → Type 0
  PlainItems no_items = Unit
  PlainItems (item v vs) = Plain v × PlainItems vs

  pub PlainFields : Fields → Fields → Type 0
  PlainFields seen no_fields = Unit
  PlainFields seen (field key v fs) =
      (quotable false key ≡ true)
      × (at_end key ≡ false)
      × (has_key key seen ≡ false)
      × Plain v
      × PlainFields (insert seen key v) fs

-- A text that a value may stand before
abbrev pub delimited : List ℕ → Bool
delimited [] = true
delimited (c ∷ text) = (c == 44) || ((c == 93) || (c == 125))

-- `strtol` reads back what `<<` writes of a `long`, up to the next character that is no digit.
pub record PutsLong (libc : Libc) : Type 0 where
  pub strtol-put_long :
      (n : ℕ) (rest : List ℕ)
      → n < 2 ^ 64
      → starts_digit rest ≡ false
      → Libc.strtol libc (Libc.put_long libc n ++ rest) ≡ (n, rest)
  pub put_long-starts : (n : ℕ) → n < 2 ^ 64 → starts_number (Libc.put_long libc n) ≡ true

-- A first character that is neither blank nor a comma nor a closing bracket
abbrev pub solid : ℕ → Bool
solid c = not (is_blank c) && (not (c == 44) && (not (c == 93) && not (c == 125)))

unfoldable pub Solid : List ℕ → Type 0
Solid text = (c : ℕ) × (rest : List ℕ) × (text ≡ c ∷ rest) × (solid c ≡ true)

pub number-solid : (c : ℕ) (d : Bool) → (is_digit c || ((c == 45) && d)) ≡ true → solid c ≡ true
number-solid c d h = ground arith

pub number-other :
    (c k : ℕ) (d : Bool)
    → (is_digit c || ((c == 45) && d)) ≡ true
    → ((k == 34) || ltb 57 k) ≡ true
    → (c == k) ≡ false
number-other c k d h other = ground arith

pub delimited-starts_digit : (text : List ℕ) → delimited text ≡ true → starts_digit text ≡ false
delimited-starts_digit [] h = refl
delimited-starts_digit (c ∷ text) h = ground arith

pub delimited-starts : (text : List ℕ) → delimited text ≡ true → starts 46 text ≡ false
delimited-starts [] h = refl
delimited-starts (c ∷ text) h = ground arith

pub starts_number-append :
    (text rest : List ℕ) → starts_number text ≡ true → starts_number (text ++ rest) ≡ true
starts_number-append [] rest h = absurd (grind arith)
starts_number-append (c ∷ []) rest h = ground arith
starts_number-append (c ∷ (d ∷ text)) rest h = h

-- The loop finds the quote behind a quotable string.
pub raw_loop-quotable :
    (escaped : Bool) (chars rest : List ℕ)
    → quotable escaped chars ≡ true
    → raw_loop escaped (chars ++ 34 ∷ rest) ≡ some (chars, rest)
unfolding raw_loop
raw_loop-quotable true [] rest h = absurd (grind arith)
raw_loop-quotable false [] rest h = refl
raw_loop-quotable escaped (c ∷ chars) rest h =
    if_false _ _ _ (parts.0) ∙ ap (add_char c) (raw_loop-quotable (c == 92) chars rest (parts.1))
  where
    split : (a b r : Bool) → ((not a && not b) && r) ≡ true → (a ≡ false) × (r ≡ true)
    split a b r h = (ground arith, ground arith)

    parts : (((c == 34) && not escaped) ≡ false) × (quotable (c == 92) chars ≡ true)
    parts = split ((c == 34) && not escaped) (c == 0) (quotable (c == 92) chars) h
