-- ===== src/Json/Words.antt =====
-- What the proofs about the parser say of the texts: parts of a text, and the numbers in it.
use public_cpp.Base.{
  IfSome, if-elim, ℕ, zero, suc, ◌<◌, ◌≤◌, ◌≡◌, refl, sym, ap, ◌∙◌, Bool, true, false, not, Option,
  none, some, List, [], ◌∷◌, ◌++◌, ◌==◌, ◌&&◌, ◌||◌, length, length-append, drop, ==_iff, arith,
}
use public_cpp.Json.{Libc}
use public_cpp.Json.Read.{
  starts_digit, is_digit, is_blank, raw_loop, add_char, ignore_blanks, skip_word, skip_comma,
}

-- Every `-` has a digit behind it.
abbrev pub numbered : List ℕ → Bool
numbered [] = true
numbered (c ∷ text) = (not (c == 45) || starts_digit text) && numbered text

-- A number starts here, with its digits.
abbrev pub starts_number : List ℕ → Bool
starts_number [] = false
starts_number (c ∷ text) = is_digit c || ((c == 45) && starts_digit text)

-- A number at the start of the text is read: `strtol` and `strtod` leave an end of the text that is
-- shorter than it.
pub record Consumes (libc : Libc) : Type 0 where
  pub strtol-takes :
      (text : List ℕ)
      → starts_number text ≡ true
      → (taken : List ℕ) × (text ≡ taken ++ (Libc.strtol libc text).1) × (0 < length taken)
  pub strtod-takes :
      (text : List ℕ)
      → starts_number text ≡ true
      → (taken : List ℕ) × (text ≡ taken ++ (Libc.strtod libc text).1) × (0 < length taken)

pub numbered-append : (taken text : List ℕ) → numbered (taken ++ text) ≡ true → numbered text ≡ true
numbered-append [] text h = h
numbered-append (c ∷ taken) text h = numbered-append taken text (second _ _ h)
  where
    second : (a b : Bool) → (a && b) ≡ true → b ≡ true
    second a b h = ground arith

-- A text that the parser may go on with: it has the property of the numbers and is shorter than `n`.
pub Rest : ℕ → List ℕ → Type 0
Rest n text = (numbered text ≡ true) × (length text < n)

pub Rest-numbers : (n : ℕ) (text : List ℕ) → Rest n text → numbered text ≡ true
unfolding Rest
Rest-numbers n text h = h.0

pub Rest-whole : (text : List ℕ) → numbered text ≡ true → Rest (suc (length text)) text
unfolding Rest
Rest-whole text numbers = (numbers, omega arith)

pub Rest-length : (n : ℕ) (text : List ℕ) → Rest (suc n) text → length text ≤ n
unfolding Rest
Rest-length n text h = omega (arith, h.1)

pub Rest-le : (m n : ℕ) (text : List ℕ) → m ≤ n → Rest m text → Rest n text
unfolding Rest
Rest-le m n text m≤n h = (h.0, omega (arith, h.1))

pub Rest-append :
    (n : ℕ) (taken text : List ℕ) → 0 < length taken → Rest (suc n) (taken ++ text) → Rest n text
unfolding Rest
Rest-append n taken text h rest =
    (numbered-append taken text (rest.0), omega (arith, length-append taken text, h, rest.1))

pub Rest-tail : (n c : ℕ) (text : List ℕ) → Rest (suc n) (c ∷ text) → Rest n text
Rest-tail n c text h = Rest-append n (c ∷ []) text (omega arith) h

pub Rest-weak : (n c : ℕ) (text : List ℕ) → Rest n (c ∷ text) → Rest n text
unfolding Rest
Rest-weak n c text h = (numbered-append (c ∷ []) text (h.0), omega (arith, h.1))

-- A step down from a bound, where a text is below it
pub below {ℓ} :
    {P : Type ℓ} (m : ℕ) (text : List ℕ)
    → ((k : ℕ) → m ≡ suc k → Rest (suc k) text → P)
    → Rest m text
    → P
unfolding Rest
below zero text each h = absurd (omega (arith, h.1))
below (suc k) text each h = each k refl h

pub Rest-suffix : (n : ℕ) (taken text : List ℕ) → Rest n (taken ++ text) → Rest n text
unfolding Rest
Rest-suffix n taken text rest =
    (numbered-append taken text (rest.0), omega (arith, length-append taken text, rest.1))

pub Rest-drop : (n : ℕ) (text : List ℕ) → Rest n text → Rest n (drop 1 text)
unfolding drop
Rest-drop n [] h = h
Rest-drop n (c ∷ text) h = Rest-weak n c text h

pub Rest-ignore_blanks : (n : ℕ) (text : List ℕ) → Rest n text → Rest n (ignore_blanks text)
unfolding ignore_blanks
Rest-ignore_blanks n [] h = h
Rest-ignore_blanks n (c ∷ text) h =
    if-elim (Rest n) (is_blank c) (λ _. Rest-ignore_blanks n text (Rest-weak n c text h)) (λ _. h)

pub Rest-skip_comma : (n : ℕ) (text : List ℕ) → Rest n text → Rest n (skip_comma text)
unfolding drop
Rest-skip_comma n [] h = h
Rest-skip_comma n (c ∷ text) h = if-elim (Rest n) (c == 44) (λ _. Rest-weak n c text h) (λ _. h)

-- A word that is skipped stands at the start of the text.
pub skip_word-append :
    (word text : List ℕ) → IfSome (λ rest. text ≡ word ++ rest) (skip_word word text)
unfolding skip_word
skip_word-append [] text = refl
skip_word-append (w ∷ word) [] = tt
skip_word-append (w ∷ word) (c ∷ text) =
    if-elim (IfSome λ rest. c ∷ text ≡ w ∷ word ++ rest) (w == c)
      (λ same. longer ((==_iff w c).0 same) (skip_word word text) (skip_word-append word text))
      (λ _. tt)
  where
    longer :
        w ≡ c
        → (o : Option (List ℕ)) → IfSome (λ rest. text ≡ word ++ rest) o
        → IfSome (λ rest. c ∷ text ≡ w ∷ word ++ rest) o
    longer same none h = tt
    longer same (some rest) h = ap (λ d. d ∷ text) (sym same) ∙ ap (λ t. w ∷ t) h

-- The characters up to the closing quote stand at the start of the text, the quote behind them.
pub raw_loop-append :
    (escaped : Bool) (text : List ℕ)
    → IfSome (λ found. text ≡ found.0 ++ 34 ∷ found.1) (raw_loop escaped text)
unfolding raw_loop
raw_loop-append escaped [] = tt
raw_loop-append escaped (c ∷ text) =
    if-elim (IfSome λ found. c ∷ text ≡ found.0 ++ 34 ∷ found.1) ((c == 34) && not escaped)
      (λ closes. ap (λ d. d ∷ text) (quote_of (c == 34) (not escaped) refl closes))
      (λ _. longer (raw_loop (c == 92) text) (raw_loop-append (c == 92) text))
  where
    quote_of : (a b : Bool) → (c == 34) ≡ a → (a && b) ≡ true → c ≡ 34
    quote_of true b same h = (==_iff c 34).0 same
    quote_of false b same h = absurd (grind arith)

    longer :
        (o : Option (List ℕ × List ℕ))
        → IfSome (λ found. text ≡ found.0 ++ 34 ∷ found.1) o
        → IfSome (λ found. c ∷ text ≡ found.0 ++ 34 ∷ found.1) (add_char c o)
    longer none h = tt
    longer (some found) h = ap (λ t. c ∷ t) h
