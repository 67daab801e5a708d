-- ===== src/Json/Ends.antt =====
-- What it means that a reader comes to an end, and the readers of words, strings and the colon.
use public_cpp.Base.{
  IfSome, if-elim, ℕ, suc, ◌<◌, ◌≤◌, ◌≡◌, subst, true, false, Option, none, some, List, [], ◌∷◌,
  ◌++◌, length, drop, arith,
}
use public_cpp.Json.{Json, Outcome, Reader, got, failed, thrown, overread, unfinished, bind}
use public_cpp.Json.Read.{
  starts, at_end, skip_word, raw_loop, readin_str_raw, readin_str, skip_colon,
}
use public_cpp.Json.Words.{
  Rest, Rest-length, Rest-drop, Rest-le, Rest-append, Rest-tail, Rest-weak, Rest-suffix,
  skip_word-append, raw_loop-append,
}

-- The outcome is not `unfinished`, what a value leaves is shorter than `n`, and a pointer that comes with
-- NULL is behind the terminator or has at most `n` characters before it.
unfoldable pub Ends {ℓ} : {A : Type ℓ} → ℕ → Outcome A → Type 0
Ends n (got a rest) = Rest n rest
Ends n (failed none) = Unit
Ends n (failed (some text)) = length text ≤ n
Ends n thrown = Unit
Ends n overread = Unit
Ends n unfinished = ⊥

pub Ends-bind {ℓ κ} :
    {A : Type ℓ} {B : Type κ} (m n : ℕ) (o : Outcome A) (next : A → List ℕ → Outcome B)
    → m ≤ n
    → Ends m o
    → ((a : A) (rest : List ℕ) → Rest m rest → Ends n (next a rest))
    → Ends n (bind o next)
unfolding Ends
Ends-bind m n (got a rest) next m≤n h each = each a rest h
Ends-bind m n (failed none) next m≤n h each = tt
Ends-bind m n (failed (some text)) next m≤n h each = omega arith
Ends-bind m n thrown next m≤n h each = tt
Ends-bind m n overread next m≤n h each = tt
Ends-bind m n unfinished next m≤n h each = h

-- A reader that ends on the texts shorter than `n` and leaves less than it was given
abbrev pub Steps {ℓ} : {A : Type ℓ} → ℕ → Reader A → Type 0
Steps n read = (m : ℕ) (text : List ℕ) → m < n → Rest (suc m) text → Ends m (read text)

pub word-Steps :
    (n : ℕ) (word : List ℕ) (v : Json)
    → 0 < length word
    → Steps n
        λ text. elim (skip_word word text) [ none ↦ failed (some text) | some rest ↦ got v rest ]
unfolding Ends
word-Steps n word v some_word m text m<n h =
    by_skip (skip_word word text) (skip_word-append word text)
  where
    by_skip :
        (o : Option (List ℕ))
        → IfSome (λ rest. text ≡ word ++ rest) o
        → Ends m
            (elim o as (λ _. Outcome Json) [ none ↦ failed (some text) | some rest ↦ got v rest ])
    by_skip none eq = Rest-length m text h
    by_skip (some rest) eq = Rest-append m word rest some_word (subst (Rest (suc m)) eq h)

pub Ends-le {ℓ} : {A : Type ℓ} (m n : ℕ) (o : Outcome A) → m ≤ n → Ends m o → Ends n o
unfolding Ends
Ends-le m n (got a rest) m≤n h = Rest-le m n rest m≤n h
Ends-le m n (failed none) m≤n h = tt
Ends-le m n (failed (some text)) m≤n h = omega arith
Ends-le m n thrown m≤n h = tt
Ends-le m n overread m≤n h = tt
Ends-le m n unfinished m≤n h = elim h [ ]

pub Rest-starts :
    (m c : ℕ) (text : List ℕ) → starts c text ≡ true → Rest (suc m) text → Rest m (drop 1 text)
unfolding drop
Rest-starts m c [] h rest = absurd (grind arith)
Rest-starts m c (d ∷ text) h rest = Rest-tail m d text rest

pub readin_str_raw-Steps : (n : ℕ) → Steps n readin_str_raw
unfolding readin_str_raw Ends
readin_str_raw-Steps n m text m<n h =
    if-elim (Ends m) (starts 34 text)
      (λ quote.
        by_loop (raw_loop false (drop 1 text)) (raw_loop-append false (drop 1 text))
          (Rest-starts m 34 text quote h))
      (λ _. Rest-length m text h)
  where
    by_loop :
        (o : Option (List ℕ × List ℕ))
        → IfSome (λ found. drop 1 text ≡ found.0 ++ 34 ∷ found.1) o
        → Rest m (drop 1 text)
        → Ends m (elim o as (λ _. Outcome (List ℕ)) [
          | none ↦ failed (some [])
          | some found ↦ got found.0 found.1
        ])
    by_loop none eq rest = omega arith
    by_loop (some found) eq rest =
        Rest-weak m 34 (found.1) (Rest-suffix m (found.0) (34 ∷ found.1) (subst (Rest m) eq rest))

pub readin_str-Steps : (n : ℕ) → Steps n readin_str
unfolding readin_str Ends
readin_str-Steps n m text m<n h =
    Ends-bind m m (readin_str_raw text) _ (omega arith) (readin_str_raw-Steps n m text m<n h)
      λ chars rest left. left

pub skip_colon-Ends : (m : ℕ) (text : List ℕ) → Rest m text → Ends m (skip_colon text)
unfolding skip_colon Ends
skip_colon-Ends m text h =
    if-elim (Ends m) (starts 58 text)
      (λ colon. Rest-starts m 58 text colon (Rest-le m (suc m) text (omega arith) h))
      λ _.
        if-elim (Ends m) (at_end text) (λ _. tt)
          λ _. Rest-length m (drop 1 text) (Rest-le m (suc m) _ (omega arith) (Rest-drop m text h))
