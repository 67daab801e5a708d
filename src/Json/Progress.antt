-- ===== src/Json/Progress.antt =====
-- The parser comes to an end: with as much fuel as there are characters and one more, no call of it is
-- out of rounds, on every text in which each `-` has a digit behind it.
use public_cpp.Base.{
  if-elim, ℕ, zero, suc, ◌+◌, ◌<◌, ◌≤◌, ◌≡◌, refl, subst, Bool, true, false, not, none, some, List,
  [], ◌∷◌, ◌++◌, ◌==◌, ◌&&◌, ◌||◌, length, ltb, drop, arith,
}
use public_cpp.Json.{
  Json, Items, Fields, Libc, Outcome, Reader, null, bool, no_items, no_fields, got, failed, thrown,
  overread, unfinished, push_back, insert,
}
use public_cpp.Json.Read.{
  starts, at_end, starts_digit, is_digit, ignore_blanks, word_null, word_true, word_false,
  readin_null, readin_true, readin_false, readin_str_raw, read_in_digits, skip_comma, list_loop,
  readin_list, skip_colon, read_dict_pair, dict_loop, readin_dict, error_handle, switch, parse_json,
  parse,
}
use public_cpp.Json.Words.{
  numbered, starts_number, Consumes, Rest, Rest-numbers, Rest-whole, Rest-length, Rest-le,
  Rest-append, below, Rest-ignore_blanks, Rest-skip_comma,
}
use public_cpp.Json.Ends.{
  Ends, Ends-bind, Steps, word-Steps, Ends-le, Rest-starts, readin_str_raw-Steps, readin_str-Steps,
  skip_colon-Ends,
}

-- The two ways a list or a dict goes on behind its bracket
module _ (n : ℕ) (parse : Reader Json) (parse-Steps : Steps n parse) where
  list_loop-Ends :
      (rounds : ℕ) (vs : Items) (m : ℕ) (text : List ℕ)
      → m < n
      → m < rounds
      → Rest (suc m) text
      → Ends m (list_loop parse rounds vs text)
  unfolding list_loop Ends
  list_loop-Ends zero vs m text m<n m<rounds h = absurd (omega arith)
  list_loop-Ends (suc rounds) vs m text m<n m<rounds h =
      if-elim (Ends m) (starts 93 text) (λ closes. Rest-starts m 93 text closes h)
        λ _.
          if-elim (Ends m) (at_end text) (λ _. tt)
            λ _.
              Ends-bind m m (parse (ignore_blanks text)) _ (omega arith)
                (parse-Steps m (ignore_blanks text) m<n (Rest-ignore_blanks (suc m) text h))
                λ v rest left.
                  below m rest
                    (λ k m_is left. Ends-le k m _ (omega arith) (
                      list_loop-Ends rounds (push_back vs v) k (skip_comma (ignore_blanks rest))
                        (omega arith) (omega arith)
                        (Rest-skip_comma (suc k) (ignore_blanks rest)
                          (Rest-ignore_blanks (suc k) rest left))))
                    left

  readin_list-Ends :
      (rounds : ℕ)
      → n ≤ rounds
      → (m : ℕ) (text : List ℕ) → m < suc n
      → starts 91 text ≡ true
      → Rest (suc m) text
      → Ends m (readin_list parse rounds text)
  unfolding readin_list Ends
  readin_list-Ends rounds n≤rounds m text m<n opens h =
      if-elim (Ends m) (at_end (ignore_blanks (drop 1 text))) (λ _. omega arith)
        λ _.
          below m (ignore_blanks (drop 1 text))
            (λ k m_is inner.
              Ends-bind k m _ _ (omega arith)
                (list_loop-Ends rounds no_items k _ (omega arith) (omega arith) inner)
                λ vs rest left. Rest-le k m rest (omega arith) left)
            (Rest-ignore_blanks m (drop 1 text) (Rest-starts m 91 text opens h))

  read_dict_pair-Steps : Steps n (read_dict_pair parse)
  unfolding read_dict_pair Ends
  read_dict_pair-Steps m text m<n h =
      Ends-bind m m (readin_str_raw text) _ (omega arith) (readin_str_raw-Steps n m text m<n h)
        λ key rest left.
          if-elim (Ends m) (at_end key)
            (λ _. Rest-length m rest (Rest-le m (suc m) rest (omega arith) left))
            λ _.
              Ends-bind m m (skip_colon (ignore_blanks rest)) _ (omega arith)
                (skip_colon-Ends m (ignore_blanks rest) (Rest-ignore_blanks m rest left))
                λ _ after left.
                  Ends-bind m m (parse (ignore_blanks after)) _ (omega arith)
                    (parse-Steps m (ignore_blanks after) m<n
                      (Rest-le m (suc m) _ (omega arith) (Rest-ignore_blanks m after left)))
                    λ v rest left. left

  dict_loop-Ends :
      (rounds : ℕ) (fs : Fields) (m : ℕ) (text : List ℕ)
      → m < n
      → m < rounds
      → Rest (suc m) text
      → Ends m (dict_loop parse rounds fs text)
  unfolding dict_loop Ends
  dict_loop-Ends zero fs m text m<n m<rounds h = absurd (omega arith)
  dict_loop-Ends (suc rounds) fs m text m<n m<rounds h =
      if-elim (Ends m) (starts 125 text) (λ closes. Rest-starts m 125 text closes h)
        λ _.
          if-elim (Ends m) (at_end text) (λ _. tt)
            λ _.
              Ends-bind m m (read_dict_pair parse (ignore_blanks text)) _ (omega arith)
                (read_dict_pair-Steps m (ignore_blanks text) m<n
                  (Rest-ignore_blanks (suc m) text h))
                λ pair rest left.
                  below m rest
                    (λ k m_is left. Ends-le k m _ (omega arith) (
                      dict_loop-Ends rounds (insert fs (pair.0) (pair.1)) k
                        (skip_comma (ignore_blanks rest)) (omega arith) (omega arith)
                        (Rest-skip_comma (suc k) (ignore_blanks rest)
                          (Rest-ignore_blanks (suc k) rest left))))
                    left

  readin_dict-Ends :
      (rounds : ℕ)
      → n ≤ rounds
      → (m : ℕ) (text : List ℕ) → m < suc n
      → starts 123 text ≡ true
      → Rest (suc m) text
      → Ends m (readin_dict parse rounds text)
  unfolding readin_dict Ends
  readin_dict-Ends rounds n≤rounds m text m<n opens h =
      if-elim (Ends m) (at_end (ignore_blanks (drop 1 text))) (λ _. omega arith)
        λ _.
          below m (ignore_blanks (drop 1 text))
            (λ k m_is inner.
              Ends-bind k m _ _ (omega arith)
                (dict_loop-Ends rounds no_fields k _ (omega arith) (omega arith) inner)
                λ fs rest left. Rest-le k m rest (omega arith) left)
            (Rest-ignore_blanks m (drop 1 text) (Rest-starts m 123 text opens h))

-- A number that the parser takes for one, where each `-` has its digit
number-starts :
    (text : List ℕ)
    → (starts_digit text || starts 45 text) ≡ true
    → numbered text ≡ true
    → starts_number text ≡ true
number-starts [] h numbers = h
number-starts (c ∷ text) h numbers =
    by_tests (is_digit c) (c == 45) (starts_digit text) (numbered text) h numbers
  where
    by_tests :
        (a b d r : Bool) → (a || b) ≡ true → ((not b || d) && r) ≡ true → (a || (b && d)) ≡ true
    by_tests true b d r h numbers = refl
    by_tests false true true r h numbers = refl
    by_tests false true false r h numbers = absurd (grind arith)
    by_tests false false d r h numbers = absurd (grind arith)

module _ (libc : Libc) (consumes : Consumes libc) where
  read_in_digits-Ends :
      (m : ℕ) (text : List ℕ)
      → (starts_digit text || starts 45 text) ≡ true
      → Rest (suc m) text
      → Ends m (read_in_digits libc text)
  unfolding read_in_digits Ends
  read_in_digits-Ends m text number h =
      if-elim (Ends m) (starts 46 ((Libc.strtol libc text).1))
        (λ _. taken (Consumes.strtod-takes consumes text starts_here) h)
        (λ _. taken (Consumes.strtol-takes consumes text starts_here) h)
    where
      starts_here : starts_number text ≡ true
      starts_here = number-starts text number (Rest-numbers (suc m) text h)

      taken :
          {rest : List ℕ}
          → (taken : List ℕ) × (text ≡ taken ++ rest) × (0 < length taken)
          → Rest (suc m) text
          → Rest m rest
      taken (part, eq, some_taken) h = Rest-append m part _ some_taken (subst (Rest (suc m)) eq h)

  switch-Steps : (n : ℕ) (parse : Reader Json) → Steps n parse → Steps (suc n) (switch libc parse n)
  unfolding switch readin_null readin_true readin_false Ends
  switch-Steps n parse parse-Steps m text m<n h =
      if-elim (Ends m) (starts 110 text)
        (λ _. word-Steps (suc n) word_null null (omega arith) m text m<n h)
        λ _.
          if-elim (Ends m) (starts 116 text)
            (λ _. word-Steps (suc n) word_true (bool true) (omega arith) m text m<n h)
            λ _.
              if-elim (Ends m) (starts 102 text)
                (λ _. word-Steps (suc n) word_false (bool false) (omega arith) m text m<n h)
                λ _.
                  if-elim (Ends m) (starts 34 text) (λ _. readin_str-Steps (suc n) m text m<n h)
                    λ _.
                      if-elim (Ends m) (starts 91 text)
                        (λ opens.
                          readin_list-Ends n parse parse-Steps n (omega arith) m text m<n opens h)
                        λ _.
                          if-elim (Ends m) (starts 123 text)
                            (λ opens.
                              readin_dict-Ends n parse parse-Steps n (omega arith) m text m<n opens
                                h)
                            λ _.
                              if-elim (Ends m) (starts_digit text || starts 45 text)
                                (λ number. read_in_digits-Ends m text number h)
                                λ _. Rest-length m text h

  error_handle-Ends : (m : ℕ) (o : Outcome Json) → Ends m o → Ends m (error_handle o)
  unfolding error_handle Ends
  error_handle-Ends m (got v rest) h = h
  error_handle-Ends m (failed none) h = tt
  error_handle-Ends m (failed (some text)) h =
      if-elim (Ends m) (ltb (length text) 20) (λ _. tt) λ _. h
  error_handle-Ends m thrown h = tt
  error_handle-Ends m overread h = tt
  error_handle-Ends m unfinished h = h

  parse_json-Steps : (fuel : ℕ) → Steps fuel (parse_json libc fuel)
  unfolding parse_json
  parse_json-Steps zero m text m<n h = absurd (omega arith)
  parse_json-Steps (suc fuel) m text m<n h = error_handle-Ends m _ (
      switch-Steps fuel (parse_json libc fuel) (parse_json-Steps fuel) m (ignore_blanks text) m<n
        (Rest-ignore_blanks (suc m) text h))

-- Where each `-` of the text has a digit behind it, the fuel that `parse` gives itself is enough: the
-- outcome is never `unfinished`, a value leaves less of the text than there was, and a NULL leaves the
-- pointer behind the terminator or before no more characters than there were.
pub parse-Ends :
    (libc : Libc)
    → Consumes libc
    → (text : List ℕ) → numbered text ≡ true
    → Ends (length text) (parse libc text)
unfolding parse
parse-Ends libc consumes text numbers =
    parse_json-Steps libc consumes (length text + 1) (length text) text (omega arith)
      (Rest-whole text numbers)
