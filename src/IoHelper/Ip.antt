-- ===== src/IoHelper/Ip.antt =====
-- `IpToInt` of io_helper.h.
use public_cpp.Base.{
  ℕ, zero, suc, ◌+◌, ◌*◌, ◌%◌, ◌^◌, ◌<◌, ◌≡◌, refl, ap, ◌∙◌, List, [], ◌∷◌, ◌++◌, Bool, true, false,
  not, Option, none, some, ltb, ◌==◌, ◌&&◌, ◌||◌, if◌then◌else◌, if_false, leb, arith,
}

-- `strchr(cur, '.')` and the step behind the point
unfoldable pub after_point : List ℕ → Option (List ℕ)
after_point [] = none
after_point (c ∷ text) = let rest = after_point text in if c == 46 then some text else rest

-- The parameter is `atoi`, with `none` for a negative number. The loop has `rounds` segments to read;
-- the last one may stand at the end of the text.
module _ (atoi : List ℕ → Option ℕ) where
  unfoldable pub segments : ℕ → List ℕ → ℕ → Option ℕ
  unfolding after_point
  segments zero cur ipint = some ipint
  segments (suc rounds) cur ipint = elim (atoi cur) [
    | none ↦ none
    | some value ↦
        let total = (ipint + value * 2 ^ (rounds * 8)) % 2 ^ 32 in
        if ltb 255 value then none else elim (after_point cur) [
          | none ↦ (if rounds == 0 then some total else none)
          | some rest ↦ segments rounds rest total
        ]
  ]

  unfoldable pub ip_to_int : List ℕ → Option ℕ
  unfolding segments
  ip_to_int ipstr = segments 4 ipstr 0

-- No digit at the start
abbrev pub ends_number : List ℕ → Bool
ends_number [] = true
ends_number (c ∷ text) = not (leb 48 c && leb c 57)

abbrev pub has_point : List ℕ → Bool
has_point [] = false
has_point (c ∷ text) = (c == 46) || has_point text

-- `atoi` reads back what is written of a number up to the next character that is no digit.
pub record ReadsBack (atoi : List ℕ → Option ℕ) (put : ℕ → List ℕ) : Type 0 where
  pub atoi-put :
      (n : ℕ) (rest : List ℕ) → n < 256 → ends_number rest ≡ true → atoi (put n ++ rest) ≡ some n
  pub put-plain : (n : ℕ) → n < 256 → has_point (put n) ≡ false

after_point-append :
    (text rest : List ℕ) → has_point text ≡ false → after_point (text ++ 46 ∷ rest) ≡ some rest
unfolding after_point
after_point-append [] rest h = refl
after_point-append (c ∷ text) rest h =
    if_false (c == 46) _ _ (first _ _ h) ∙ after_point-append text rest (second _ _ h)
  where
    first : (a b : Bool) → (a || b) ≡ false → a ≡ false
    first a b h = ground arith

    second : (a b : Bool) → (a || b) ≡ false → b ≡ false
    second a b h = ground arith

after_point-none : (text : List ℕ) → has_point text ≡ false → after_point (text ++ []) ≡ none
unfolding after_point
after_point-none [] h = refl
after_point-none (c ∷ text) h =
    if_false (c == 46) _ _ (first _ _ h) ∙ after_point-none text (second _ _ h)
  where
    first : (a b : Bool) → (a || b) ≡ false → a ≡ false
    first a b h = ground arith

    second : (a b : Bool) → (a || b) ≡ false → b ≡ false
    second a b h = ground arith

module _ (atoi : List ℕ → Option ℕ) (put : ℕ → List ℕ) (reads : ReadsBack atoi put) where
  segments-point :
      (rounds n ipint : ℕ) (rest : List ℕ)
      → n < 256
      → segments atoi (suc rounds) (put n ++ 46 ∷ rest) ipint
        ≡ segments atoi rounds rest ((ipint + n * 2 ^ (rounds * 8)) % 2 ^ 32)
  unfolding segments
  segments-point rounds n ipint rest small =
      ap go (ReadsBack.atoi-put reads n (46 ∷ rest) small refl)
      ∙ if_false (ltb 255 n) _ _ (ground (arith, small))
      ∙ ap (on total) (after_point-append (put n) rest (ReadsBack.put-plain reads n small))
    where
      total : ℕ
      total = (ipint + n * 2 ^ (rounds * 8)) % 2 ^ 32

      on : ℕ → Option (List ℕ) → Option ℕ
      on total found = elim found [
        | none ↦ (if rounds == 0 then some total else none)
        | some rest ↦ segments atoi rounds rest total
      ]

      go : Option ℕ → Option ℕ
      go value = elim value [
        | none ↦ none
        | some value ↦
            if ltb 255 value
            then none
            else on ((ipint + value * 2 ^ (rounds * 8)) % 2 ^ 32) (after_point (put n ++ 46 ∷ rest))
      ]

  segments-last :
      (n ipint : ℕ)
      → n < 256
      → segments atoi 1 (put n ++ []) ipint ≡ some ((ipint + n * 1) % 2 ^ 32)
  unfolding segments
  segments-last n ipint small =
      ap go (ReadsBack.atoi-put reads n [] small refl)
      ∙ if_false (ltb 255 n) _ _ (ground (arith, small))
      ∙ ap (on ((ipint + n * 1) % 2 ^ 32))
          (after_point-none (put n) (ReadsBack.put-plain reads n small))
    where
      on : ℕ → Option (List ℕ) → Option ℕ
      on total found = elim found [ none ↦ some total | some rest ↦ some total ]

      go : Option ℕ → Option ℕ
      go value = elim value [
        | none ↦ none
        | some value ↦
            if ltb 255 value
            then none
            else on ((ipint + value * 1) % 2 ^ 32) (after_point (put n ++ []))
      ]

  -- Four numbers below 256 with points between them are the bytes of the result, the first the highest.
  pub ip_to_int-dotted :
      (a b c d : ℕ)
      → a < 256
      → b < 256
      → c < 256
      → d < 256
      → ip_to_int atoi (put a ++ 46 ∷ (put b ++ 46 ∷ (put c ++ 46 ∷ (put d ++ []))))
        ≡ some (a * 2 ^ 24 + b * 2 ^ 16 + c * 2 ^ 8 + d)
  unfolding ip_to_int
  ip_to_int-dotted a b c d ha hb hc hd =
      segments-point 3 a 0 _ ha
      ∙ segments-point 2 b _ _ hb
      ∙ segments-point 1 c _ _ hc
      ∙ segments-last d _ hd
      ∙ ap some (omega arith)
