-- ===== src/StrHelper/Split.antt =====
-- `SplitStr` of str_helper.hpp.
use public_cpp.Base.{
  ℕ, zero, suc, ◌+◌, ◌≤◌, ◌<◌, ◌≡◌, ◌≢◌, ◌⊎◌, inl, inr, refl, sym, ap, ◌∙◌, true, false, List, [],
  ◌∷◌, ◌++◌, Option, none, some, arith, ◌==◌, ==_iff, length, length-append, count, Bool-cases,
}
use public_cpp.StrHelper.{c_str, scan, split_loop, split_str}

-- The pieces with the separator between them
pub join : ℕ → List (List ℕ) → List ℕ
join sep [] = []
join sep (p ∷ []) = p
join sep (p ∷ q ∷ ps) = p ++ (sep ∷ join sep (q ∷ ps))

-- Neither the separator nor a 0 is in the piece.
abbrev pub IsPiece : ℕ → List ℕ → Type 0
IsPiece sep p = (count sep p ≡ 0) × (count 0 p ≡ 0)

abbrev pub ArePieces : ℕ → List (List ℕ) → Type 0
ArePieces sep [] = 0 ≤ 0
ArePieces sep (p ∷ ps) = IsPiece sep p × ArePieces sep ps

-- What the inner loop finds: the end of the string, or a separator
abbrev Found : ℕ → List ℕ → List ℕ × Option (List ℕ) → Type 0
Found sep str r =
    IsPiece sep r.0
    × ((r.1 ≡ none) × (r.0 ≡ c_str str)
        ⊎ ((rest : List ℕ) × (r.1 ≡ some rest)
            × (c_str str ≡ r.0 ++ (sep ∷ c_str rest))
            × (length rest < length str)))

scan-Found : (sep : ℕ) (str : List ℕ) → Found sep str (scan sep str)
unfolding scan
scan-Found sep [] = ((refl, refl), inl (refl, refl))
scan-Found sep (c ∷ cs) = elim (Bool-cases (c == 0)) [
  | inl z ↦ rw z ((refl, refl), inl (refl, refl))
  | inr n ↦ elim (Bool-cases (c == sep)) [
    | inl s ↦
        rw (n, s)
          ((refl, refl), inr (cs, refl, ap (λ t. t ∷ c_str cs) ((==_iff c sep).0 s), omega arith))
    | inr s ↦ rw (n, s) (longer n s (scan sep cs) (scan-Found sep cs))
  ]
]
  where
    longer :
        (c == 0) ≡ false
        → (c == sep) ≡ false
        → (r : List ℕ × Option (List ℕ)) → Found sep cs r
        → IsPiece sep (c ∷ r.0)
          × ((r.1 ≡ none) × (c ∷ r.0 ≡ c ∷ c_str cs)
              ⊎ ((rest : List ℕ) × (r.1 ≡ some rest)
                  × (c ∷ c_str cs ≡ c ∷ r.0 ++ (sep ∷ c_str rest))
                  × (length rest < suc (length cs))))
    longer n s r ((a, b), f) = (
      (ground arith, ground arith),
      elim f [
        | inl (e, same) ↦ inl (e, ap (λ t. c ∷ t) same)
        | inr (rest, e, same, less) ↦ inr (rest, e, ap (λ t. c ∷ t) same, omega arith)
      ],
    )

join-front :
    (sep : ℕ) (p : List ℕ) (ps : List (List ℕ))
    → ps ≢ []
    → join sep (p ∷ ps) ≡ p ++ (sep ∷ join sep ps)
unfolding join
join-front sep p [] h = absurd (h refl)
join-front sep p (q ∷ ps) h = refl

split_loop-step :
    (fuel sep : ℕ) (str rest : List ℕ)
    → (scan sep str).1 ≡ some rest
    → split_loop (suc fuel) sep str ≡ (scan sep str).0 ∷ split_loop fuel sep rest
unfolding split_loop
split_loop-step fuel sep str rest e = rw (e, split_loop) refl

split_loop-end :
    (fuel sep : ℕ) (str : List ℕ)
    → (scan sep str).1 ≡ none
    → split_loop (suc fuel) sep str ≡ (scan sep str).0 ∷ []
unfolding split_loop
split_loop-end fuel sep str e = rw (e, split_loop) refl

cons-not_nil : (p : List ℕ) (ps : List (List ℕ)) → (p ∷ ps) ≢ []
cons-not_nil p ps e = cc

split_loop_lem :
    (fuel sep : ℕ) (str : List ℕ)
    → length str < fuel
    → ArePieces sep (split_loop fuel sep str)
      × (join sep (split_loop fuel sep str) ≡ c_str str)
      × (split_loop fuel sep str ≢ [])
split_loop_lem zero sep str h = absurd (omega arith)
split_loop_lem (suc fuel) sep str h =
    let (piece, found) = scan-Found sep str in
    elim found [
      | inl (e, same) ↦
          rw (split_loop-end fuel sep str e)
            ((piece, omega arith), unfold join in same, cons-not_nil _ _)
      | inr (rest, e, same, less) ↦
          let (pieces, joined, some_piece) = split_loop_lem fuel sep rest (omega arith) in
          rw (split_loop-step fuel sep str rest e) (
            (piece, pieces),
            join-front sep (scan sep str).0 (split_loop fuel sep rest) some_piece
                ∙ ap (λ t. (scan sep str).0 ++ (sep ∷ t)) joined
                ∙ sym same,
            cons-not_nil _ _,
          )
    ]

-- `SplitStr` gives at least one piece. No piece has the separator or a 0 in it, and the pieces with
-- the separator between them are the string up to its first 0, whatever the string and the separator
-- are.
pub join-split_str :
    (str : List ℕ) (sep : ℕ)
    → ArePieces sep (split_str str sep)
      × (join sep (split_str str sep) ≡ c_str str)
      × (split_str str sep ≢ [])
unfolding split_str
join-split_str str sep = split_loop_lem (length str + 1) sep str (omega arith)

scan-last : (sep : ℕ) (p : List ℕ) → IsPiece sep p → scan sep p ≡ (p, none)
unfolding scan
scan-last sep [] h = refl
scan-last sep (c ∷ cs) (a, b) =
    let rest = scan-last sep cs (ground arith, ground arith) in
    let n : (c == 0) ≡ false = ground arith in
    let s : (c == sep) ≡ false = ground arith in
    rw (n, s) (ap {B = List ℕ × Option (List ℕ)} (λ r. (c ∷ r.0, r.1)) rest)

scan-piece :
    (sep : ℕ) (p rest : List ℕ)
    → sep ≢ 0
    → IsPiece sep p
    → scan sep (p ++ (sep ∷ rest)) ≡ (p, some rest)
unfolding scan
scan-piece sep [] rest z h =
    let n : (sep == 0) ≡ false = ground arith in
    let s : (sep == sep) ≡ true = ground arith in rw (n, s) refl
scan-piece sep (c ∷ cs) rest z (a, b) =
    let found = scan-piece sep cs rest z (ground arith, ground arith) in
    let n : (c == 0) ≡ false = ground arith in
    let s : (c == sep) ≡ false = ground arith in
    rw (n, s) (ap {B = List ℕ × Option (List ℕ)} (λ r. (c ∷ r.0, r.1)) found)

split_loop-join :
    (fuel sep : ℕ) (p : List ℕ) (ps : List (List ℕ))
    → sep ≢ 0
    → ArePieces sep (p ∷ ps)
    → length (join sep (p ∷ ps)) < fuel
    → split_loop fuel sep (join sep (p ∷ ps)) ≡ p ∷ ps
unfolding join
split_loop-join zero sep p ps z h l = absurd (omega arith)
split_loop-join (suc fuel) sep p [] z (h, t) l =
    let e = scan-last sep p h in split_loop-end fuel sep p (ap (λ r. r.1) e) ∙ ap (λ r. r.0 ∷ []) e
split_loop-join (suc fuel) sep p (q ∷ ps) z (h, t) l =
    let rest = join sep (q ∷ ps) in
    let e = scan-piece sep p rest z h in
    let size = length-append p (sep ∷ rest) in
    split_loop-step fuel sep (p ++ (sep ∷ rest)) rest (ap (λ r. r.1) e)
    ∙ ap (λ r. r.0 ∷ split_loop fuel sep rest) e
    ∙ ap (λ ps. p ∷ ps) (split_loop-join fuel sep q ps z t (omega (arith, size)))

-- `SplitStr` gives back the pieces of which a string was joined, at least one and none with the
-- separator or a 0 in it, where the separator is not 0.
pub split_str-join :
    (sep : ℕ) (p : List ℕ) (ps : List (List ℕ))
    → sep ≢ 0
    → ArePieces sep (p ∷ ps)
    → split_str (join sep (p ∷ ps)) sep ≡ p ∷ ps
unfolding split_str
split_str-join sep p ps z h =
    split_loop-join (length (join sep (p ∷ ps)) + 1) sep p ps z h (omega arith)
