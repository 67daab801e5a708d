-- ===== src/DelayDelPtr/Retired.antt =====
-- The map of former objects of delay_del_ptr.hpp.
use public_cpp.Base.{
  ℕ, ◌+◌, ◌≤◌, ◌≡◌, inl, inr, refl, sym, ap, ◌∙◌, ==_iff, true, false, Option, none, some, List, [],
  ◌∷◌, arith, ◌==◌, if◌then◌else◌, count, Bool-cases,
}
use public_cpp.DelayDelPtr.{Entry, lookup, is_expired, keep_live, expired_objs, objs}

-- No version has two entries.
abbrev pub IsUnique : List Entry → Type 0
IsUnique [] = 0 ≤ 0
IsUnique (e ∷ es) = (lookup e.key es ≡ none) × IsUnique es

-- What a lookup gives after the sweep
abbrev pub if_live : ℕ → ℕ → Option Entry → Option Entry
if_live delay now none = none
if_live delay now (some e) = if is_expired delay now e then none else some e

pub lookup-keep_live :
    (delay now v : ℕ) (es : List Entry)
    → IsUnique es
    → lookup v (keep_live delay now es) ≡ if_live delay now (lookup v es)
unfolding keep_live
lookup-keep_live delay now v [] u = refl
lookup-keep_live delay now v (e ∷ es) (alone, u) =
    let rest = lookup-keep_live delay now v es u in
    elim (Bool-cases (is_expired delay now e)) [
      | inl x ↦ elim (Bool-cases (e.key == v)) [
        | inl k ↦ rw (x, k) (rest ∙ ap (if_live delay now) (gone k) ∙ expires x)
        | inr k ↦ rw (x, k) rest
      ]
      | inr x ↦ elim (Bool-cases (e.key == v)) [
        | inl k ↦ rw (x, k) (sym (lives x))
        | inr k ↦ rw (x, k) rest
      ]
    ]
  where
    gone : (e.key == v) ≡ true → lookup v es ≡ none
    gone k = rw (← (==_iff e.key v).0 k) alone

    expires : is_expired delay now e ≡ true → none ≡ if_live delay now (some e)
    expires x = rw x refl

    lives : is_expired delay now e ≡ false → if_live delay now (some e) ≡ some e
    lives x = rw x refl

pub keep_live-IsUnique :
    (delay now : ℕ) (es : List Entry) → IsUnique es → IsUnique (keep_live delay now es)
unfolding keep_live
keep_live-IsUnique delay now [] u = u
keep_live-IsUnique delay now (e ∷ es) (alone, u) =
    let rest = keep_live-IsUnique delay now es u in
    let at = lookup-keep_live delay now e.key es u in
    elim (Bool-cases (is_expired delay now e)) [
      | inl x ↦ rw x rest
      | inr x ↦ rw x (at ∙ ap (if_live delay now) alone, rest)
    ]

pub count-sweep :
    (delay now x : ℕ) (es : List Entry)
    → count x (expired_objs delay now es) + count x (objs (keep_live delay now es))
      ≡ count x (objs es)
unfolding keep_live expired_objs
count-sweep delay now x [] = omega arith
count-sweep delay now x (e ∷ es) =
    let rest = count-sweep delay now x es in
    elim (Bool-cases (is_expired delay now e)) [
      | inl t ↦ rw t (omega (arith, rest))
      | inr t ↦ rw t (omega (arith, rest))
    ]
