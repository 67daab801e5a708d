-- ===== src/ThreadPrivacy/Slots.antt =====
-- The slots of a thread in thread_privacy/thread_privacy.h.
use public_cpp.Base.{
  ℕ, zero, suc, ◌+◌, ◌-◌, ◌≡◌, inl, inr, refl, ap, ◌∙◌, Option, none, some, List, [], ◌∷◌, ◌++◌,
  arith, leb, ◌==◌, if◌then◌else◌, length, get_or, replicate, get_or-set, get_or-replicate,
  length-append, length-replicate, Bool-cases,
}
use public_cpp.ThreadPrivacy.{slot, put_slot}

get_or-nulls :
    (slots : List (Option ℕ)) (n i : ℕ)
    → get_or (slots ++ replicate n none) i none ≡ get_or slots i none
unfolding get_or
get_or-nulls [] n i = get_or-replicate n i none
get_or-nulls (x ∷ slots) n zero = refl
get_or-nulls (x ∷ slots) n (suc i) = get_or-nulls slots n i

-- The write changes one slot, and the nulls behind the slots change none.
pub slot-put_slot :
    (slots : List (Option ℕ)) (num i x : ℕ)
    → slot (put_slot slots num x) i ≡ (if num == i then some x else slot slots i)
unfolding put_slot
slot-put_slot slots num i x = elim (Bool-cases (leb (length slots) num)) [
  | inl e ↦
      let nulls = replicate (num + 1 - length slots) none in
      rw e (
        get_or-set (slots ++ nulls) num i (some x) none (
          ground (
            arith,
            length-append slots nulls,
            length-replicate {A = Option ℕ} (num + 1 - length slots) none,
          ))
        ∙ ap (λ o. if num == i then some x else o) (get_or-nulls slots (num + 1 - length slots) i))
  | inr e ↦ rw e (get_or-set slots num i (some x) none (ground arith))
]
