-- ===== src/ThreadPrivacy/Private.antt =====
-- `Get` of thread_privacy/thread_privacy.h.
use public_cpp.Base.{
  ℕ, ◌+◌, ◌<◌, ◌≡◌, ◌≢◌, ◌⊎◌, inl, inr, refl, sym, ap, ◌∙◌, Bool, true, false, ◌&&◌, Option, none,
  some, [], ◌∷◌, arith, ◌==◌, if◌then◌else◌, get_or, Bool-cases, Option-cases,
}
use public_cpp.ThreadPrivacy.{
  Calls, Store, hit, miss, slot, slots_of, peek, ensure, try_lock, max_times_try_lock, set_table,
  make_privacies, get_code, put_slot, finish, get,
}
use public_cpp.ThreadPrivacy.Slots.{slot-put_slot}

-- The objects of the store are old, and no two places share one.
pub record IsPrivate (s : Store) : Type 0 where
  pub ready : s.init ≡ true
  pub old : (t num x : ℕ) → peek s t num ≡ some x → x < s.fresh
  pub own :
      (t u num other x : ℕ)
      → peek s t num ≡ some x
      → peek s u other ≡ some x
      → (t ≡ u) × (num ≡ other)

-- What `Get` of the thread `t` gave at `num`: the object there, or a new one that is then there. Every
-- other place is as it was.
pub record Given (s : Store) (t num : ℕ) (r : Option (ℕ × Bool) × Store) : Type 0 where
  pub valid : IsPrivate r.1
  pub obj : ℕ
  pub fresh : Bool
  pub result : r.0 ≡ some (obj, fresh)
  pub there : peek r.1 t num ≡ some obj
  pub before : peek s t num ≡ (if fresh then none else some obj)
  pub others : (u other : ℕ) → (u ≡ t → other ≢ num) → peek r.1 u other ≡ peek s u other

-- The calls of pthread succeed, a lock within the tries.
pub record Succeeds (sys : Calls) : Type 0 where
  pub set : sys.set_specific ≡ true
  pub locks : try_lock sys max_times_try_lock 0 ≡ true

peek-slot : (s : Store) (t num : ℕ) → s.init ≡ true → peek s t num ≡ slot (slots_of (s.table t)) num
unfolding peek
peek-slot s t num e = rw (e, peek) refl

-- Two stores with the same slots of each thread
abbrev IsSame : Store → Store → Type 0
IsSame s r =
    (r.init ≡ s.init)
    × (r.fresh ≡ s.fresh)
    × ((u : ℕ) → slots_of (r.table u) ≡ slots_of (s.table u))

abbrev filled : Store → ℕ → ℕ → Store
filled r t num = record (set_table r t (put_slot (slots_of (r.table t)) num r.fresh)) {
  fresh = r.fresh + 1;
}

peek-filled :
    (s r : Store) (t num u i : ℕ)
    → s.init ≡ true
    → IsSame s r
    → peek (filled r t num) u i ≡ (if u == t && (num == i) then some s.fresh else peek s u i)
peek-filled s r t num u i e (ready, age, same) =
    peek-slot (filled r t num) u i (ready ∙ e) ∙ elim (Bool-cases (u == t)) [
      | inl here ↦
          let at : u ≡ t = ground arith in
          rw here (
            slot-put_slot (slots_of (r.table t)) num i r.fresh
            ∙ ap (λ x. if num == i then some x else slot (slots_of (r.table t)) i) age
            ∙ ap (λ o. if num == i then some s.fresh else o)
                (ap (λ xs. slot xs i) (same t)
                  ∙ ap (λ v. slot (slots_of (s.table v)) i) (sym at)
                  ∙ sym (peek-slot s u i e)))
      | inr there ↦ rw there (ap (λ xs. slot xs i) (same u) ∙ sym (peek-slot s u i e))
    ]

finish-miss :
    (s r : Store) (t num : ℕ)
    → IsPrivate s
    → IsSame s r
    → peek s t num ≡ none
    → Given s t num (some (r.fresh, true), filled r t num)
finish-miss s r t num w (ready, age, same) e =
    let look : (u i : ℕ)
        → peek (filled r t num) u i ≡ (if u == t && (num == i) then some s.fresh else peek s u i) =
      λ u i. peek-filled s r t num u i w.ready (ready, age, same) in
    record {
      valid = record {
        ready = ready ∙ w.ready;
        old = λ u i x p. ground (arith, look u i, w.old u i x);
        own = λ u v i j x p q.
            ground (arith, look u i, look v j, w.own u v i j x, w.old u i x, w.old v j x);
      };
      obj = r.fresh;
      fresh = true;
      result = refl;
      there = ground (arith, look t num);
      before = e;
      others = λ u i other. ground (arith, look u i);
    }

-- What `Get_` gives, and leaves
get_code-cases :
    (sys : Calls) (s : Store) (t num : ℕ)
    → Succeeds sys
    → s.init ≡ true
    → ((x : ℕ) × (get_code sys s t num ≡ (hit x, s)) × (peek s t num ≡ some x))
      ⊎ ((r : Store) × (get_code sys s t num ≡ (miss, r)) × IsSame s r × (peek s t num ≡ none))
unfolding get_code make_privacies get_or
get_code-cases sys s t num ok e = elim (Option-cases (s.table t)) [
  | inl n ↦ inr (
    record (set_table s t []) { set_of = t ∷ s.set_of },
    rw (n, get_code, ok.set, ok.locks) refl,
    (refl, refl, λ u. empty u n),
    peek-slot s t num e ∙ ap (λ o. slot (slots_of o) num) n,
  )
  | inr (slots, n) ↦ elim (Option-cases (slot slots num)) [
    | inl z ↦ inr (
      s,
      rw (n, get_code, z) refl,
      (refl, refl, λ u. refl),
      peek-slot s t num e ∙ ap (λ o. slot (slots_of o) num) n ∙ z,
    )
    | inr (x, z) ↦
        inl
          (x, rw (n, get_code, z) refl, peek-slot s t num e ∙ ap (λ o. slot (slots_of o) num) n ∙ z)
  ]
]
  where
    empty :
        (u : ℕ) → s.table t ≡ none → slots_of ((set_table s t []).table u) ≡ slots_of (s.table u)
    empty u n = elim (Bool-cases (u == t)) [
      | inl here ↦
          let at : t ≡ u = ground arith in
          rw here (sym (ap (λ v. slots_of (s.table v)) (sym at) ∙ ap slots_of n))
      | inr there ↦ rw there refl
    ]

get-ready :
    (sys : Calls) (s : Store) (t num : ℕ)
    → s.init ≡ true
    → get sys s t num ≡ finish t num (get_code sys s t num)
unfolding get ensure
get-ready sys s t num e = rw (e, get, ensure) refl

-- In an initialised store whose objects are all different, and where the calls of pthread succeed,
-- `Get` of a thread returns its object under the number and says whether it is new. It is new only
-- where there was none, and no other place of any thread has it; every other place is as it was.
pub get-Given :
    (sys : Calls) (s : Store) (t num : ℕ)
    → Succeeds sys
    → IsPrivate s
    → Given s t num (get sys s t num)
unfolding finish
get-Given sys s t num ok w = elim (get_code-cases sys s t num ok w.ready) [
  | inl (x, e, p) ↦ rw (get-ready sys s t num w.ready ∙ ap (finish t num) e) (record {
    valid = w;
    obj = x;
    fresh = false;
    result = refl;
    there = p;
    before = p;
    others = λ u i other. refl;
  })
  | inr (r, e, same, p) ↦
      rw (get-ready sys s t num w.ready ∙ ap (finish t num) e) (finish-miss s r t num w same p)
]
