-- ===== src/DelayDelPtr/Change.antt =====
-- `Change` and `Get` of delay_del_ptr.hpp.
use public_cpp.Base.{
  ℕ, ◌+◌, ◌%◌, ◌^◌, ◌≤◌, ◌<◌, ◌≡◌, refl, ap, ◌∙◌, ==_iff, false, Option, none, some, List, ◌∷◌,
  arith, ◌==◌,
}
use native.Mathlib.Nat.{mod-eq_of_lt}
use public_cpp.DelayDelPtr.{Entry, Ptr, size_max, lookup, sweep, replace, change, get}
use public_cpp.DelayDelPtr.Retired.{IsUnique, if_live, lookup-keep_live, keep_live-IsUnique}

-- Only former versions have entries.
pub record IsPtr (p : Ptr) : Type 0 where
  pub unique : IsUnique p.retired
  pub former : (v : ℕ) → p.version ≤ v → lookup v p.retired ≡ none

abbrev pub obj_of : Option Entry → Option ℕ
obj_of none = none
obj_of (some e) = some e.obj

-- What `Change` to `x` at the time `now` leaves of a pointer to `old`.
pub record Changed (p : Ptr) (now x old : ℕ) (q : Ptr) : Type 0 where
  pub valid : IsPtr q
  pub next : q.version ≡ p.version + 1
  pub latest : get q (p.version + 1) ≡ some x
  pub default : get q size_max ≡ some x
  pub previous : get q p.version ≡ some old
  pub former :
      (v : ℕ)
      → v < p.version
      → get q v ≡ obj_of (if_live p.delay_del_time_in_sec now (lookup v p.retired))
  pub recorded :
      lookup p.version q.retired ≡ some (record { key = p.version; obj = old; time = now })
  pub entries :
      (v : ℕ)
      → v < p.version
      → lookup v q.retired ≡ if_live p.delay_del_time_in_sec now (lookup v p.retired)
  pub delay : q.delay_del_time_in_sec ≡ p.delay_del_time_in_sec

abbrev pub swept : (p : Ptr) → ℕ → List Entry
swept p now = (sweep p now).retired

swept-none : (p : Ptr) (now v : ℕ) → IsPtr p → p.version ≤ v → lookup v (swept p now) ≡ none
unfolding sweep
swept-none p now v w h =
    lookup-keep_live p.delay_del_time_in_sec now v p.retired w.unique
    ∙ ap (if_live p.delay_del_time_in_sec now) (w.former v h)

-- The pointer after `Change` from an object
abbrev pub changed : Ptr → ℕ → ℕ → ℕ → Ptr
changed p now x old = record (sweep p now) {
  retired = record { key = p.version; obj = old; time = now } ∷ swept p now;
  obj = some x;
  version = p.version + 1;
}

pub change-changed :
    (p : Ptr) (now x old : ℕ)
    → IsPtr p
    → p.obj ≡ some old
    → p.version + 1 < size_max
    → change p now x ≡ changed p now x old
unfolding change sweep replace
change-changed p now x old w e h =
    let small : (p.version + 1) % 2 ^ 64 ≡ p.version + 1 = mod-eq_of_lt (omega arith) in
    rw (e, swept-none p now p.version w (omega arith), small, change) refl

get-same : (p : Ptr) (v : ℕ) → p.version ≡ v → get p v ≡ p.obj
unfolding get
get-same p v e = rw ((==_iff p.version v).1 e, get) refl

get-former :
    (p : Ptr) (v : ℕ) → v < p.version → p.version < size_max → get p v ≡ obj_of (lookup v p.retired)
unfolding get
get-former p v h k =
    let here : (p.version == v) ≡ false = ground arith in
    let last : (size_max == v) ≡ false = ground arith in
    rw (here, last, get) (by_obj (lookup v p.retired))
  where
    by_obj : (o : Option Entry) → (elim o [ none ↦ none | some e ↦ some e.obj ]) ≡ obj_of o
    by_obj none = refl
    by_obj (some e) = refl

get-max : (p : Ptr) → p.version < size_max → get p size_max ≡ p.obj
unfolding get
get-max p k = let here : (p.version == size_max) ≡ false = ground arith in rw (here, get) refl

-- After `Change` from an object to `x` at the time `now`, the new version gives `x`, and the last version
-- gives the former object, which is recorded as retired at `now`. Each earlier version has the entry and
-- gives what it gave, unless its object was retired more than the delay ago, when its entry is gone and
-- it gives null. The delay is as it was. The version must be below the largest number, which stands
-- for the latest version.
pub change-Changed :
    (p : Ptr) (now x old : ℕ)
    → IsPtr p
    → p.obj ≡ some old
    → p.version + 1 < size_max
    → Changed p now x old (change p now x)
change-Changed p now x old w e h =
    let q = changed p now x old in
    rw (change-changed p now x old w e h) (record {
      valid = record {
        unique = (swept-none p now p.version w (omega arith), swept-IsUnique w);
        former = λ v l. ground (arith, swept-none p now v w);
      };
      next = refl;
      latest = get-same q (p.version + 1) refl;
      default = get-max q h;
      previous = get-former q p.version (omega arith) h ∙ ap obj_of at_front;
      former = λ v l. get-former q v (omega arith) h ∙ ap obj_of (behind v l ∙ look v w);
      recorded = at_front;
      entries = λ v l. behind v l ∙ look v w;
      delay = unfold sweep in refl;
    })
  where
    swept-IsUnique : IsPtr p → IsUnique (swept p now)
    swept-IsUnique w =
        unfold sweep in keep_live-IsUnique p.delay_del_time_in_sec now p.retired w.unique

    look :
        (v : ℕ)
        → IsPtr p
        → lookup v (swept p now) ≡ if_live p.delay_del_time_in_sec now (lookup v p.retired)
    look v w = unfold sweep in lookup-keep_live p.delay_del_time_in_sec now v p.retired w.unique

    behind :
        (v : ℕ) → v < p.version → lookup v (changed p now x old).retired ≡ lookup v (swept p now)
    behind v l = ground arith

    at_front :
        lookup p.version (changed p now x old).retired
        ≡ some (record { key = p.version; obj = old; time = now })
    at_front = ground arith

pub change-first :
    (p : Ptr) (now x : ℕ) → p.obj ≡ none → change p now x ≡ record (sweep p now) { obj = some x }
unfolding change sweep replace
change-first p now x e = rw (e, change) refl

-- The first `Change` of a pointer to nothing keeps the version, which then gives `x`.
pub change-from_null :
    (p : Ptr) (now x : ℕ)
    → IsPtr p
    → p.obj ≡ none
    → IsPtr (change p now x)
      × ((change p now x).version ≡ p.version)
      × (get (change p now x) p.version ≡ some x)
unfolding sweep
change-from_null p now x w e = rw (change-first p now x e) (
  record {
    unique = keep_live-IsUnique p.delay_del_time_in_sec now p.retired w.unique;
    former = λ v l.
        lookup-keep_live p.delay_del_time_in_sec now v p.retired w.unique
        ∙ ap (if_live p.delay_del_time_in_sec now) (w.former v l);
  },
  refl,
  get-same (record (sweep p now) { obj = some x }) p.version refl,
)
