-- ===== src/DelayDelPtr/Ownership.antt =====
-- What `Change` and the destructor of delay_del_ptr.hpp do with the objects.
use public_cpp.Base.{
  ℕ, ◌+◌, ◌≤◌, ◌<◌, ◌≡◌, inl, inr, refl, ap, true, Option, some, List, [], ◌∷◌, ◌++◌, length, map,
  arith, ◌==◌, if◌then◌else◌, count, count-append, Option-cases,
}
use public_cpp.DelayDelPtr.{
  Ptr, size_max, expired_objs, objs, obj_list, sweep, change, destroy, construct,
}
use public_cpp.DelayDelPtr.Retired.{count-sweep}
use public_cpp.DelayDelPtr.Change.{
  IsPtr, change-Changed, changed, change-changed, change-first, change-from_null,
}

-- How often the pointer has an object: as the latest, as a former one, or deleted
abbrev pub owned : Ptr → ℕ → ℕ
owned p y = count y (obj_list p.obj) + count y (objs p.retired) + count y p.deleted

-- Calls of `Change`, each with its time and its object
pub changes : Ptr → List (ℕ × ℕ) → Ptr
unfolding change
changes p [] = p
changes p ((now, x) ∷ rest) = changes (change p now x) rest

abbrev pub given : List (ℕ × ℕ) → List ℕ
given xs = map (λ c. c.1) xs

sweep-owned :
    (p : Ptr) (now y : ℕ)
    → p.to_delete ≡ true
    → count y (objs (sweep p now).retired) + count y (sweep p now).deleted
      ≡ count y (objs p.retired) + count y p.deleted
unfolding sweep
sweep-owned p now y t =
    let delay = p.delay_del_time_in_sec in
    rw t (
      omega (
        arith,
        count-sweep delay now y p.retired,
        count-append y (expired_objs delay now p.retired) p.deleted,
      ))

changed-owned :
    (p : Ptr) (now x old y : ℕ)
    → p.to_delete ≡ true
    → p.obj ≡ some old
    → owned (changed p now x old) y ≡ owned p y + (if y == x then 1 else 0)
changed-owned p now x old y t e =
    omega (arith, sweep-owned p now y t, ap (λ o. count y (obj_list o)) e)

-- One `Change` adds the object to those that the pointer has, and loses none.
change-owned :
    (p : Ptr) (now x : ℕ)
    → IsPtr p
    → p.to_delete ≡ true
    → p.version + 1 < size_max
    → IsPtr (change p now x)
      × ((change p now x).to_delete ≡ true)
      × ((change p now x).version ≤ p.version + 1)
      × ((y : ℕ) → owned (change p now x) y ≡ owned p y + (if y == x then 1 else 0))
change-owned p now x w t h = elim (Option-cases p.obj) [
  | inl e ↦
      let (v, same, shown) = change-from_null p now x w e in
      (
        v,
        rw (change-first p now x e) (kept t),
        omega (arith, same),
        λ y.
            rw (change-first p now x e)
              (omega (arith, sweep-owned p now y t, ap (λ o. count y (obj_list o)) e)),
      )
  | inr (old, e) ↦
      let c = change-Changed p now x old w e h in
      (
        c.valid,
        rw (change-changed p now x old w e h) (kept t),
        omega (arith, c.next),
        λ y. rw (change-changed p now x old w e h) (changed-owned p now x old y t e),
      )
]
  where
    kept : p.to_delete ≡ true → (sweep p now).to_delete ≡ true
    kept e = unfold sweep in e

changes-owned :
    (p : Ptr) (xs : List (ℕ × ℕ))
    → IsPtr p
    → p.to_delete ≡ true
    → p.version + length xs < size_max
    → ((changes p xs).to_delete ≡ true)
      × ((y : ℕ) → owned (changes p xs) y ≡ owned p y + count y (given xs))
unfolding changes
changes-owned p [] w t h = (t, λ y. omega arith)
changes-owned p ((now, x) ∷ rest) w t h =
    let (v, u, small, adds) = change-owned p now x w t (omega arith) in
    let (d, all) = changes-owned (change p now x) rest v u (omega arith) in
    (d, λ y. omega (arith, all y, adds y))

destroy-owned : (p : Ptr) (y : ℕ) → p.to_delete ≡ true → count y (destroy p).deleted ≡ owned p y
unfolding destroy
destroy-owned p y t = rw t (
    omega (
      arith,
      count-append y (obj_list p.obj) (objs p.retired ++ p.deleted),
      count-append y (objs p.retired) p.deleted,
    ))

-- A pointer that owns its objects deletes, at the latest in its destructor, each object that it was
-- constructed with or changed to exactly as often as it was given it, whatever the times of the
-- calls are, if there are fewer than 2^64 - 1 calls.
pub destroy-deletes_all :
    (obj : Option ℕ) (delay : ℕ) (xs : List (ℕ × ℕ)) (y : ℕ)
    → length xs < size_max
    → count y (destroy (changes (construct obj true delay) xs)).deleted
      ≡ count y (obj_list obj) + count y (given xs)
unfolding construct
destroy-deletes_all obj delay xs y h =
    let p = construct obj true delay in
    let w : IsPtr p = record { unique = omega arith; former = λ v l. refl } in
    let (t, all) = changes-owned p xs w refl (omega arith) in
    omega (arith, destroy-owned (changes p xs) y t, all y)
