-- ===== src/PoolObjs/Client.antt =====
-- Sequences of `Get` and `Free` on a pool of pool_objs/pool_objs.hpp.
use public_cpp.Base.{
  ℕ, ◌+◌, ◌-◌, ◌*◌, ◌≤◌, ◌<◌, ◌≡◌, ◌≢◌, inl, inr, refl, ap, ◌∙◌, List, [], ◌∷◌, count, true, Option,
  none, some, arith, ◌==◌, if◌then◌else◌,
}
use public_cpp.PoolObjs.{Pool, ensure, get, free}
use public_cpp.PoolObjs.Start.{IsNew, ensure-new}
use public_cpp.PoolObjs.FreeList.{free_objs, IsPool, count-span, span}
use public_cpp.PoolObjs.Get.{get-Got}
use public_cpp.PoolObjs.Free.{free-Freed}

-- The list without the first occurrence
pub remove : ℕ → List ℕ → List ℕ
remove x [] = []
remove x (y ∷ ys) = if x == y then ys else y ∷ remove x ys

count-remove :
    (x y : ℕ) (ys : List ℕ)
    → 0 < count x ys
    → count y ys ≡ (if y == x then 1 else 0) + count y (remove x ys)
unfolding remove
count-remove x y [] h = absurd (omega arith)
count-remove x y (z ∷ zs) h = ground (arith, count-remove x y zs)

some-equal : (x y : ℕ) (o : Option ℕ) → o ≡ some x → o ≡ some y → x ≡ y
some-equal x y o e f = ground arith

some-none : (x : ℕ) (o : Option ℕ) → o ≡ some x → o ≢ none
some-none x o e f = ground arith

module _ {ℓ} {V : Type ℓ} where
  -- The states that calls on the pool `p₀` lead to, with the objects that the caller holds. The
  -- caller frees only objects that it holds.
  pub data Reaches (p₀ : Pool V) : Pool V → List ℕ → Type ℓ where
    start : Reaches p₀ p₀ []
    gets :
        {p : Pool V} {held : List ℕ} (x : ℕ)
        → Reaches p₀ p held
        → (get p).0 ≡ some x
        → Reaches p₀ (get p).1 (x ∷ held)
    gets_none :
        {p : Pool V} {held : List ℕ}
        → Reaches p₀ p held
        → (get p).0 ≡ none
        → Reaches p₀ (get p).1 held
    frees :
        {p : Pool V} {held : List ℕ} (x : ℕ)
        → Reaches p₀ p held
        → 0 < count x held
        → Reaches p₀ (free p (some x)) (remove x held)

  -- How often an object is held, free or deleted
  abbrev pub total : Pool V → List ℕ → ℕ → ℕ
  total p held x = count x held + count x (free_objs p) + count x p.deleted

  pub record IsSafe (p : Pool V) (held : List ℕ) : Type 0 where
    pub valid : IsPool p
    pub lock : p.lock ≡ true
    pub once : (x : ℕ) → total p held x ≤ 1
    pub seen : (x : ℕ) → p.fresh ≤ x → total p held x ≡ 0

  get-IsSafe :
      (p : Pool V) (held : List ℕ) (x : ℕ)
      → IsSafe p held
      → (get p).0 ≡ some x
      → IsSafe (get p).1 (x ∷ held)
  get-IsSafe p held x w e =
      let (v, cases) = get-Got p w.valid w.lock in
      elim cases [
        | inl r ↦
            let counts = same_total r.obj (some-equal x r.obj _ e r.result) r.taken r.kept in
            record {
              valid = v;
              lock = r.lock ∙ w.lock;
              once = λ y. omega (arith, counts y, w.once y);
              seen = λ y h. omega (arith, counts y, w.seen y (omega (arith, r.fresh)));
            }
        | inr (inl g) ↦
            let n = p.num_objs_per_block - 1 in
            let counts = new_total (span p.fresh n) g.empty g.left g.kept in
            let same = some-equal x (p.fresh + n) _ e g.result in
            record {
              valid = v;
              lock = g.lock ∙ w.lock;
              once = λ y. ground (arith, counts y, w.once y, w.seen y, count-span y p.fresh n);
              seen = λ y h.
                  ground
                    (arith, counts y, w.seen y, count-span y p.fresh n, g.fresh, w.valid.col_bound);
            }
        | inr (inr (inl m)) ↦
            let counts = new_total [] m.empty m.left m.kept in
            let same = some-equal x p.fresh _ e m.result in
            record {
              valid = v;
              lock = m.lock ∙ w.lock;
              once = λ y. ground (arith, counts y, w.once y, w.seen y);
              seen = λ y h. ground (arith, counts y, w.seen y, m.fresh);
            }
        | inr (inr (inr n)) ↦ absurd (some-none x _ e (ap (λ r. r.0) n.result))
      ]
    where
      same_total :
          (obj : ℕ)
          → x ≡ obj
          → free_objs p ≡ obj ∷ free_objs (get p).1
          → (get p).1.deleted ≡ p.deleted
          → (y : ℕ) → total p held y ≡ total (get p).1 (x ∷ held) y
      same_total obj e f d y =
          omega (arith, ap {B = ℕ} (λ t. if y == t then 1 else 0) e, ap (count y) f, ap (count y) d)

      new_total :
          (xs : List ℕ)
          → free_objs p ≡ []
          → free_objs (get p).1 ≡ xs
          → (get p).1.deleted ≡ p.deleted
          → (y : ℕ)
          → total (get p).1 (x ∷ held) y ≡ total p held y + (if y == x then 1 else 0) + count y xs
      new_total xs e f d y = omega (arith, ap (count y) e, ap (count y) f, ap (count y) d)

  get-none-IsSafe :
      (p : Pool V) (held : List ℕ) → IsSafe p held → (get p).0 ≡ none → IsSafe (get p).1 held
  get-none-IsSafe p held w e =
      let (v, cases) = get-Got p w.valid w.lock in
      elim cases [
        | inl r ↦ absurd (some-none r.obj _ r.result e)
        | inr (inl g) ↦ absurd (some-none _ _ g.result e)
        | inr (inr (inl m)) ↦ absurd (some-none _ _ m.result e)
        | inr (inr (inr n)) ↦ rw n.result w
      ]

  free-IsSafe :
      (p : Pool V) (held : List ℕ) (x : ℕ)
      → IsSafe p held
      → 0 < count x held
      → IsSafe (free p (some x)) (remove x held)
  free-IsSafe p held x w h = elim (free-Freed p x w.valid w.lock) [
    | inl (keeps, inl (room, s)) ↦ record {
      valid = s.valid;
      lock = s.lock ∙ w.lock;
      once = λ y.
          omega
            (arith, w.once y, count-remove x y held h, ap (count y) s.front, ap (count y) s.kept);
      seen = λ y l. omega (
        arith,
        w.seen y (omega (arith, s.fresh)),
        count-remove x y held h,
        ap (count y) s.front,
        ap (count y) s.kept,
      );
    }
    | inr d ↦ rw d.result (record {
      valid = record {
        ready = w.valid.ready;
        col_bound = w.valid.col_bound;
        row_bound = w.valid.row_bound;
        full = w.valid.full;
        block_bound = w.valid.block_bound;
      };
      lock = w.lock;
      once = λ y. omega (arith, w.once y, count-remove x y held h, ap (count y) same_objs);
      seen = λ y l. omega (arith, w.seen y l, count-remove x y held h, ap (count y) same_objs);
    })
    | inl (keeps, inr d) ↦ rw d.result (record {
      valid = w.valid;
      lock = w.lock;
      once = λ y. omega (arith, w.once y, count-remove x y held h);
      seen = λ y l. omega (arith, w.seen y l, count-remove x y held h);
    })
  ]
    where
      same_objs : free_objs (record p { deleted = x ∷ p.deleted }) ≡ free_objs p
      same_objs = unfold free_objs in refl

  -- Whatever calls a caller makes that frees only what it holds, no object is ever held twice, held
  -- and free, free twice, or used or deleted again after it was deleted.
  pub Reaches-IsSafe :
      {p₀ p : Pool V} {held : List ℕ} → IsSafe p₀ [] → Reaches p₀ p held → IsSafe p held
  Reaches-IsSafe w start = w
  Reaches-IsSafe w (gets x r e) = get-IsSafe _ _ x (Reaches-IsSafe w r) e
  Reaches-IsSafe w (gets_none r e) = get-none-IsSafe _ _ (Reaches-IsSafe w r) e
  Reaches-IsSafe w (frees x r h) = free-IsSafe _ _ x (Reaches-IsSafe w r) h

  -- Take a new pool with at least one block allowed whose initial objects fit in its blocks, and any
  -- calls of a caller that frees only what it holds. Then no object is ever held twice, held and
  -- free, free twice, or held, free or deleted again after it was deleted, and the pool keeps its
  -- bounds.
  pub Reaches-new :
      (p : Pool V) {q : Pool V} {held : List ℕ}
      → IsNew p
      → p.lock ≡ true
      → p.deleted ≡ []
      → 0 < p.max_num_blocks
      → p.init_num_objs ≤ p.max_num_blocks * p.num_objs_per_block
      → Reaches (ensure p).1 q held
      → IsSafe q held
  Reaches-new p w l d pos fits r = elim (ensure-new p w pos) [
    | inr (no_init, over) ↦ absurd (omega arith)
    | inl (ok, room, s) ↦
        let none_deleted : (x : ℕ) → count x (ensure p).1.deleted ≡ 0 =
          λ x. ap (count x) (s.kept ∙ d) in
        Reaches-IsSafe
          (record {
            valid = s.valid;
            lock = s.lock ∙ l;
            once = λ x. omega (arith, s.once x, none_deleted x);
            seen = λ x h. omega (arith, s.seen x h, none_deleted x);
          })
          r
  ]
