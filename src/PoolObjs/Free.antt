-- ===== src/PoolObjs/Free.antt =====
-- `Free` of pool_objs/pool_objs.hpp.
use public_cpp.Base.{
  ℕ, zero, suc, ◌+◌, ◌-◌, ◌*◌, ◌<◌, ◌≡◌, ◌≢◌, ◌⊎◌, ◌↔◌, inl, inr, refl, ap, ◌∙◌, ◌∷◌, ◌++◌, length,
  true, false, some, arith, ◌==◌, ==_iff, if◌then◌else◌, Bool-cases,
}
use native.Mathlib.Nat.{eq_of_mul-eq-mul_left}
use public_cpp.PoolObjs.{Pool, write_cell, ensure, num_objs_left, put, store, free_ready, free}
use public_cpp.PoolObjs.FreeList.{
  free_objs, IsPool, row_objs, rows, row_objs-agree, rows-agree, length-free_objs,
}

-- The list after a write behind its last object
written :
    (f : ℕ → ℕ → ℕ) (n r c x : ℕ)
    → row_objs (write_cell f r c x) r (suc c) ++ rows (write_cell f r c x) n r
      ≡ x ∷ (row_objs f r c ++ rows f n r)
unfolding row_objs
written f n r c x =
    let g = write_cell f r c x in
    let here : g r c ≡ x = ground arith in
    rw
      (
        here,
        row_objs-agree g f r c (λ k l. ground arith),
        rows-agree g f n r (λ s k l. ground arith),
      )
      refl

module _ {ℓ} {V : Type ℓ} where
  -- `Free` put the object in front of the others.
  pub record Stored (p : Pool V) (x : ℕ) (q : Pool V) : Type ℓ where
    pub valid : IsPool q
    pub front : free_objs q ≡ x ∷ free_objs p
    pub fresh : q.fresh ≡ p.fresh
    pub values : q.content ≡ p.content
    pub kept : q.deleted ≡ p.deleted
    pub lock : q.lock ≡ p.lock

  put-inside :
      (p : Pool V) (x : ℕ)
      → (p.num_objs_per_block - 1 == p.current_col) ≡ false
      → put p x ≡ record p {
        cell = write_cell p.cell p.current_row p.current_col x;
        current_col = p.current_col + 1;
      }
  unfolding put
  put-inside p x e = rw (e, put) refl

  put-last :
      (p : Pool V) (x : ℕ)
      → (p.num_objs_per_block - 1 == p.current_col) ≡ true
      → put p x ≡ record p {
        cell = write_cell p.cell p.current_row p.current_col x;
        current_row = p.current_row + 1;
        current_col = 0;
      }
  unfolding put
  put-last p x e = rw (e, put) refl

  put-Stored :
      (p : Pool V) (x : ℕ) → IsPool p → p.current_row < p.num_blocks_alloc → Stored p x (put p x)
  unfolding free_objs rows row_objs
  put-Stored p x w h =
      let n = p.num_objs_per_block in
      let (r, c) : ℕ × ℕ = (p.current_row, p.current_col) in
      let g = write_cell p.cell p.current_row p.current_col x in
      elim (Bool-cases (p.num_objs_per_block - 1 == p.current_col)) [
        | inr e ↦
            let next : p.current_col + 1 ≡ suc p.current_col = omega arith in
            rw (put-inside p x e) (record {
              valid = record {
                ready = w.ready;
                col_bound = ground (arith, w.col_bound);
                row_bound = w.row_bound;
                full = λ s. absurd (omega arith);
                block_bound = w.block_bound;
              };
              front =
                  ap (λ k. row_objs g p.current_row k ++ rows g n p.current_row) next
                  ∙ written p.cell n p.current_row p.current_col x;
              fresh = refl;
              values = refl;
              kept = refl;
              lock = refl;
            })
        | inl e ↦
            let next : p.current_row + 1 ≡ suc p.current_row = omega arith in
            let last : n ≡ suc p.current_col = ground (arith, w.col_bound) in
            rw (put-last p x e) (record {
              valid = record {
                ready = w.ready;
                col_bound = omega (arith, w.col_bound);
                row_bound = omega arith;
                full = λ s. refl;
                block_bound = w.block_bound;
              };
              front =
                  ap (rows g n) next
                  ∙ ap (λ k. row_objs g p.current_row k ++ rows g n p.current_row) last
                  ∙ written p.cell n p.current_row p.current_col x;
              fresh = refl;
              values = refl;
              kept = refl;
              lock = refl;
            })
      ]

  -- `Free` deleted the object, as pools that may not grow do when `NumObjsLeft` says that they are
  -- full.
  pub record Deleted (p : Pool V) (x : ℕ) (q : Pool V) : Type ℓ where
    pub fixed : p.to_resize ≡ false
    pub all_back : num_objs_left p ≡ p.init_num_objs
    pub result : q ≡ record p { deleted = x ∷ p.deleted }

  -- `Free` dropped the object, because all blocks are full and no further one is allowed.
  pub record Dropped (p : Pool V) (q : Pool V) : Type ℓ where
    pub full : p.current_row ≡ p.max_num_blocks
    pub result : q ≡ p

  -- Stored where a block has room or may be added, and dropped otherwise
  abbrev pub Returned : Pool V → ℕ → Pool V → Type ℓ
  Returned p x q = ((p.current_row < p.max_num_blocks) × Stored p x q) ⊎ Dropped p q

  -- The pool may grow, or `NumObjsLeft` is another number than the initial number of objects.
  abbrev pub Keeps : Pool V → Type 0
  Keeps p = (p.to_resize ≡ true) ⊎ (num_objs_left p ≢ p.init_num_objs)

  -- Exactly one of the two holds.
  abbrev pub Freed : Pool V → ℕ → Pool V → Type ℓ
  Freed p x q = (Keeps p × Returned p x q) ⊎ Deleted p x q

  free-ready : (p : Pool V) (x : ℕ) → p.init ≡ true → free p (some x) ≡ free_ready p (some x)
  unfolding free ensure
  free-ready p x e = rw (e, free, ensure) refl

  free_ready-deletes :
      (p : Pool V) (x : ℕ)
      → p.lock ≡ true
      → p.to_resize ≡ false
      → (num_objs_left p == p.init_num_objs) ≡ true
      → free_ready p (some x) ≡ record p { deleted = x ∷ p.deleted }
  unfolding free_ready
  free_ready-deletes p x l f e = rw (l, f, e, free_ready) refl

  free_ready-stores :
      (p : Pool V) (x : ℕ) → p.lock ≡ true → Keeps p → free_ready p (some x) ≡ store p x
  unfolding free_ready
  free_ready-stores p x l (inl e) = rw (l, e, free_ready) refl
  free_ready-stores p x l (inr other) =
      let e : (num_objs_left p == p.init_num_objs) ≡ false = ground (arith, other) in
      elim (Bool-cases p.to_resize) [
        | inl r ↦ rw (l, r, free_ready) refl
        | inr r ↦ rw (l, r, e, free_ready) refl
      ]

  store-body :
      (p : Pool V) (x : ℕ)
      → store p x ≡ (
          if p.num_blocks_alloc == p.current_row
          then (if p.max_num_blocks == p.num_blocks_alloc
              then p
              else put (record p { num_blocks_alloc = p.num_blocks_alloc + 1 }) x)
          else put p x)
  unfolding store
  store-body p x = refl

  store-Returned : (p : Pool V) (x : ℕ) → IsPool p → Returned p x (store p x)
  store-Returned p x w = elim (Bool-cases (p.num_blocks_alloc == p.current_row)) [
    | inr e ↦
        rw (store-body p x, e)
          (inl (
            ground (arith, w.row_bound, w.block_bound),
            put-Stored p x w (ground (arith, w.row_bound)),
          ))
    | inl e ↦ elim (Bool-cases (p.max_num_blocks == p.num_blocks_alloc)) [
      | inl f ↦ rw (store-body p x, e, f) (inr (record { full = ground arith; result = refl }))
      | inr f ↦
          rw (store-body p x, e, f)
            (inl
              (ground (arith, w.block_bound), grown (ground arith) (ground (arith, w.block_bound))))
    ]
  ]
    where
      grown :
          p.num_blocks_alloc ≡ p.current_row
          → p.num_blocks_alloc < p.max_num_blocks
          → Stored p x (put (record p { num_blocks_alloc = p.num_blocks_alloc + 1 }) x)
      grown same h =
          let q : Pool V = record p { num_blocks_alloc = p.num_blocks_alloc + 1 } in
          let s =
            put-Stored q x
              (record {
                ready = w.ready;
                col_bound = w.col_bound;
                row_bound = omega arith;
                full = λ e. absurd (omega arith);
                block_bound = omega arith;
              })
              (omega arith) in
          record {
            valid = s.valid;
            front = s.front ∙ same_objs;
            fresh = s.fresh;
            values = s.values;
            kept = s.kept;
            lock = s.lock;
          }
        where
          same_objs :
              x ∷ free_objs (record p { num_blocks_alloc = p.num_blocks_alloc + 1 })
              ≡ x ∷ free_objs p
          same_objs = unfold free_objs in refl

  -- `Free` on an initialised pool whose lock succeeds deletes the object if the pool may not grow and
  -- `NumObjsLeft` equals the initial number of objects, and in no other case. Otherwise it puts the
  -- object in front of the free ones if the current row is below the greatest number of blocks, and
  -- does nothing if it equals it.
  pub free-Freed : (p : Pool V) (x : ℕ) → IsPool p → p.lock ≡ true → Freed p x (free p (some x))
  free-Freed p x w l = rw (free-ready p x w.ready) (elim (Bool-cases p.to_resize) [
    | inl r ↦ rw (free_ready-stores p x l (inl r)) (inl (inl r, store-Returned p x w))
    | inr r ↦ elim (Bool-cases (num_objs_left p == p.init_num_objs)) [
      | inl e ↦ rw (free_ready-deletes p x l r e) (
          inr (record {
            fixed = r;
            all_back = (==_iff (num_objs_left p) p.init_num_objs).0 e;
            result = refl;
          }))
      | inr e ↦
          let other : num_objs_left p ≢ p.init_num_objs = ground (arith, e) in
          rw (free_ready-stores p x l (inr other)) (inl (inr other, store-Returned p x w))
    ]
  ])

  -- `NumObjsLeft` is the number of free objects exactly when no row is full or there are as many
  -- blocks as objects in a block.
  pub num_objs_left-exact :
      (p : Pool V)
      → (num_objs_left p ≡ length (free_objs p))
        ↔ ((p.current_row ≡ 0) ⊎ (p.num_blocks_alloc ≡ p.num_objs_per_block))
  unfolding num_objs_left
  num_objs_left-exact p =
      let r = p.current_row in
      let b = p.num_blocks_alloc in
      let n = p.num_objs_per_block in
      (
        λ e. exact r b n (omega (arith, e, length-free_objs p)),
        λ e. elim e [
          | inl z ↦ omega (
            arith,
            length-free_objs p,
            ap (λ t. t * p.num_blocks_alloc) z,
            ap (λ t. t * p.num_objs_per_block) z,
          )
          | inr s ↦ omega (arith, length-free_objs p, ap (λ t. p.current_row * t) s)
        ],
      )
    where
      exact : (r b n : ℕ) → r * b ≡ r * n → (r ≡ 0) ⊎ (b ≡ n)
      exact zero b n e = inl refl
      exact (suc r) b n e = inr (eq_of_mul-eq-mul_left (suc r) (omega arith) b n e)
