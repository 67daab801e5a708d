-- ===== src/PoolObjs/Get.antt =====
-- `Get` of pool_objs/pool_objs.hpp.
use public_cpp.Base.{
  ℕ, suc, ◌+◌, ◌-◌, ◌≤◌, ◌<◌, ◌≡◌, ◌⊎◌, inl, inr, refl, ap, ◌∙◌, sym, [], ◌∷◌, ◌++◌, append_nil,
  Bool, true, false, ◌&&◌, Option, none, some, arith, ◌==◌, ==_iff, if◌then◌else◌, Bool-cases,
}
use public_cpp.PoolObjs.{Pool, fill, alloc_a_block, new_obj, ensure, get_empty, get_ready, get}
use public_cpp.PoolObjs.FreeList.{free_objs, IsPool, row_objs, rows, row_objs-span, span}
use public_cpp.PoolObjs.Fill.{fill-Filled}
use public_cpp.PoolObjs.Start.{alloc_a_block-full, alloc_a_block-filled}

module _ {ℓ} {V : Type ℓ} where
  -- `Get` took the object in front.
  pub record Reused (p : Pool V) (r : Option ℕ × Pool V) : Type ℓ where
    pub obj : ℕ
    pub result : r.0 ≡ some obj
    pub taken : free_objs p ≡ obj ∷ free_objs r.1
    pub fresh : r.1.fresh ≡ p.fresh
    pub values : r.1.content ≡ p.content
    pub kept : r.1.deleted ≡ p.deleted
    pub lock : r.1.lock ≡ p.lock

  -- `Get` allocated a block, and took its last object.
  pub record Grew (p : Pool V) (r : Option ℕ × Pool V) : Type ℓ where
    pub empty : free_objs p ≡ []
    pub may_grow : p.to_resize ≡ true
    pub room : p.num_blocks_alloc < p.max_num_blocks
    pub result : r.0 ≡ some (p.fresh + (p.num_objs_per_block - 1))
    pub left : free_objs r.1 ≡ span p.fresh (p.num_objs_per_block - 1)
    pub fresh : r.1.fresh ≡ p.fresh + p.num_objs_per_block
    pub values :
        (x : ℕ)
        → p.fresh ≤ x
        → x < p.fresh + p.num_objs_per_block
        → r.1.content x ≡ p.init_obj p.default_obj
    pub kept : r.1.deleted ≡ p.deleted
    pub lock : r.1.lock ≡ p.lock

  -- No block may be allocated.
  abbrev pub IsStuck : Pool V → Type 0
  IsStuck p = (p.to_resize ≡ false) ⊎ (p.max_num_blocks ≡ p.num_blocks_alloc)

  -- `Get` made one object outside the blocks.
  pub record Made (p : Pool V) (r : Option ℕ × Pool V) : Type ℓ where
    pub empty : free_objs p ≡ []
    pub stuck : IsStuck p
    pub may_make : p.new_if_no_resize ≡ true
    pub result : r.0 ≡ some p.fresh
    pub left : free_objs r.1 ≡ []
    pub fresh : r.1.fresh ≡ p.fresh + 1
    pub value : r.1.content p.fresh ≡ p.init_obj p.default_obj
    pub kept : r.1.deleted ≡ p.deleted
    pub lock : r.1.lock ≡ p.lock

  -- `Get` gave nothing.
  pub record Refused (p : Pool V) (r : Option ℕ × Pool V) : Type ℓ where
    pub empty : free_objs p ≡ []
    pub stuck : IsStuck p
    pub may_not_make : p.new_if_no_resize ≡ false
    pub result : r ≡ (none, p)

  abbrev pub Got : Pool V → Option ℕ × Pool V → Type ℓ
  Got p r = IsPool r.1 × (Reused p r ⊎ Grew p r ⊎ Made p r ⊎ Refused p r)

  free_objs-col :
      (p : Pool V)
      → 0 < p.current_col
      → free_objs p
        ≡ p.cell p.current_row (p.current_col - 1)
          ∷ (row_objs p.cell p.current_row (p.current_col - 1)
              ++ rows p.cell p.num_objs_per_block p.current_row)
  unfolding free_objs row_objs
  free_objs-col p h =
      let next : p.current_col ≡ suc (p.current_col - 1) = omega arith in
      ap (λ c. row_objs p.cell p.current_row c ++ rows p.cell p.num_objs_per_block p.current_row)
        next

  free_objs-row :
      (p : Pool V)
      → p.current_col ≡ 0
      → 0 < p.current_row
      → 0 < p.num_objs_per_block
      → free_objs p
        ≡ p.cell (p.current_row - 1) (p.num_objs_per_block - 1)
          ∷ (row_objs p.cell (p.current_row - 1) (p.num_objs_per_block - 1)
              ++ rows p.cell p.num_objs_per_block (p.current_row - 1))
  unfolding free_objs row_objs rows
  free_objs-row p e h k =
      let n = p.num_objs_per_block in
      let below = p.current_row - 1 in
      let next : p.current_row ≡ suc below = omega arith in
      let last : n ≡ suc (n - 1) = omega arith in
      ap (λ c. row_objs p.cell p.current_row c ++ rows p.cell n p.current_row) e
      ∙ ap (rows p.cell n) next
      ∙ ap (λ c. row_objs p.cell below c ++ rows p.cell n below) last

  free_objs-none : (p : Pool V) → p.current_col ≡ 0 → p.current_row ≡ 0 → free_objs p ≡ []
  unfolding free_objs row_objs rows
  free_objs-none p e f =
      ap (λ c. row_objs p.cell p.current_row c ++ rows p.cell p.num_objs_per_block p.current_row) e
      ∙ ap (rows p.cell p.num_objs_per_block) f

  get-ready : (p : Pool V) → p.init ≡ true → get p ≡ get_ready p
  unfolding get ensure
  get-ready p e = rw (e, get, ensure) refl

  get_ready-col :
      (p : Pool V)
      → p.lock ≡ true
      → (p.current_col == 0) ≡ false
      → get_ready p ≡ (
        some (p.cell p.current_row (p.current_col - 1)),
        record p { current_col = p.current_col - 1 },
      )
  unfolding get_ready
  get_ready-col p l e = rw (l, e, get_ready) refl

  get_ready-row :
      (p : Pool V)
      → p.lock ≡ true
      → (p.current_col == 0) ≡ true
      → (p.current_row == 0) ≡ false
      → get_ready p ≡ (
        some (p.cell (p.current_row - 1) (p.num_objs_per_block - 1)),
        record p { current_row = p.current_row - 1; current_col = p.num_objs_per_block - 1 },
      )
  unfolding get_ready
  get_ready-row p l e f = rw (l, e, f, get_ready) refl

  get_ready-empty :
      (p : Pool V)
      → p.lock ≡ true
      → (p.current_col == 0) ≡ true
      → (p.current_row == 0) ≡ true
      → get_ready p ≡ get_empty p
  unfolding get_ready
  get_ready-empty p l e f = rw (l, e, f, get_ready) refl

  -- The body of `get_empty`, with the flag and the result of `AllocABlock_` as arguments
  abbrev branch : Bool → Pool V → Bool × Pool V → Option ℕ × Pool V
  branch grow p r =
      let last = p.num_objs_per_block - 1 in
      if grow && r.0
      then (some (r.1.cell 0 last), record r.1 { current_row = 0; current_col = last })
      else if p.new_if_no_resize
      then (some p.fresh, new_obj p)
      else (none, p)

  get_empty-body : (p : Pool V) → get_empty p ≡ branch p.to_resize p (alloc_a_block p)
  unfolding get_empty
  get_empty-body p = refl

  get_empty-grows :
      (p : Pool V)
      → p.to_resize ≡ true
      → p.num_blocks_alloc < p.max_num_blocks
      → let q = fill p.num_objs_per_block p in
        get_empty p ≡ (
          some (q.cell 0 (p.num_objs_per_block - 1)),
          record q {
            num_blocks_alloc = q.num_blocks_alloc + 1;
            current_row = 0;
            current_col = p.num_objs_per_block - 1;
          },
        )
  get_empty-grows p e h =
      get_empty-body p
      ∙ ap (λ b. branch b p (alloc_a_block p)) e
      ∙ ap (branch true p) (alloc_a_block-filled p h)

  get_empty-stuck :
      (p : Pool V)
      → IsStuck p
      → get_empty p ≡ (if p.new_if_no_resize then (some p.fresh, new_obj p) else (none, p))
  get_empty-stuck p (inl e) = get_empty-body p ∙ ap (λ b. branch b p (alloc_a_block p)) e
  get_empty-stuck p (inr e) =
      get_empty-body p ∙ ap (branch p.to_resize p) (alloc_a_block-full p e) ∙ stays p.to_resize
    where
      stays : (b : Bool) → branch b p (false, p) ≡ branch false p (false, p)
      stays true = refl
      stays false = refl

  get_empty-Grew :
      (p : Pool V)
      → IsPool p
      → p.current_row ≡ 0
      → free_objs p ≡ []
      → p.to_resize ≡ true
      → p.num_blocks_alloc < p.max_num_blocks
      → IsPool (get_empty p).1 × Grew p (get_empty p)
  unfolding free_objs rows
  get_empty-Grew p w top e grow room =
      let n = p.num_objs_per_block in
      let q = fill n p in
      let s = fill-Filled n p in
      let row : (c : ℕ) → c < n → q.cell 0 c ≡ p.fresh + c =
        λ c l. ap (λ r. q.cell r c) (sym top) ∙ s.row c l in
      rw (get_empty-grows p grow room) (
        record {
          ready = s.init ∙ w.ready;
          col_bound = omega (arith, w.col_bound, s.num_objs_per_block);
          row_bound = omega arith;
          full = λ h. absurd (omega arith);
          block_bound = omega (arith, s.num_blocks_alloc, s.max_num_blocks);
        },
        record {
          empty = e;
          may_grow = grow;
          room = room;
          result = ap some (row (n - 1) (omega (arith, w.col_bound)));
          left =
              ap (λ t. t ++ [])
                (row_objs-span q.cell p.fresh 0 (n - 1) (λ c l. row c (omega arith)))
              ∙ append_nil (span p.fresh (n - 1));
          fresh = s.fresh;
          values = s.values;
          kept = s.deleted;
          lock = s.lock;
        },
      )

  get_empty-Made :
      (p : Pool V)
      → IsPool p
      → free_objs p ≡ []
      → IsStuck p
      → IsPool (get_empty p).1 × (Made p (get_empty p) ⊎ Refused p (get_empty p))
  get_empty-Made p w e stuck = elim (Bool-cases p.new_if_no_resize) [
    | inl m ↦
        rw
          (get_empty-stuck p stuck ∙ ap (λ b. if b then (some p.fresh, new_obj p) else (none, p)) m)
          (
            record {
              ready = w.ready;
              col_bound = w.col_bound;
              row_bound = w.row_bound;
              full = w.full;
              block_bound = w.block_bound;
            },
            inl (record {
              empty = e;
              stuck = stuck;
              may_make = m;
              result = refl;
              left = unfold free_objs in e;
              fresh = refl;
              value = ground arith;
              kept = refl;
              lock = refl;
            }),
          )
    | inr m ↦
        rw
          (get_empty-stuck p stuck ∙ ap (λ b. if b then (some p.fresh, new_obj p) else (none, p)) m)
          (w, inr (record { empty = e; stuck = stuck; may_not_make = m; result = refl }))
  ]

  -- `Get` gives the object in front; with no object left it takes a block, makes an object or gives
  -- nothing, as the flags say.
  pub get-Got : (p : Pool V) → IsPool p → p.lock ≡ true → Got p (get p)
  get-Got p w l = rw (get-ready p w.ready) (elim (Bool-cases (p.current_col == 0)) [
    | inr c ↦
        let col : 0 < p.current_col = ground arith in
        rw (get_ready-col p l c) (
          record {
            ready = w.ready;
            col_bound = omega (arith, w.col_bound);
            row_bound = w.row_bound;
            full = λ e. absurd (omega (arith, w.full e));
            block_bound = w.block_bound;
          },
          inl (record {
            obj = p.cell p.current_row (p.current_col - 1);
            result = refl;
            taken = free_objs-col p col ∙ same_col;
            fresh = refl;
            values = refl;
            kept = refl;
            lock = refl;
          }),
        )
    | inl c ↦
        let col : p.current_col ≡ 0 = ground arith in
        elim (Bool-cases (p.current_row == 0)) [
          | inr r ↦
              let row : 0 < p.current_row = ground arith in
              rw (get_ready-row p l c r) (
                record {
                  ready = w.ready;
                  col_bound = omega (arith, w.col_bound);
                  row_bound = omega (arith, w.row_bound);
                  full = λ e. absurd (omega (arith, w.row_bound));
                  block_bound = w.block_bound;
                },
                inl (record {
                  obj = p.cell (p.current_row - 1) (p.num_objs_per_block - 1);
                  result = refl;
                  taken = free_objs-row p col row (omega (arith, w.col_bound)) ∙ same_row;
                  fresh = refl;
                  values = refl;
                  kept = refl;
                  lock = refl;
                }),
              )
          | inl r ↦ rw (get_ready-empty p l c r) (take_empty col ((==_iff p.current_row 0).0 r))
        ]
  ])
    where
      same_col :
          p.cell p.current_row (p.current_col - 1)
            ∷ (row_objs p.cell p.current_row (p.current_col - 1)
                ++ rows p.cell p.num_objs_per_block p.current_row)
          ≡ p.cell p.current_row (p.current_col - 1)
            ∷ free_objs (record p { current_col = p.current_col - 1 })
      same_col = unfold free_objs in refl

      same_row :
          p.cell (p.current_row - 1) (p.num_objs_per_block - 1)
            ∷ (row_objs p.cell (p.current_row - 1) (p.num_objs_per_block - 1)
                ++ rows p.cell p.num_objs_per_block (p.current_row - 1))
          ≡ p.cell (p.current_row - 1) (p.num_objs_per_block - 1)
            ∷ free_objs (record p {
              current_row = p.current_row - 1;
              current_col = p.num_objs_per_block - 1;
            })
      same_row = unfold free_objs in refl

      stuck : IsStuck p → free_objs p ≡ [] → Got p (get_empty p)
      stuck k e = let (v, cases) = get_empty-Made p w e k in (v, inr (inr cases))

      take_empty : p.current_col ≡ 0 → p.current_row ≡ 0 → Got p (get_empty p)
      take_empty c r =
          let e = free_objs-none p c r in
          elim (Bool-cases p.to_resize) [
            | inr no_growth ↦ stuck (inl no_growth) e
            | inl grow ↦ elim (Bool-cases (p.max_num_blocks == p.num_blocks_alloc)) [
              | inl f ↦ stuck (inr ((==_iff p.max_num_blocks p.num_blocks_alloc).0 f)) e
              | inr f ↦
                  let (v, g) = get_empty-Grew p w r e grow (ground (arith, w.block_bound)) in
                  (v, inr (inl g))
            ]
          ]
