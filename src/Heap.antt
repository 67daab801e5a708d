-- ===== src/Heap.antt =====
-- heap.hpp: a binary heap of nodes behind pointers, whose nodes know their place in it.
pub mod Moves
pub mod Order
pub mod Up
pub mod Down
pub mod Adjust
pub mod Invariant
pub mod Insert
pub mod Erase
pub mod Revalue
pub mod Feature
mod Tests
use public_cpp.Base.{
  ℕ, zero, suc, ◌+◌, ◌-◌, ◌*◌, ◌/◌, ◌≡◌, Bool, true, false, ◌&&◌, Option, none, some, ltb, leb,
  ◌==◌, if◌then◌else◌,
}

-- `Compare_` on values: a strict weak order, as the comparison of features by `<` or `>` is.
pub record Less {ℓ} (V : Type ℓ) : Type ℓ where
  pub before : V → V → Bool
  pub before_asymm : (a b : V) → before a b ≡ true → before b a ≡ false
  pub before_trans : (a b c : V) → before b a ≡ false → before c b ≡ false → before c a ≡ false

-- `Compare_` for a feature that is a number; `order` is false for a heap with the least on top.
pub compare {ℓ} : {V : Type ℓ} → Bool → (V → ℕ) → V → V → Bool
compare order feature a b =
    if order then ltb (feature b) (feature a) else ltb (feature a) (feature b)

-- Nodes are numbers. `slot i` is `heap_items_[i]`, and `index n` the field of the node `n`.
pub record Links : Type 0 where
  pub slot : ℕ → ℕ
  pub index : ℕ → ℕ

abbrev pub update {ℓ} : {A : Type ℓ} → (ℕ → A) → ℕ → A → ℕ → A
update f p a q = if p == q then a else f q

-- `heap_items_[i] = n; n->index = i`
abbrev pub link : Links → ℕ → ℕ → Links
link a i n = record { slot = update a.slot i n; index = update a.index n i }

-- The three writes of `Erase`, which bring the last node to the place of `n`.
pub unlink : Links → ℕ → ℕ → Links
unlink a num n =
    let i = a.index n in
    let slot = update (update a.slot i (a.slot num)) num n in
    record { slot = slot; index = update a.index (slot i) i }

pub record Heap {ℓ} (V : Type ℓ) : Type ℓ where
  pub init_size_heap : ℕ
  pub num_items : ℕ
  pub size_container : ℕ
  pub links : Links
  pub val : ℕ → V
  pub init : Bool

-- `Init_` allocates the nodes; their fields hold what they held.
pub init_heap {ℓ} : {V : Type ℓ} → Heap V → Heap V
init_heap h = record h {
  num_items = 0;
  size_container = h.init_size_heap;
  links = record { slot = λ i. i; index = h.links.index };
  init = true;
}

-- `XFC_RAII_INIT`
pub ensure {ℓ} : {V : Type ℓ} → Heap V → Heap V
unfolding init_heap
ensure h = if h.init then h else init_heap h

-- `Resize_` gives each new place a new node.
pub resize {ℓ} : {V : Type ℓ} → Heap V → Heap V
resize h =
    let size = h.size_container in
    record h {
      size_container = 2 * size;
      links = record {
        slot = λ i. if ltb i size then h.links.slot i else i;
        index = h.links.index;
      };
    }

module _ {ℓ} {V : Type ℓ} ⦃less : Less V⦄ (val : ℕ → V) where
  -- The test of the loops upwards, at the place `i` for the node `n`.
  pub rises : Links → ℕ → ℕ → Bool
  rises a i n = ltb 1 i && less.before (val n) (val (a.slot (i / 2)))

  -- The loop upwards with the two writes behind it. `i` rounds are enough.
  pub up_loop : ℕ → Links → ℕ → ℕ → Links
  up_loop zero a i n = link a i n
  up_loop (suc fuel) a i n = elim (rises a i n) [
    | true ↦ up_loop fuel (link a i (a.slot (i / 2))) (i / 2) n
    | false ↦ link a i n
  ]

  -- `min`, for a place `i` that has a child
  pub min_child : ℕ → Links → ℕ → ℕ
  min_child num a i =
      let iter = 2 * i in
      if iter == num
      then iter
      else if less.before (val (a.slot iter)) (val (a.slot (iter + 1)))
      then iter
      else iter + 1

  -- The loop downwards with the two writes behind it. `num_items_` rounds are enough.
  pub down_loop : ℕ → ℕ → Links → ℕ → ℕ → Links
  unfolding min_child
  down_loop zero num a i n = link a i n
  down_loop (suc fuel) num a i n = elim (leb (2 * i) num) [
    | false ↦ link a i n
    | true ↦
        let m = min_child num a i in
        elim (less.before (val n) (val (a.slot m))) [
          | true ↦ link a i n
          | false ↦ down_loop fuel num (link a i (a.slot m)) m n
        ]
  ]

  -- `AdjustNode_`. The loop upwards is a `do` loop.
  pub adjust_node : ℕ → Links → ℕ → Links
  unfolding rises up_loop down_loop
  adjust_node num a i =
      if ltb num i
      then a
      else (let n = a.slot i in
          elim (rises a i n) [
            | true ↦ up_loop i (link a i (a.slot (i / 2))) (i / 2) n
            | false ↦ down_loop num num a i n
          ])

module _ {ℓ} {V : Type ℓ} ⦃less : Less V⦄ where
  abbrev pub adjusted : Heap V → ℕ → Heap V
  adjusted h i = record h { links = adjust_node h.val h.num_items h.links i }

  -- The new heap, and the node as its `sign`.
  pub insert : Heap V → V → Heap V × ℕ
  unfolding ensure resize up_loop rises
  insert h v =
      let h₀ = ensure h in
      let h₁ = if h₀.num_items + 1 == h₀.size_container then resize h₀ else h₀ in
      let num = h₁.num_items + 1 in
      let new_item = h₁.links.slot num in
      let val = update h₁.val new_item v in
      (
        record h₁ { num_items = num; val = val; links = up_loop val num h₁.links num new_item },
        new_item,
      )

  -- The bodies behind `XFC_RAII_INIT`.
  pub update_ready : Heap V → ℕ → V → Heap V
  unfolding adjust_node
  update_ready h sign v = adjusted (record h { val = update h.val sign v }) (h.links.index sign)

  pub update_top_ready : Heap V → V → Heap V
  unfolding adjust_node
  update_top_ready h v =
      if h.num_items == 0
      then h
      else adjusted (record h { val = update h.val (h.links.slot 1) v }) 1

  pub erase_ready : Heap V → ℕ → Heap V
  unfolding adjust_node unlink
  erase_ready h sign =
      let links = unlink h.links h.num_items sign in
      if h.num_items == 0
      then h
      else adjusted (record h { num_items = h.num_items - 1; links = links }) (links.index sign)

  pub update_item : Heap V → ℕ → V → Heap V
  unfolding ensure update_ready
  update_item h sign v = update_ready (ensure h) sign v

  pub update_top : Heap V → V → Heap V
  unfolding ensure update_top_ready
  update_top h v = update_top_ready (ensure h) v

  pub refresh : Heap V → ℕ → Heap V
  unfolding ensure adjust_node
  refresh h sign = let h₀ = ensure h in adjusted h₀ (h₀.links.index sign)

  pub refresh_top : Heap V → Heap V
  unfolding ensure adjust_node
  refresh_top h = adjusted (ensure h) 1

  pub erase : Heap V → ℕ → Heap V
  unfolding ensure erase_ready
  erase h sign = erase_ready (ensure h) sign

  pub pop : Heap V → Heap V
  unfolding erase
  pop h = let h₀ = ensure h in erase h₀ (h₀.links.slot 1)

pub top {ℓ} : {V : Type ℓ} → Heap V → Option V
top h = if h.num_items == 0 then none else some (h.val (h.links.slot 1))

pub clear {ℓ} : {V : Type ℓ} → Heap V → Heap V
clear h = record h { num_items = 0 }
