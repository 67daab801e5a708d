-- ===== src/JsonRefs.antt =====
-- jsontype/jsontype.h and jsontype/details/jsontype.cpp: the cells that JsonType objects share, with
-- their counts. A cell has an address, and 0 is NULL; an object is a place in the list of objects, where
-- the address of its cell stands. What a string, a list or a dict holds besides is left out.
pub mod Counts
pub mod Counted
pub mod Safe
pub mod Steps
pub mod Leak
mod Tests
use public_cpp.Base.{
  ℕ, ◌+◌, ◌-◌, ◌%◌, Bool, true, false, not, Option, none, some, List, ◌==◌, ◌&&◌, ◌||◌,
  if◌then◌else◌, get_or, set, ltb,
}

-- SharedJsonVal: the number of its type, `ref_cnt` of 16 bits, and the 64 bits of the union
pub record Shared : Type 0 where
  pub type : ℕ
  pub ref_cnt : ℕ
  pub value : ℕ
  pub deleted : Bool

pub record Store : Type 0 where
  pub cells : ℕ → Shared
  pub next : ℕ
  pub objects : List ℕ

abbrev pub write : (ℕ → Shared) → ℕ → Shared → ℕ → Shared
write cells at cell a = if a == at then cell else cells a

-- `IncRefCnt`, and the count of `DecRefCnt`
abbrev pub inc_ref_cnt : Shared → Shared
inc_ref_cnt c = record c { ref_cnt = (c.ref_cnt + 1) % 65536 }

abbrev pub dec_ref_cnt : Shared → Shared
dec_ref_cnt c = record c { ref_cnt = (c.ref_cnt + 65535) % 65536 }

abbrev pub cell_of : Store → ℕ → ℕ
cell_of s i = get_or s.objects i 0

-- `XFC_NEW(shared_json_val_, SharedJsonVal(type))` of the object `i`
unfoldable pub new_cell : Store → ℕ → ℕ → ℕ → Store
new_cell s i type value = record s {
  cells =
      write s.cells s.next (record { type = type; ref_cnt = 1; value = value; deleted = false });
  next = s.next + 1;
  objects = set s.objects i s.next;
}

-- ASSIGN_NAIVE_TYPE
unfoldable pub assign_naive : Store → ℕ → ℕ → ℕ → Store
unfolding new_cell
assign_naive s i type value =
    let a = cell_of s i in
    let c = s.cells a in
    let c₁ = if ltb 1 c.ref_cnt || not (type == c.type) then dec_ref_cnt c else c in
    if a == 0
    then new_cell s i type value
    else if c₁.ref_cnt == 0
    then record s {
      cells = write s.cells a (record c₁ { ref_cnt = 1; type = type; value = value });
    }
    else new_cell (record s { cells = write s.cells a c₁ }) i type value

-- `Reset_`; the type `none` is kInvalid.
unfoldable pub reset : Store → ℕ → Option ℕ → Store
unfolding new_cell
reset s i type =
    let a = cell_of s i in
    let c = dec_ref_cnt (s.cells a) in
    let left = record s { cells = write s.cells a c; objects = set s.objects i 0 } in
    let fresh = λ (s : Store). elim type as (λ _. Store) [ none ↦ s | some t ↦ new_cell s i t 0 ] in
    if a == 0 then fresh s else if not (c.ref_cnt == 0) then fresh left else elim type [
      | none ↦ record s {
        cells = write s.cells a (record c { deleted = true });
        objects = set s.objects i 0;
      }
      | some t ↦ record s { cells = write s.cells a (record c { type = t; ref_cnt = 1 }) }
    ]

-- `operator=` of another object
unfoldable pub assign : Store → ℕ → ℕ → Store
unfolding reset
assign s i j =
    let s₁ = reset s i none in
    let b = cell_of s₁ j in
    if i == j then s else record s₁ {
      cells = write s₁.cells b (inc_ref_cnt (s₁.cells b));
      objects = set s₁.objects i b;
    }

-- `Normalize_`, with `Copy` of the cell
unfoldable pub normalize : Store → ℕ → Store
unfolding new_cell
normalize s i =
    let a = cell_of s i in
    let c = s.cells a in
    if c.ref_cnt == 1
    then s
    else new_cell (record s { cells = write s.cells a (dec_ref_cnt c) }) i c.type c.value
