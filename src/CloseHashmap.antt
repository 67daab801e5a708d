-- ===== src/CloseHashmap.antt =====
-- close_hashmap.hpp: a map by open addressing in one array.
pub mod Probe
pub mod Invariant
pub mod Update
pub mod Prime
pub mod Covering
pub mod Primes
pub mod Resize
pub mod Writes
pub mod Insert
pub mod Upsert
pub mod Erase
pub mod Init
pub mod Loss
pub mod Iterator
pub mod Copy
mod Tests
use public_cpp.Base.{
  ℕ, zero, suc, ◌+◌, ◌-◌, ◌*◌, ◌/◌, ◌%◌, ◌≤◌, ◌<◌, ◌≡◌, ◌↔◌, Bool, true, false, ◌&&◌, ◌||◌, List,
  [], ◌∷◌, ◌++◌, Option, none, some, ltb, leb, ◌==◌, if◌then◌else◌, length, get_or, set, take, drop,
  replicate,
}

-- The template parameters `KeyEqualF` and `HashF`. Equality of keys is taken to be that of values,
-- as it is for `std::equal_to`.
pub record Key {ℓ} (K : Type ℓ) : Type ℓ where
  pub key_equal : K → K → Bool
  pub hash : K → ℕ
  pub key_equal_iff : (a b : K) → (key_equal a b ≡ true) ↔ (a ≡ b)

-- An item of the array: its flag is 0, 1 or -1. An erased item keeps its pair.
pub data Item {ℓ} (K V : Type ℓ) : Type ℓ where
  free : Item K V
  live : K → V → Item K V
  dead : K → V → Item K V

pub record Map {ℓ} (K V : Type ℓ) : Type ℓ where
  pub size_array : ℕ
  pub to_resize : Bool
  pub items : List (Item K V)
  pub num_elm : ℕ

abbrev pub primes : List ℕ
primes =
    53 ∷ 97 ∷ 193 ∷ 389 ∷ 769 ∷ 1543 ∷ 3079 ∷ 6151 ∷ 12289 ∷ 24593 ∷ 49157 ∷ 98317 ∷ 196613 ∷ 393241
    ∷ 786433 ∷ 1572869 ∷ 3145739 ∷ 6291469 ∷ 12582917 ∷ 25165843 ∷ 50331653 ∷ 100663319 ∷ 201326611
    ∷ 402653189 ∷ 805306457 ∷ 1610612741 ∷ 3221225473 ∷ 4294967291 ∷ []

-- `kPrimes[pos%kNumPrimes]`
pub step : ℕ → ℕ
unfolding get_or
step pos = get_or primes (pos % 28) 53

-- `Init` refuses a size that a prime of the table divides.
pub fits : List ℕ → ℕ → Bool
fits [] n = true
fits (p ∷ ps) n = if n % p == 0 then false else fits ps n

-- The members after `Init`, the array zeroed by `bzero`.
abbrev pub blank {ℓ} : {K V : Type ℓ} → ℕ → Bool → Map K V
blank size to_resize = record {
  size_array = size;
  to_resize = to_resize;
  items = replicate size free;
  num_elm = 0;
}

pub init {ℓ} : {K V : Type ℓ} → ℕ → Bool → Option (Map K V)
unfolding fits
init size to_resize = if fits primes size then some (blank size to_resize) else none

-- `kResizeFactor * size_array_` is exact in a double below 2 ^ 52.
abbrev pub new_size : ℕ → ℕ
new_size size = let grown = 3 * size / 2 in if grown == size then grown + 1 else grown

-- What the two tests on an item tell a search for a key.
pub data Seen : Type 0 where
  found stop pass : Seen

module _ {ℓ} {K V : Type ℓ} where
  -- `items_[pos]`, which is in range wherever the code reads it
  abbrev pub at : List (Item K V) → ℕ → Item K V
  at items pos = get_or items pos free

  -- `first > 0`
  abbrev pub is_live : Item K V → Bool
  is_live free = false
  is_live (live k v) = true
  is_live (dead k v) = false

  -- `first == 0`
  abbrev pub is_free : Item K V → Bool
  is_free free = true
  is_free (live k v) = false
  is_free (dead k v) = false

  -- The loops over probed positions recur on the rounds left; `none` is a null pointer.
  pub probe_not_live : List (Item K V) → ℕ → ℕ → ℕ → ℕ → Option ℕ
  probe_not_live items size st zero pos = none
  probe_not_live items size st (suc rounds) pos = elim (is_live (at items pos)) [
    | true ↦ probe_not_live items size st rounds ((pos + st) % size)
    | false ↦ some pos
  ]

  pub probe_free : List (Item K V) → ℕ → ℕ → ℕ → ℕ → Option ℕ
  probe_free items size st zero pos = none
  probe_free items size st (suc rounds) pos =
      let next = (pos + st) % size in
      elim (is_free (at items next)) [
        | true ↦ some next
        | false ↦ probe_free items size st rounds next
      ]

module _ {ℓ} {K V : Type ℓ} ⦃key : Key K⦄ where
  pub look : K → Item K V → Seen
  look k free = stop
  look k (live j v) = if key.key_equal k j then found else pass
  look k (dead j v) = pass

  pub probe_key : List (Item K V) → ℕ → ℕ → K → ℕ → ℕ → Option ℕ
  probe_key items size st k zero pos = none
  probe_key items size st k (suc rounds) pos =
      let next = (pos + st) % size in
      elim (look k (at items next)) [
        | found ↦ some next
        | stop ↦ none
        | pass ↦ probe_key items size st k rounds next
      ]

  pub get_item_or_null : Map K V → K → Option ℕ
  unfolding look probe_key step
  get_item_or_null m k =
      let pos = key.hash k % m.size_array in
      elim (look k (at m.items pos)) [
        | found ↦ some pos
        | stop ↦ none
        | pass ↦ probe_key m.items m.size_array (step pos) k (m.size_array - 1) pos
      ]

  pub get_item_or_free : Map K V → K → Option ℕ
  unfolding get_item_or_null probe_not_live
  get_item_or_free m k = elim (get_item_or_null m k) [
    | some pos ↦ some pos
    | none ↦
        let pos = key.hash k % m.size_array in
        probe_not_live m.items m.size_array (step pos) m.size_array pos
  ]

  -- The body of `Resize`'s loop for a live item; an item with no free position is dropped.
  pub place : ℕ → K → V → List (Item K V) → List (Item K V)
  unfolding probe_free step
  place size k v items =
      let pos = key.hash k % size in
      if is_free (at items pos)
      then set items pos (live k v)
      else elim (probe_free items size (step pos) (size - 1) pos) [
        | some new_pos ↦ set items new_pos (live k v)
        | none ↦ items
      ]

  pub move_items : ℕ → List (Item K V) → List (Item K V) → List (Item K V)
  unfolding place
  move_items size [] items = items
  move_items size (live k v ∷ old) items = move_items size old (place size k v items)
  move_items size (free ∷ old) items = move_items size old items
  move_items size (dead k v ∷ old) items = move_items size old items

  pub resize : Map K V → Map K V
  unfolding move_items
  resize m =
      let size = new_size m.size_array in
      record m { size_array = size; items = move_items size m.items (replicate size free) }

  -- `*item = ...`
  abbrev pub write : Map K V → ℕ → K → V → Map K V
  write m pos k v = record m { items = set m.items pos (live k v) }

  abbrev pub write_new : Map K V → ℕ → K → V → Map K V
  write_new m pos k v = record m { items = set m.items pos (live k v); num_elm = m.num_elm + 1 }

  -- The part of `Insert` below the test for a full array. `none` is a read through a null pointer.
  pub insert_item : Map K V → K → V → Option (Bool × Map K V)
  unfolding get_item_or_free
  insert_item m k v = elim (get_item_or_free m k) [
    | none ↦ none
    | some pos ↦
        if is_live (at m.items pos) then some (false, m) else some (true, write_new m pos k v)
  ]

  pub insert : Map K V → K → V → Option (Bool × Map K V)
  unfolding insert_item resize
  insert m k v =
      if m.size_array == m.num_elm
      then if m.to_resize then insert_item (resize m) k v else some (false, m)
      else insert_item m k v

  -- The part of `Upsert` for an item that is not live, or null.
  pub upsert_new : Map K V → Option ℕ → K → V → Option (Bool × Map K V)
  unfolding get_item_or_free resize
  upsert_new m item k v =
      if m.size_array == m.num_elm
      then if m.to_resize
        then (let grown = resize m in
            elim (get_item_or_free grown k) [
              | none ↦ none
              | some pos ↦ some (true, write_new grown pos k v)
            ])
        else some (false, m)
      else elim item [ none ↦ none | some pos ↦ some (true, write_new m pos k v) ]

  pub upsert : Map K V → K → V → Option (Bool × Map K V)
  unfolding upsert_new
  upsert m k v = elim (get_item_or_free m k) [
    | none ↦ upsert_new m none k v
    | some pos ↦
        if is_live (at m.items pos)
        then some (true, write m pos k v)
        else upsert_new m (some pos) k v
  ]

  -- `item->first = -1`
  abbrev pub erased : Item K V → Item K V
  erased free = free
  erased (live k v) = dead k v
  erased (dead k v) = dead k v

  pub erase : Map K V → K → Bool × Map K V
  unfolding get_item_or_null
  erase m k = elim (get_item_or_null m k) [
    | none ↦ (false, m)
    | some pos ↦ (
      true,
      record m { items = set m.items pos (erased (at m.items pos)); num_elm = m.num_elm - 1 },
    )
  ]

  abbrev pub value_of : Item K V → Option V
  value_of free = none
  value_of (live k v) = some v
  value_of (dead k v) = some v

  pub get : Map K V → K → Option V
  unfolding get_item_or_null
  get m k = elim (get_item_or_null m k) [ none ↦ none | some pos ↦ value_of (at m.items pos) ]
