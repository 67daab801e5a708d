-- ===== src/Json.antt =====
-- jsontype/details/jsontype.cpp: the values, the parser (`JsonParseUtil`) and the printer (`DumpJson`).
-- A `long` and a `double` are the 64 bits of the union; a dict is the list of its pairs in the order in
-- which the table yields them, a new pair last.
pub mod Read
pub mod Dump
pub mod Words
pub mod Plain
pub mod Ends
pub mod Progress
pub mod Errors
pub mod Steps
pub mod Texts
pub mod RoundTrip
pub mod Access
mod Tests
use public_cpp.Base.{
  ℕ, Bool, true, false, Option, none, some, List, [], ◌∷◌, ◌==◌, ◌&&◌, ◌||◌, if◌then◌else◌, length,
  ltb,
}

mutual
  pub data Json : Type 0 where
    null : Json
    bool : Bool → Json
    int : ℕ → Json
    double : ℕ → Json
    str : List ℕ → Json
    list : Items → Json
    dict : Fields → Json

  pub data Items : Type 0 where
    no_items : Items
    item : Json → Items → Items

  pub data Fields : Type 0 where
    no_fields : Fields
    field : List ℕ → Json → Fields → Fields

-- What the code takes from the C library and the stream. `strtol` and `strtod` return the value and the
-- characters from `endptr` on; `put_long` and `put_double` are the characters `<<` writes.
pub record Libc : Type 0 where
  pub strtol : List ℕ → ℕ × List ℕ
  pub strtod : List ℕ → ℕ × List ℕ
  pub put_long : ℕ → List ℕ
  pub put_double : ℕ → List ℕ

-- Where the pointer into the text stands: the characters before the terminator, or `none` behind it.
abbrev pub Cursor : Type 0
Cursor = Option (List ℕ)

-- A value and the characters left, `NULL` with the pointer, an exception, a read behind the terminator,
-- or no end within the rounds given.
pub data Outcome {ℓ} (A : Type ℓ) : Type ℓ where
  got : A → List ℕ → Outcome A
  failed : Cursor → Outcome A
  thrown : Outcome A
  overread : Outcome A
  unfinished : Outcome A

abbrev pub Reader {ℓ} : Type ℓ → Type ℓ
Reader A = List ℕ → Outcome A

module _ {ℓ κ} {A : Type ℓ} {B : Type κ} where
  abbrev pub bind : Outcome A → (A → List ℕ → Outcome B) → Outcome B
  bind (got a rest) next = next a rest
  bind (failed at) next = failed at
  bind thrown next = thrown
  bind overread next = overread
  bind unfinished next = unfinished

-- `push_back`
unfoldable pub push_back : Items → Json → Items
push_back no_items v = item v no_items
push_back (item w vs) v = item w (push_back vs v)

abbrev pub same : List ℕ → List ℕ → Bool
same [] [] = true
same (a ∷ xs) (b ∷ ys) = (a == b) && same xs ys
same _ _ = false

abbrev pub has_key : List ℕ → Fields → Bool
has_key key no_fields = false
has_key key (field k v fs) = same key k || has_key key fs

unfoldable pub add_field : Fields → List ℕ → Json → Fields
add_field no_fields key v = field key v no_fields
add_field (field k w fs) key v = field k w (add_field fs key v)

-- `insert` of an unordered_map: a key that is there keeps its value.
unfoldable pub insert : Fields → List ℕ → Json → Fields
unfolding add_field
insert fs key v = if has_key key fs then fs else add_field fs key v
