-- ===== src/CloseHashmap/Tests.antt =====
-- Runs of the map of close_hashmap.hpp, and its theorems at concrete inputs. `case1`, `upsert` and
-- `erase` follow tests/src/public/test_close_hashmap.cpp.
use public_cpp.Base.{
  ℕ, ◌+◌, ◌<◌, ◌≡◌, ◌≢◌, inl, refl, Bool, true, false, [], ◌∷◌, Option, none, some, arith, ◌==◌,
  ==_iff, if◌then◌else◌, is_some, replicate, set,
}
use public_cpp.CloseHashmap.{
  Key, free, live, Map, init, blank, insert, upsert, erase, get, resize, fits,
}
use public_cpp.CloseHashmap.Invariant.{Covers, IsValid}
use public_cpp.CloseHashmap.Writes.{Updates}
use public_cpp.CloseHashmap.Insert.{HasRoom, Inserted, insert_correct}
use public_cpp.CloseHashmap.Upsert.{Upserted, upsert_correct}
use public_cpp.CloseHashmap.Erase.{erase_correct}
use public_cpp.CloseHashmap.Resize.{resize_correct}
use public_cpp.CloseHashmap.Primes.{fits-Covers}
use public_cpp.CloseHashmap.Init.{init_correct}
use public_cpp.CloseHashmap.Loss.{resize-loses}

instance abbrev nat_key : Key ℕ
nat_key = record { key_equal = ◌==◌; hash = λ k. k; key_equal_iff = ==_iff }

infixl 5 ◌>>=◌
abbrev ◌>>=◌ : {A B : Type 0} → Option A → (A → Option B) → Option B
none >>= f = none
some a >>= f = f a

abbrev Store : Type 0
Store = Map ℕ ℕ

-- `case1`: the second key makes the array grow from 1 to 2.
abbrev case1 : Option (Bool × ℕ × Option ℕ × Option ℕ)
case1 = do
  m ← init {K = ℕ} {V = ℕ} 1 true
  (_, m₁) ← insert m 3 2
  (fresh, m₂) ← insert m₁ 1 6
  some (fresh, m₂.size_array, get m₂ 3, get m₂ 1)

case1_runs : case1 ≡ some (true, 2, some 2, some 6)
unfolding init insert get replicate set
case1_runs = refl

abbrev upsert_case : Option (ℕ × Option ℕ × Option ℕ)
upsert_case = do
  m ← init {K = ℕ} {V = ℕ} 1 true
  (_, m₁) ← upsert m 3 2
  (_, m₂) ← upsert m₁ 1 6
  (_, m₃) ← upsert m₂ 3 4
  some (m₃.size_array, get m₃ 3, get m₃ 1)

upsert_case_runs : upsert_case ≡ some (2, some 4, some 6)
unfolding init upsert get replicate set
upsert_case_runs = refl

-- A key is found behind an erased one.
abbrev erase_case : Option (Bool × Option ℕ × Option ℕ)
erase_case = do
  m ← init {K = ℕ} {V = ℕ} 5 false
  (_, m₁) ← insert m 2 20
  (_, m₂) ← insert m₁ 7 70
  let m₃ = erase m₂ 2
  some (m₃.0, get m₃.1 2, get m₃.1 7)

erase_case_runs : erase_case ≡ some (true, none, some 70)
unfolding init insert erase get replicate set
erase_case_runs = refl

abbrev empty : Store
empty = blank 3 true

empty-start :
    IsValid empty × (empty.size_array ≡ 3) × (empty.num_elm ≡ 0) × ((k : ℕ) → get empty k ≡ none)
unfolding init
empty-start = init_correct 3 true empty refl

-- The map after `Insert(7, 70)`.
abbrev one : Store
one = record { size_array = 3; to_resize = true; items = free ∷ live 7 70 ∷ free ∷ []; num_elm = 1 }

insert-one : insert empty 7 70 ≡ some (true, one)
unfolding insert replicate set
insert-one = refl

IsValid-after :
    (m m' : Store) (k v : ℕ) (b : Bool)
    → IsValid m
    → HasRoom m
    → insert m k v ≡ some (b, m')
    → IsValid m'
IsValid-after m m' k v b h room e =
    let (r, run, i) = insert_correct m k v h room in
    let same : r.1 ≡ m' = ground arith in rw (← same) i.valid

one-IsValid : IsValid one
one-IsValid = IsValid-after empty one 7 70 true empty-start.0 (inl (omega arith)) insert-one

four-Covers : Covers 4
unfolding fits
four-Covers = fits-Covers 4 refl

init_correct_example :
    IsValid empty × (empty.size_array ≡ 3) × (empty.num_elm ≡ 0) × ((k : ℕ) → get empty k ≡ none)
unfolding init
init_correct_example = init_correct 3 true empty refl

fits-Covers_example : Covers 4
unfolding fits
fits-Covers_example = fits-Covers 4 refl

insert_correct_example : (r : Bool × Store) × (insert one 4 40 ≡ some r) × Inserted one 4 40 r
insert_correct_example = insert_correct one 4 40 one-IsValid (inl (omega arith))

upsert_correct_example : (r : Bool × Store) × (upsert one 7 71 ≡ some r) × Upserted one 7 71 r
upsert_correct_example = upsert_correct one 7 71 one-IsValid (inl (omega arith))

erase_correct_example :
    IsValid (erase one 7).1
    × ((erase one 7).0 ≡ is_some (get one 7))
    × (one.num_elm ≡ (erase one 7).1.num_elm + (if (erase one 7).0 then 1 else 0))
    × Updates one 7 none (erase one 7).1
erase_correct_example = erase_correct one 7 one-IsValid

resize_correct_example :
    IsValid (resize one)
    × (one.size_array < (resize one).size_array)
    × ((resize one).num_elm ≡ one.num_elm)
    × ((k : ℕ) → get (resize one) k ≡ get one k)
resize_correct_example = resize_correct one one-IsValid four-Covers

-- The third of the keys 0, 106 and 212 has no place in an array of 106.
abbrev crowded : Store
crowded = record {
  size_array = 71;
  to_resize = true;
  items = live 0 1 ∷ live 106 2 ∷ live 212 3 ∷ replicate 68 free;
  num_elm = 3;
}

resize-loses_example : ¬ (
    (get (resize crowded) 0 ≢ none)
    × (get (resize crowded) 106 ≢ none)
    × (get (resize crowded) 212 ≢ none))
resize-loses_example =
    resize-loses crowded 0 106 212 refl (omega arith) (omega arith) (omega arith) refl refl refl
