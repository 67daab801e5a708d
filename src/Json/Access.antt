-- ===== src/Json/Access.antt =====
-- The comparisons of jsontype.h, the access by index and key, and `CreateConf`.
use public_cpp.Base.{
  ℕ, zero, suc, ◌≡◌, refl, ◌∙◌, Bool, true, false, List, [], ◌∷◌, ◌++◌, ◌==◌, ◌&&◌, if◌then◌else◌,
  if-elim, if_true, if_false, ==_iff, arith,
}
use public_cpp.StrHelper.{c_str}
use public_cpp.Json.{
  Json, Items, Fields, Libc, Outcome, null, bool, int, double, str, list, dict, no_items, item,
  no_fields, field, same,
}
use public_cpp.Json.Read.{parse, at_end}

-- `operator==` of a Boolean, an integer and a string
pub equals_bool : Json → Bool → Bool
equals_bool (bool true) b = b
equals_bool (bool false) true = false
equals_bool (bool false) false = true
equals_bool _ b = false

pub equals_int : Json → ℕ → Bool
equals_int (int n) k = k == n
equals_int _ k = false

pub equals_str : Json → List ℕ → Bool
equals_str (str chars) text = same (c_str text) (c_str chars)
equals_str _ text = false

unfoldable pub num_items : Items → ℕ
num_items no_items = 0
num_items (item v vs) = suc (num_items vs)

unfoldable pub num_fields : Fields → ℕ
num_fields no_fields = 0
num_fields (field key v fs) = suc (num_fields fs)

-- `Size`
pub size : Json → ℕ
unfolding num_items num_fields
size null = 0
size (list vs) = num_items vs
size (dict fs) = num_fields fs
size _ = 1

-- `operator[]` of a constant object: the null value where there is no such part
unfoldable pub item_at : Items → ℕ → Json
item_at no_items i = null
item_at (item v vs) zero = v
item_at (item v vs) (suc i) = item_at vs i

unfoldable pub at_index : Json → ℕ → Json
unfolding item_at
at_index (list vs) i = item_at vs i
at_index _ i = null

unfoldable pub field_at : Fields → List ℕ → Json
field_at no_fields key = null
field_at (field k v fs) key = let rest = field_at fs key in if same k key then v else rest

unfoldable pub at_key : Json → List ℕ → Json
unfolding field_at
at_key (dict fs) key = field_at fs key
at_key _ key = null

-- `v[index] = w`: the list is made, and made longer with null values, where it is too short.
unfoldable pub put_item : Items → ℕ → Json → Items
put_item no_items zero w = item w no_items
put_item no_items (suc i) w = item null (put_item no_items i w)
put_item (item v vs) zero w = item w vs
put_item (item v vs) (suc i) w = item v (put_item vs i w)

unfoldable pub put_index : Json → ℕ → Json → Json
unfolding put_item
put_index (list vs) i w = list (put_item vs i w)
put_index _ i w = list (put_item no_items i w)

-- `v[key] = w`: the dict and the pair are made where they are missing.
unfoldable pub put_field : Fields → List ℕ → Json → Fields
put_field no_fields key w = field key w no_fields
put_field (field k v fs) key w =
    let rest = field k v (put_field fs key w) in if same k key then field k w fs else rest

unfoldable pub put_key : Json → List ℕ → Json → Json
unfolding put_field
put_key (dict fs) key w = dict (put_field fs key w)
put_key _ key w = dict (put_field no_fields key w)

-- The blocks that `fread` gave, up to the first that is empty
pub contents : List (List ℕ) → List ℕ
contents [] = []
contents (block ∷ blocks) = let rest = contents blocks in if at_end block then [] else block ++ rest

-- `CreateConf` of a file that could be opened
pub create_conf : Libc → List (List ℕ) → Outcome Json
unfolding contents parse
create_conf libc blocks = parse libc (c_str (contents blocks))

same_refl : (text : List ℕ) → same text text ≡ true
same_refl [] = refl
same_refl (c ∷ text) = both _ _ ((==_iff c c).1 refl) (same_refl text)
  where
    both : (a b : Bool) → a ≡ true → b ≡ true → (a && b) ≡ true
    both a b ha hb = ground arith

item_at-put_item : (vs : Items) (i : ℕ) (w : Json) → item_at (put_item vs i w) i ≡ w
unfolding item_at put_item
item_at-put_item no_items zero w = refl
item_at-put_item no_items (suc i) w = item_at-put_item no_items i w
item_at-put_item (item v vs) zero w = refl
item_at-put_item (item v vs) (suc i) w = item_at-put_item vs i w

-- What is put at an index is there afterwards, in any value.
pub at_index-put_index : (v : Json) (i : ℕ) (w : Json) → at_index (put_index v i w) i ≡ w
unfolding at_index put_index
at_index-put_index null i w = item_at-put_item no_items i w
at_index-put_index (bool b) i w = item_at-put_item no_items i w
at_index-put_index (int n) i w = item_at-put_item no_items i w
at_index-put_index (double d) i w = item_at-put_item no_items i w
at_index-put_index (str chars) i w = item_at-put_item no_items i w
at_index-put_index (list vs) i w = item_at-put_item vs i w
at_index-put_index (dict fs) i w = item_at-put_item no_items i w

field_at-put_field : (fs : Fields) (key : List ℕ) (w : Json) → field_at (put_field fs key w) key ≡ w
unfolding field_at put_field
field_at-put_field no_fields key w = if_true (same key key) _ _ (same_refl key)
field_at-put_field (field k v fs) key w =
    if-elim (λ gs. field_at gs key ≡ w) (same k key) (λ here. if_true (same k key) _ _ here)
      λ other. if_false (same k key) _ _ other ∙ field_at-put_field fs key w

-- What is put under a key is there afterwards, in any value.
pub at_key-put_key : (v : Json) (key : List ℕ) (w : Json) → at_key (put_key v key w) key ≡ w
unfolding at_key put_key
at_key-put_key null key w = field_at-put_field no_fields key w
at_key-put_key (bool b) key w = field_at-put_field no_fields key w
at_key-put_key (int n) key w = field_at-put_field no_fields key w
at_key-put_key (double d) key w = field_at-put_field no_fields key w
at_key-put_key (str chars) key w = field_at-put_field no_fields key w
at_key-put_key (list vs) key w = field_at-put_field no_fields key w
at_key-put_key (dict fs) key w = field_at-put_field fs key w
