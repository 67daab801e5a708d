-- ===== src/CloseHashmap/Copy.antt =====
-- `Copy` of close_hashmap.hpp.
use public_cpp.Base.{ℕ, List, ◌++◌, take, drop, ◌==◌, if◌then◌else◌}
use public_cpp.CloseHashmap.{Item, Map}

module _ {ℓ} {K V : Type ℓ} where
  -- `realloc` to `size` items keeps those that fit; `fresh` are the uninitialised ones behind them.
  realloc : List (Item K V) → List (Item K V) → ℕ → List (Item K V)
  realloc items fresh size = take size (items ++ fresh)

  -- `memcpy` of `n` items over the first ones of `items`
  overwrite : ℕ → List (Item K V) → List (Item K V) → List (Item K V)
  overwrite n from items = take n from ++ drop n items

  pub copy : Map K V → Map K V → List (Item K V) → Map K V
  unfolding realloc overwrite
  copy m other fresh =
      let items =
        if m.size_array == other.size_array
        then m.items
        else realloc m.items fresh other.size_array in
      record m {
        size_array = other.size_array;
        items = overwrite other.num_elm other.items items;
        num_elm = other.num_elm;
      }
