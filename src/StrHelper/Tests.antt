-- ===== src/StrHelper/Tests.antt =====
-- Runs of `SplitStr` of str_helper.hpp, and its theorems at concrete inputs. The separator is a comma.
use public_cpp.Base.{ℕ, ◌≡◌, ◌≢◌, refl, arith, List, [], ◌∷◌}
use public_cpp.StrHelper.{c_str, split_str}
use public_cpp.StrHelper.Split.{join, ArePieces, join-split_str, split_str-join}

abbrev text : List ℕ
text = 97 ∷ 44 ∷ 44 ∷ 98 ∷ []

run : split_str text 44 ≡ (97 ∷ []) ∷ [] ∷ (98 ∷ []) ∷ []
unfolding split_str
run = refl

join-split_str_example :
    ArePieces 44 (split_str text 44)
    × (join 44 (split_str text 44) ≡ c_str text)
    × (split_str text 44 ≢ [])
join-split_str_example = join-split_str text 44

split_str-join_example :
    split_str (join 44 ((97 ∷ []) ∷ [] ∷ (98 ∷ []) ∷ [])) 44 ≡ (97 ∷ []) ∷ [] ∷ (98 ∷ []) ∷ []
split_str-join_example =
    split_str-join 44 (97 ∷ []) ([] ∷ (98 ∷ []) ∷ []) (omega arith)
      ((refl, refl), ((refl, refl), ((refl, refl), omega arith)))
