-- ===== src/DelayDelPtr/Tests.antt =====
-- Runs of the pointer of delay_del_ptr.hpp, and its theorems at concrete inputs.
use public_cpp.Base.{◌+◌, ◌≡◌, refl, arith, [], ◌∷◌, true, none, some, count}
use public_cpp.DelayDelPtr.{Ptr, construct, change, get, destroy, obj_list}
use public_cpp.DelayDelPtr.Change.{IsPtr, Changed, change-Changed}
use public_cpp.DelayDelPtr.Ownership.{changes, given, destroy-deletes_all}

abbrev first : Ptr
unfolding construct
first = construct (some 5) true 60

abbrev third : Ptr
unfolding change
third = change (change first 100 6) 161 7

run :
    (get third 0 ≡ none)
    × (get third 1 ≡ some 6)
    × (get third 2 ≡ some 7)
    × (third.deleted ≡ 5 ∷ [])
unfolding third first get
run = (refl, refl, refl, refl)

first-IsPtr : IsPtr first
unfolding first
first-IsPtr = record { unique = omega arith; former = λ v h. refl }

change-Changed_example : Changed first 100 6 5 (change first 100 6)
change-Changed_example =
    change-Changed first 100 6 5 first-IsPtr (unfold first in refl) (unfold first in omega arith)

destroy-deletes_all_example :
    count 5 (destroy (changes (construct (some 5) true 60) ((100, 6) ∷ (161, 5) ∷ []))).deleted
    ≡ count 5 (obj_list (some 5)) + count 5 (given ((100, 6) ∷ (161, 5) ∷ []))
destroy-deletes_all_example =
    destroy-deletes_all (some 5) 60 ((100, 6) ∷ (161, 5) ∷ []) 5 (omega arith)
