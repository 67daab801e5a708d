-- ===== src/Heap/Tests.antt =====
-- Runs of the heap of heap.hpp, and its theorems at concrete inputs. `run` follows
-- tests/src/public/test_heap.cpp.
use public_cpp.Base.{ℕ, ◌≡◌, ◌⊎◌, refl, false, none, some, arith}
use public_cpp.Heap.{Less, Heap, compare, ensure, insert, erase, pop, top, update_item}
use public_cpp.Heap.Invariant.{IsHeap, Contains, ensure-new, ensure-ready, top-first}
use public_cpp.Heap.Insert.{Inserted, insert-Inserted}
use public_cpp.Heap.Erase.{Erased, erase-Erased, pop-Erased}
use public_cpp.Heap.Revalue.{Revalued, update_item-Revalued}
use public_cpp.Heap.Order.{NotAfter}
use public_cpp.Heap.Feature.{by_feature}

instance abbrev least_first : Less ℕ
least_first = by_feature false (λ x. x)

abbrev new : Heap ℕ
new = record {
  init_size_heap = 2;
  num_items = 0;
  size_container = 0;
  links = record { slot = λ i. 0; index = λ n. 0 };
  val = λ n. 0;
  init = false;
}

abbrev add : Heap ℕ → ℕ → Heap ℕ
add h v = (insert h v).0

abbrev three : Heap ℕ
three = add (add (add new 5) 3) 4

run :
    (top three ≡ some 3)
    × (top (pop three) ≡ some 4)
    × (top (pop (pop three)) ≡ some 5)
    × (top (pop (pop (pop three))) ≡ none)
unfolding top pop insert compare
run = (refl, refl, refl, refl)

run_update : top (update_item three 2 9) ≡ some 4
unfolding top update_item insert compare
run_update = refl

new-IsHeap : IsHeap (ensure new)
new-IsHeap = (ensure-new new refl (omega arith)).0

abbrev one : Heap ℕ
one = add new 5

one-Inserted : Inserted (ensure new) 5 (insert new 5)
one-Inserted = insert-Inserted new 5 new-IsHeap

one-IsHeap : IsHeap one
one-IsHeap = one-Inserted.valid

one-ready : IsHeap (ensure one)
one-ready = rw (ensure-ready one one-IsHeap) one-IsHeap

-- Its sign is 1.
one-Contains : Contains one 1
unfolding insert
one-Contains = one-Inserted.added

one-Contains_ready : Contains (ensure one) 1
one-Contains_ready = rw (ensure-ready one one-IsHeap) one-Contains

one-top : top one ≡ some 5
unfolding insert top
one-top = refl

erase-Erased_example : Erased (ensure one) 1 (erase one 1)
erase-Erased_example = erase-Erased one 1 one-ready one-Contains_ready

pop-Erased_example :
    (((ensure one).num_items ≡ 0) × (pop one ≡ ensure one))
    ⊎ ((n : ℕ) × (top (ensure one) ≡ some ((ensure one).val n))
        × Contains (ensure one) n
        × ((x : ℕ) → Contains (ensure one) x → NotAfter ((ensure one).val n) ((ensure one).val x))
        × Erased (ensure one) n (pop one))
pop-Erased_example = pop-Erased one one-ready

top-first_example :
    ((one.num_items ≡ 0) × (top one ≡ none))
    ⊎ ((n : ℕ) × Contains one n
        × (top one ≡ some (one.val n))
        × ((x : ℕ) → Contains one x → NotAfter (one.val n) (one.val x)))
top-first_example = top-first one one-IsHeap

update_item-Revalued_example : Revalued (ensure one) 1 8 (update_item one 1 8)
update_item-Revalued_example = update_item-Revalued one 1 8 one-ready one-Contains_ready
