-- ===== src/ThreadPrivacy.antt =====
-- thread_privacy/thread_privacy.h and thread_privacy/details/thread_privacy.cpp: objects that each
-- thread has for itself, by number.
pub mod Slots
pub mod Private
mod Tests
use public_cpp.Base.{
  ℕ, zero, suc, ◌+◌, ◌-◌, Bool, true, false, Option, none, some, List, [], ◌∷◌, ◌++◌, leb, ◌==◌,
  if◌then◌else◌, length, get_or, set, replicate,
}

-- What the calls of pthread return: whether each succeeds. `lock i` is the `i`th try of the loop.
pub record Calls : Type 0 where
  pub init_lock : Bool
  pub key_create : Bool
  pub set_specific : Bool
  pub lock : ℕ → Bool

-- `table t` is the `Privacies` of the thread `t`, if its key has one, with null for `none`. Objects are
-- numbers, and `new` gives `fresh`. `set_of` are the threads whose `Privacies` are in
-- `privacies_set_`, the last one in front.
pub record Store : Type 0 where
  pub init : Bool
  pub table : ℕ → Option (List (Option ℕ))
  pub set_of : List ℕ
  pub fresh : ℕ
  pub deleted : List ℕ

abbrev pub new_store : Store
new_store = record { init = false; table = λ t. none; set_of = []; fresh = 0; deleted = [] }

abbrev pub slot : List (Option ℕ) → ℕ → Option ℕ
slot slots num = get_or slots num none

abbrev pub slots_of : Option (List (Option ℕ)) → List (Option ℕ)
slots_of none = []
slots_of (some slots) = slots

-- `Get` without a type
pub peek : Store → ℕ → ℕ → Option ℕ
peek s t num = if s.init then slot (slots_of (s.table t)) num else none

pub init_store : Calls → Store → Bool × Store
init_store sys s =
    if sys.init_lock
    then if sys.key_create then (true, record s { init = true }) else (false, s)
    else (false, s)

-- `XFC_RAII_INIT`
pub ensure : Calls → Store → Bool × Store
unfolding init_store
ensure sys s = if s.init then (true, s) else init_store sys s

-- The loop that tries to lock
pub try_lock : Calls → ℕ → ℕ → Bool
try_lock sys zero i = false
try_lock sys (suc rounds) i = elim (sys.lock i) [
  | true ↦ true
  | false ↦ try_lock sys rounds (i + 1)
]

abbrev pub max_times_try_lock : ℕ
max_times_try_lock = 1000000

abbrev pub set_table : Store → ℕ → List (Option ℕ) → Store
set_table s t slots = record s { table = λ u. if u == t then some slots else s.table u }

-- What `Get_` returns: the object, 1 for no object, or a negative number
pub data Code : Type 0 where
  hit : ℕ → Code
  miss : Code
  negative : ℕ → Code

-- The branch of `Get_` for a thread that has no `Privacies`
pub make_privacies : Calls → Store → ℕ → Code × Store
unfolding try_lock
make_privacies sys s t =
    let made = set_table s t [] in
    if sys.set_specific
    then (if try_lock sys max_times_try_lock 0
        then (miss, record made { set_of = t ∷ s.set_of })
        else (negative 3, made))
    else (negative 2, s)

pub get_code : Calls → Store → ℕ → ℕ → Code × Store
unfolding make_privacies
get_code sys s t num = elim (s.table t) [
  | none ↦ make_privacies sys s t
  | some slots ↦ elim (slot slots num) [ none ↦ (miss, s) | some x ↦ (hit x, s) ]
]

-- `resize` with nulls, and the write of the object
pub put_slot : List (Option ℕ) → ℕ → ℕ → List (Option ℕ)
put_slot slots num x =
    let wide =
      if leb (length slots) num then slots ++ replicate (num + 1 - length slots) none else slots in
    set wide num (some x)

-- The part of `Get` behind `Get_`. The object comes with `first_create`.
pub finish : ℕ → ℕ → Code × Store → Option (ℕ × Bool) × Store
unfolding put_slot
finish t num (hit x, s) = (some (x, false), s)
finish t num (negative n, s) = (none, s)
finish t num (miss, s) = (
  some (s.fresh, true),
  record (set_table s t (put_slot (slots_of (s.table t)) num s.fresh)) { fresh = s.fresh + 1 },
)

-- `Get` by a type, for the thread `t`
pub get : Calls → Store → ℕ → ℕ → Option (ℕ × Bool) × Store
unfolding ensure get_code finish
get sys s t num =
    let (ok, s₁) = ensure sys s in if ok then finish t num (get_code sys s₁ t num) else (none, s₁)

abbrev pub objects : List (Option ℕ) → List ℕ
objects [] = []
objects (none ∷ slots) = objects slots
objects (some x ∷ slots) = x ∷ objects slots

pub objects_of : (ℕ → Option (List (Option ℕ))) → List ℕ → List ℕ
objects_of table [] = []
objects_of table (t ∷ ts) = objects (slots_of (table t)) ++ objects_of table ts

-- The destructor
pub destroy : Store → Store
unfolding objects_of
destroy s =
    if s.init
    then record s { set_of = []; deleted = objects_of s.table s.set_of ++ s.deleted }
    else s
