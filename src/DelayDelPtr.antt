-- ===== src/DelayDelPtr.antt =====
-- delay_del_ptr.hpp: a pointer whose former objects can be read by their version for a while.
pub mod Retired
pub mod Change
pub mod Ownership
mod Tests
use public_cpp.Base.{
  ℕ, zero, suc, ◌+◌, ◌-◌, ◌%◌, ◌^◌, Bool, true, false, not, Option, none, some, List, [], ◌∷◌, ◌++◌,
  map, ltb, ◌==◌, if◌then◌else◌, is_none,
}

-- An entry of `delay_del_ptr_map_`. Objects are numbers, and times are seconds.
pub record Entry : Type 0 where
  pub key : ℕ
  pub obj : ℕ
  pub time : ℕ

pub record Ptr : Type 0 where
  pub delay_del_time_in_sec : ℕ
  pub to_delete : Bool
  pub obj : Option ℕ
  pub version : ℕ
  pub retired : List Entry
  pub deleted : List ℕ

pub construct : Option ℕ → Bool → ℕ → Ptr
construct obj to_delete delay_del_time_in_sec = record {
  delay_del_time_in_sec = delay_del_time_in_sec;
  to_delete = to_delete;
  obj = obj;
  version = 0;
  retired = [];
  deleted = [];
}

abbrev pub size_max : ℕ
size_max = 2 ^ 64 - 1

abbrev pub lookup : ℕ → List Entry → Option Entry
lookup v [] = none
lookup v (e ∷ es) = if e.key == v then some e else lookup v es

-- `insert` of a map, which keeps an entry that is there
abbrev pub insert_new : Entry → List Entry → List Entry
insert_new e es = if is_none (lookup e.key es) then e ∷ es else es

-- More than `delay` seconds have passed at the time `now`.
abbrev pub is_expired : ℕ → ℕ → Entry → Bool
is_expired delay now e = ltb (e.time + delay) now

pub keep_live : ℕ → ℕ → List Entry → List Entry
keep_live delay now [] = []
keep_live delay now (e ∷ es) =
    let rest = keep_live delay now es in if is_expired delay now e then rest else e ∷ rest

pub expired_objs : ℕ → ℕ → List Entry → List ℕ
expired_objs delay now [] = []
expired_objs delay now (e ∷ es) =
    let rest = expired_objs delay now es in if is_expired delay now e then e.obj ∷ rest else rest

-- The loops of `Change`, which delete and erase what has expired
pub sweep : Ptr → ℕ → Ptr
unfolding keep_live expired_objs
sweep p now = record p {
  retired = keep_live p.delay_del_time_in_sec now p.retired;
  deleted =
      if p.to_delete
      then expired_objs p.delay_del_time_in_sec now p.retired ++ p.deleted
      else p.deleted;
}

-- The end of `Change`
pub replace : Ptr → ℕ → ℕ → Option ℕ → Ptr
replace p now x none = record p { obj = some x }
replace p now x (some old) = record p {
  retired = insert_new (record { key = p.version; obj = old; time = now }) p.retired;
  obj = some x;
  version = (p.version + 1) % 2 ^ 64;
}

pub change : Ptr → ℕ → ℕ → Ptr
unfolding sweep replace
change p now x = let q = sweep p now in replace q now x q.obj

pub get : Ptr → ℕ → Option ℕ
get p version =
    if p.version == version
    then p.obj
    else if size_max == version
    then p.obj
    else elim (lookup version p.retired) [ none ↦ none | some e ↦ some e.obj ]

abbrev pub objs : List Entry → List ℕ
objs es = map (λ e. e.obj) es

abbrev pub obj_list : Option ℕ → List ℕ
obj_list none = []
obj_list (some x) = x ∷ []

-- The destructor
pub destroy : Ptr → Ptr
destroy p = record p {
  retired = [];
  deleted = if p.to_delete then obj_list p.obj ++ (objs p.retired ++ p.deleted) else p.deleted;
}
