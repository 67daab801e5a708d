-- ===== src/Json/Steps.antt =====
-- The parser on printed text, a step at a time: the readers, and one round of each loop.
use public_cpp.Base.{
  if_false, ℕ, suc, ◌<◌, ◌≡◌, ◌++◌, refl, sym, ap, ◌∙◌, subst, Bool, true, false, not, none, some,
  List, [], ◌∷◌, ◌==◌, ◌&&◌, ◌||◌, if◌then◌else◌, length, drop, arith,
}
use public_cpp.Json.{
  Json, Items, Fields, Libc, Outcome, Reader, list, dict, no_items, item, no_fields, field, has_key,
  insert, add_field, push_back, bind, got, failed,
}
use public_cpp.Json.Read.{
  starts, at_end, starts_digit, is_digit, is_blank, ignore_blanks, skip_comma, switch, list_loop,
  dict_loop, readin_list, readin_dict, read_dict_pair, readin_str_raw, read_in_digits, skip_colon,
}
use public_cpp.Json.Words.{starts_number}
use public_cpp.Json.Plain.{quotable, solid, Solid, number-other, raw_loop-quotable}

-- Two lists, and two dicts, one behind the other
unfoldable pub append_items : Items → Items → Items
append_items no_items ws = ws
append_items (item v vs) ws = item v (append_items vs ws)

pub append_items-push_back :
    (vs : Items) (v : Json) (ws : Items)
    → append_items (push_back vs v) ws ≡ append_items vs (item v ws)
unfolding append_items push_back
append_items-push_back no_items v ws = refl
append_items-push_back (item w vs) v ws = ap (item w) (append_items-push_back vs v ws)

pub append_items_nil : (vs : Items) → append_items vs no_items ≡ vs
unfolding append_items
append_items_nil no_items = refl
append_items_nil (item w vs) = ap (item w) (append_items_nil vs)

unfoldable pub append_fields : Fields → Fields → Fields
append_fields no_fields gs = gs
append_fields (field k v fs) gs = field k v (append_fields fs gs)

pub append_fields-insert :
    (fs : Fields) (key : List ℕ) (v : Json) (gs : Fields)
    → has_key key fs ≡ false
    → append_fields (insert fs key v) gs ≡ append_fields fs (field key v gs)
unfolding insert append_fields add_field
append_fields-insert fs key v gs fresh =
    ap (λ hs. append_fields hs gs) (if_false _ _ _ fresh) ∙ behind fs
  where
    behind :
        (fs : Fields) → append_fields (add_field fs key v) gs ≡ append_fields fs (field key v gs)
    behind no_fields = refl
    behind (field k w fs) = ap (field k w) (behind fs)

pub ignore_blanks-Solid : (text : List ℕ) → Solid text → ignore_blanks text ≡ text
unfolding Solid ignore_blanks
ignore_blanks-Solid text (c, rest, eq, h) =
    subst (λ t. ignore_blanks t ≡ t) (sym eq) (if_false _ _ _ (not_blank (is_blank c) _ h))
  where
    not_blank : (a b : Bool) → (not a && b) ≡ true → a ≡ false
    not_blank a b h = ground arith

pub Solid-starts :
    (k : ℕ) (text : List ℕ) → ((k == 93) || (k == 125)) ≡ true → Solid text → starts k text ≡ false
unfolding Solid
Solid-starts k text closes (c, rest, eq, h) =
    subst (λ t. starts k t ≡ false) (sym eq) (not_closing c h)
  where
    not_closing : (c : ℕ) → solid c ≡ true → (c == k) ≡ false
    not_closing c h = ground arith

pub Solid-at_end : (text : List ℕ) → Solid text → at_end text ≡ false
unfolding Solid
Solid-at_end text (c, rest, eq, h) = subst (λ t. at_end t ≡ false) (sym eq) refl

-- A number: the switch comes to `ReadInDigits_`.
pub switch-number :
    (libc : Libc) (inner : Reader Json) (rounds : ℕ) (text : List ℕ)
    → starts_number text ≡ true
    → switch libc inner rounds text ≡ read_in_digits libc text
unfolding switch
switch-number libc inner rounds [] h = absurd (grind arith)
switch-number libc inner rounds (c ∷ text) h =
    if_false _ _ _ (number-other c 110 (starts_digit text) h refl)
    ∙ if_false _ _ _ (number-other c 116 (starts_digit text) h refl)
    ∙ if_false _ _ _ (number-other c 102 (starts_digit text) h refl)
    ∙ if_false _ _ _ (number-other c 34 (starts_digit text) h refl)
    ∙ if_false _ _ _ (number-other c 91 (starts_digit text) h refl)
    ∙ if_false _ _ _ (number-other c 123 (starts_digit text) h refl)
    ∙ if_true (is_digit c || (c == 45)) _ _ (either (is_digit c) (c == 45) (starts_digit text) h)
  where
    either : (a b d : Bool) → (a || (b && d)) ≡ true → (a || b) ≡ true
    either a b d h = ground arith

    if_true : (b : Bool) (x y : Outcome Json) → b ≡ true → (if b then x else y) ≡ x
    if_true true x y h = refl
    if_true false x y h = absurd (grind arith)

pub append_fields_nil : (fs : Fields) → append_fields fs no_fields ≡ fs
unfolding append_fields
append_fields_nil no_fields = refl
append_fields_nil (field k v fs) = ap (field k v) (append_fields_nil fs)

pub readin_str_raw-quotable :
    (chars rest : List ℕ)
    → quotable false chars ≡ true
    → readin_str_raw (34 ∷ (chars ++ (34 ∷ rest))) ≡ got chars rest
unfolding readin_str_raw drop
readin_str_raw-quotable chars rest h =
    ap
      (λ o. elim o as (λ _. Outcome (List ℕ)) [
        | none ↦ failed (some [])
        | some found ↦ got (found.0) (found.1)
      ])
      (raw_loop-quotable false chars rest h)

pub list_loop_item :
    (inner : Reader Json) (rounds : ℕ) (vs : Items) (text : List ℕ) (v : Json) (rest : List ℕ)
    → Solid text
    → inner text ≡ got v rest
    → list_loop inner (suc rounds) vs text
      ≡ list_loop inner rounds (push_back vs v) (skip_comma (ignore_blanks rest))
unfolding list_loop
list_loop_item inner rounds vs text v rest head reads =
    if_false (starts 93 text) _ _ (Solid-starts 93 text refl head)
    ∙ if_false (at_end text) _ _ (Solid-at_end text head)
    ∙ ap
        (λ o.
          bind o
            λ v rest. list_loop inner rounds (push_back vs v) (skip_comma (ignore_blanks rest)))
        (ap inner (ignore_blanks-Solid text head) ∙ reads)

-- A pair of a dict: the key, the colon and the value behind them
pub read_dict_pair-quoted :
    (inner : Reader Json) (key text : List ℕ) (v : Json) (rest : List ℕ)
    → quotable false key ≡ true
    → at_end key ≡ false
    → Solid text
    → inner text ≡ got v rest
    → read_dict_pair inner (34 ∷ (key ++ (34 ∷ 58 ∷ text))) ≡ got (key, v) rest
unfolding read_dict_pair skip_colon ignore_blanks drop
read_dict_pair-quoted inner key text v rest quotes some_key head reads =
    ap
      (λ o. bind o λ key rest.
        if at_end key
        then failed (some rest)
        else bind (skip_colon (ignore_blanks rest))
            λ _ rest. bind (inner (ignore_blanks rest)) λ v rest. got (key, v) rest)
      (readin_str_raw-quotable key (58 ∷ text) quotes)
    ∙ if_false (at_end key) _ _ some_key
    ∙ ap (λ o. bind o λ v rest. got (key, v) rest)
        (ap inner (ignore_blanks-Solid text head) ∙ reads)

pub dict_loop_pair :
    (inner : Reader Json) (rounds : ℕ) (fs : Fields) (text : List ℕ) (key : List ℕ) (v : Json)
    (rest : List ℕ)
    → starts 125 text ≡ false
    → at_end text ≡ false
    → read_dict_pair inner (ignore_blanks text) ≡ got (key, v) rest
    → dict_loop inner (suc rounds) fs text
      ≡ dict_loop inner rounds (insert fs key v) (skip_comma (ignore_blanks rest))
unfolding dict_loop
dict_loop_pair inner rounds fs text key v rest unclosed more reads =
    if_false (starts 125 text) _ _ unclosed
    ∙ if_false (at_end text) _ _ more
    ∙ ap
        (λ o. bind o λ pair rest.
          dict_loop inner rounds (insert fs (pair.0) (pair.1)) (skip_comma (ignore_blanks rest)))
        reads

pub length-Solid : (text : List ℕ) → Solid text → 0 < length text
unfolding Solid
length-Solid text (c, rest, eq, h) = subst (λ t. 0 < length t) (sym eq) (omega arith)

-- A list, and a dict, once its loop has come to the bracket
pub readin_list-text :
    (inner : Reader Json) (rounds : ℕ) (text : List ℕ) (vs : Items) (rest : List ℕ)
    → ignore_blanks text ≡ text
    → at_end text ≡ false
    → list_loop inner rounds no_items text ≡ got vs rest
    → readin_list inner rounds (91 ∷ text) ≡ got (list vs) rest
unfolding readin_list drop
readin_list-text inner rounds text vs rest same more reads =
    if_false (at_end (ignore_blanks text)) _ _ (ap at_end same ∙ more)
    ∙ ap (λ o. bind o λ vs rest. got (list vs) rest)
        (ap (list_loop inner rounds no_items) same ∙ reads)

pub readin_dict-text :
    (inner : Reader Json) (rounds : ℕ) (text : List ℕ) (fs : Fields) (rest : List ℕ)
    → ignore_blanks text ≡ text
    → at_end text ≡ false
    → dict_loop inner rounds no_fields text ≡ got fs rest
    → readin_dict inner rounds (123 ∷ text) ≡ got (dict fs) rest
unfolding readin_dict drop
readin_dict-text inner rounds text fs rest same more reads =
    if_false (at_end (ignore_blanks text)) _ _ (ap at_end same ∙ more)
    ∙ ap (λ o. bind o λ fs rest. got (dict fs) rest)
        (ap (dict_loop inner rounds no_fields) same ∙ reads)
