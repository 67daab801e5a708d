-- ===== src/Json/Read.antt =====
-- `SharedJsonVal::JsonParseUtil`: the parser, from its readers up to the switch.
use public_cpp.Base.{
  ℕ, zero, suc, ◌+◌, Bool, true, false, not, Option, none, some, List, [], ◌∷◌, ◌==◌, ◌&&◌, ◌||◌,
  if◌then◌else◌, length, ltb, leb, drop,
}
use public_cpp.Json.{
  Json, Items, Fields, Libc, Outcome, Reader, null, bool, int, double, str, list, dict, no_items,
  no_fields, got, failed, thrown, overread, unfinished, bind, push_back, insert,
}

-- `c == *text`, for a `c` that is not 0
abbrev pub starts : ℕ → List ℕ → Bool
starts c [] = false
starts c (d ∷ text) = d == c

abbrev pub at_end : List ℕ → Bool
at_end [] = true
at_end (d ∷ text) = false

abbrev pub is_digit : ℕ → Bool
is_digit c = leb 48 c && leb c 57

abbrev pub starts_digit : List ℕ → Bool
starts_digit [] = false
starts_digit (c ∷ text) = is_digit c

abbrev pub is_blank : ℕ → Bool
is_blank c = (c == 10) || ((c == 9) || (c == 32))

unfoldable pub ignore_blanks : List ℕ → List ℕ
ignore_blanks [] = []
ignore_blanks (c ∷ text) = let rest = ignore_blanks text in if is_blank c then rest else c ∷ text

-- What is left behind a word the text starts with: the `strlen` and `memcmp` tests
unfoldable pub skip_word : List ℕ → List ℕ → Option (List ℕ)
skip_word [] text = some text
skip_word (w ∷ word) [] = none
skip_word (w ∷ word) (c ∷ text) = let rest = skip_word word text in if w == c then rest else none

abbrev pub word_null : List ℕ
word_null = 110 ∷ 117 ∷ 108 ∷ 108 ∷ []

abbrev pub word_true : List ℕ
word_true = 116 ∷ 114 ∷ 117 ∷ 101 ∷ []

abbrev pub word_false : List ℕ
word_false = 102 ∷ 97 ∷ 108 ∷ 115 ∷ 101 ∷ []

abbrev read_word : List ℕ → Json → Reader Json
read_word word v text = elim (skip_word word text) [
  | none ↦ failed (some text)
  | some rest ↦ got v rest
]

unfoldable pub readin_null : Reader Json
unfolding skip_word
readin_null = read_word word_null null

unfoldable pub readin_true : Reader Json
unfolding skip_word
readin_true = read_word word_true (bool true)

unfoldable pub readin_false : Reader Json
unfolding skip_word
readin_false = read_word word_false (bool false)

abbrev pub add_char : ℕ → Option (List ℕ × List ℕ) → Option (List ℕ × List ℕ)
add_char c none = none
add_char c (some found) = some (c ∷ found.0, found.1)

-- The loop up to the closing quote; the flag says that the character before is a backslash. `none` when
-- it stops at the terminator.
unfoldable pub raw_loop : Bool → List ℕ → Option (List ℕ × List ℕ)
raw_loop escaped [] = none
raw_loop escaped (c ∷ text) =
    let more = add_char c (raw_loop (c == 92) text) in
    if (c == 34) && not escaped then some ([], text) else more

unfoldable pub readin_str_raw : Reader (List ℕ)
unfolding raw_loop
readin_str_raw text =
    if starts 34 text
    then elim (raw_loop false (drop 1 text)) [
      | none ↦ failed (some [])
      | some found ↦ got found.0 found.1
    ]
    else failed (some text)

unfoldable pub readin_str : Reader Json
unfolding readin_str_raw
readin_str text = bind (readin_str_raw text) λ chars rest. got (str chars) rest

unfoldable pub read_in_digits : Libc → Reader Json
read_in_digits libc text =
    let whole = Libc.strtol libc text in
    let real = Libc.strtod libc text in
    if starts 46 (whole.1) then got (double (real.0)) (real.1) else got (int (whole.0)) (whole.1)

abbrev pub skip_comma : List ℕ → List ℕ
skip_comma text = if starts 44 text then drop 1 text else text

-- The loop of `ReadinList_` and its last line, which steps behind the terminator when it meets it
unfoldable pub list_loop : Reader Json → ℕ → Items → Reader Items
unfolding ignore_blanks push_back
list_loop parse zero vs text = unfinished
list_loop parse (suc rounds) vs text =
    let more =
      bind (parse (ignore_blanks text))
        λ v rest. list_loop parse rounds (push_back vs v) (skip_comma (ignore_blanks rest)) in
    if starts 93 text then got vs (drop 1 text) else if at_end text then failed none else more

unfoldable pub readin_list : Reader Json → ℕ → Reader Json
unfolding ignore_blanks list_loop
readin_list parse rounds text =
    let inner = ignore_blanks (drop 1 text) in
    if at_end inner
    then failed (some [])
    else bind (list_loop parse rounds no_items inner) λ vs rest. got (list vs) rest

-- `XFC_FAIL_HANDLE(':'!=*str++)`
unfoldable pub skip_colon : List ℕ → Outcome (Unit {0})
skip_colon text =
    if starts 58 text
    then got tt (drop 1 text)
    else if at_end text
    then failed none
    else failed (some (drop 1 text))

-- `ReadDictPair_`: an empty key is refused with the pointer behind it.
unfoldable pub read_dict_pair : Reader Json → Reader (List ℕ × Json)
unfolding ignore_blanks readin_str_raw skip_colon
read_dict_pair parse text = bind (readin_str_raw text) λ key rest.
    if at_end key
    then failed (some rest)
    else bind (skip_colon (ignore_blanks rest))
        λ _ rest. bind (parse (ignore_blanks rest)) λ v rest. got (key, v) rest

unfoldable pub dict_loop : Reader Json → ℕ → Fields → Reader Fields
unfolding ignore_blanks insert read_dict_pair
dict_loop parse zero fs text = unfinished
dict_loop parse (suc rounds) fs text =
    let more = bind (read_dict_pair parse (ignore_blanks text)) λ pair rest.
      dict_loop parse rounds (insert fs (pair.0) (pair.1)) (skip_comma (ignore_blanks rest)) in
    if starts 125 text then got fs (drop 1 text) else if at_end text then failed none else more

unfoldable pub readin_dict : Reader Json → ℕ → Reader Json
unfolding ignore_blanks dict_loop
readin_dict parse rounds text =
    let inner = ignore_blanks (drop 1 text) in
    if at_end inner
    then failed (some [])
    else bind (dict_loop parse rounds no_fields inner) λ fs rest. got (dict fs) rest

-- ERROR_HANDLE of `ParseJson`: it copies the text from the pointer on, erases from position 20, which
-- throws where the copy is shorter, and returns NULL.
unfoldable pub error_handle : Outcome Json → Outcome Json
error_handle (failed none) = overread
error_handle (failed (some text)) = if ltb (length text) 20 then thrown else failed (some text)
error_handle outcome = outcome

-- The switch on the first character that is not blank
unfoldable pub switch : Libc → Reader Json → ℕ → Reader Json
unfolding readin_null readin_true readin_false readin_str readin_list readin_dict read_in_digits
switch libc parse rounds text =
    if starts 110 text
    then readin_null text
    else if starts 116 text
    then readin_true text
    else if starts 102 text
    then readin_false text
    else if starts 34 text
    then readin_str text
    else if starts 91 text
    then readin_list parse rounds text
    else if starts 123 text
    then readin_dict parse rounds text
    else if starts_digit text || starts 45 text
    then read_in_digits libc text
    else failed (some text)

-- `JsonParseUtil::ParseJson`. The fuel bounds the depth of the nesting and the rounds of each loop.
unfoldable pub parse_json : Libc → ℕ → Reader Json
unfolding ignore_blanks error_handle switch
parse_json libc zero text = unfinished
parse_json libc (suc fuel) text =
    error_handle (switch libc (parse_json libc fuel) fuel (ignore_blanks text))

-- `SharedJsonVal::ParseJson`
unfoldable pub parse : Libc → Reader Json
unfolding parse_json
parse libc text = parse_json libc (length text + 1) text
