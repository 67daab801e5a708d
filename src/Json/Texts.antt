-- ===== src/Json/Texts.antt =====
-- The printed texts, as the readers meet them: their first characters, what stands behind them, and
-- how long they are.
use mathlib.Core.List.{append_assoc}
use public_cpp.Base.{
  if_false, ℕ, suc, ◌+◌, ◌^◌, ◌<◌, ◌≤◌, ◌≡◌, ◌++◌, refl, sym, ap, ◌∙◌, subst, Bool, true, false,
  List, [], ◌∷◌, if◌then◌else◌, length, length-append, drop, arith,
}
use public_cpp.Json.{
  Json, Items, Fields, Libc, null, bool, int, double, str, list, dict, no_items, item, no_fields,
  field, bind, got,
}
use public_cpp.Json.Read.{
  starts, at_end, starts_digit, ignore_blanks, skip_comma, switch, error_handle, parse_json,
  readin_str, read_in_digits,
}
use public_cpp.Json.Dump.{dump_json, dump_items, dump_more_items, dump_fields, dump_more_fields}
use public_cpp.Json.Words.{starts_number}
use public_cpp.Json.Plain.{
  Plain, PlainItems, PlainItems, PutsLong, delimited, quotable, solid, Solid, number-solid,
  delimited-starts_digit, delimited-starts, starts_number-append,
}
use public_cpp.Json.Steps.{
  ignore_blanks-Solid, Solid-at_end, switch-number, readin_str_raw-quotable,
}

-- What a dump is followed by, where the loop of a list stands
unfoldable pub items_text : Libc → Items → List ℕ → List ℕ
items_text libc vs rest = dump_items libc vs ++ (93 ∷ rest)

-- The text of the pairs, with the blank that `DumpJson` writes behind a comma
unfoldable pub fields_text : Libc → Bool → Fields → List ℕ → List ℕ
fields_text libc blank no_fields rest = 125 ∷ rest
fields_text libc true fs rest = 32 ∷ (dump_fields libc fs ++ (125 ∷ rest))
fields_text libc false fs rest = dump_fields libc fs ++ (125 ∷ rest)

module _ (libc : Libc) (puts : PutsLong libc) where
  put_long-Solid : (n : ℕ) (more : List ℕ) → n < 2 ^ 64 → Solid (Libc.put_long libc n ++ more)
  unfolding Solid
  put_long-Solid n more h =
      number_head (Libc.put_long libc n ++ more)
        (starts_number-append (Libc.put_long libc n) more (PutsLong.put_long-starts puts n h))
    where
      number_head :
          (text : List ℕ)
          → starts_number text ≡ true
          → (c : ℕ) × (rest : List ℕ) × (text ≡ c ∷ rest) × (solid c ≡ true)
      number_head [] h = absurd (grind arith)
      number_head (c ∷ text) h = (c, text, refl, number-solid c (starts_digit text) h)

  pub dump_json-Solid : (v : Json) (more : List ℕ) → Plain v → Solid (dump_json libc v ++ more)
  unfolding dump_json Plain Solid
  dump_json-Solid null more h = (110, _, refl, refl)
  dump_json-Solid (bool b) more h = elim h [ ]
  dump_json-Solid (double d) more h = elim h [ ]
  dump_json-Solid (str chars) more h = (34, _, refl, refl)
  dump_json-Solid (list vs) more h = (91, _, refl, refl)
  dump_json-Solid (dict fs) more h = (123, _, refl, refl)
  dump_json-Solid (int n) more h = put_long-Solid n more h

  pub int-trip :
      (n fuel : ℕ) (rest : List ℕ)
      → n < 2 ^ 64
      → delimited rest ≡ true
      → parse_json libc (suc fuel) (Libc.put_long libc n ++ rest) ≡ got (int n) rest
  unfolding parse_json read_in_digits error_handle
  int-trip n fuel rest h ends = ap error_handle (
      ap (switch libc (parse_json libc fuel) fuel)
        (ignore_blanks-Solid (Libc.put_long libc n ++ rest) (put_long-Solid n rest h))
      ∙ switch-number libc (parse_json libc fuel) fuel (Libc.put_long libc n ++ rest)
          (starts_number-append (Libc.put_long libc n) rest (PutsLong.put_long-starts puts n h))
      ∙ ap
          (λ (whole : ℕ × List ℕ).
            if starts 46 (whole.1)
            then got (double ((Libc.strtod libc (Libc.put_long libc n ++ rest)).0))
                ((Libc.strtod libc (Libc.put_long libc n ++ rest)).1)
            else got (int (whole.0)) (whole.1))
          (PutsLong.strtol-put_long puts n rest h (delimited-starts_digit rest ends))
      ∙ if_false _ _ _ (delimited-starts rest ends))

  pub str-trip :
      (chars : List ℕ) (fuel : ℕ) (rest : List ℕ)
      → quotable false chars ≡ true
      → parse_json libc (suc fuel) (34 ∷ (chars ++ (34 ∷ rest))) ≡ got (str chars) rest
  unfolding parse_json switch error_handle readin_str ignore_blanks
  str-trip chars fuel rest h =
      ap (λ o. error_handle (bind o λ chars rest. got (str chars) rest))
        (readin_str_raw-quotable chars rest h)

-- The loops from one item, and one pair, to the next
pub list_next :
    (libc : Libc) (vs : Items) (rest : List ℕ)
    → skip_comma (ignore_blanks (dump_more_items libc vs ++ 93 ∷ rest)) ≡ items_text libc vs rest
unfolding dump_items ignore_blanks items_text drop
list_next libc no_items rest = refl
list_next libc (item v vs) rest = refl

pub dict_next :
    (libc : Libc) (fs : Fields) (rest : List ℕ)
    → skip_comma (ignore_blanks (dump_more_fields libc fs ++ 125 ∷ rest))
      ≡ fields_text libc true fs rest
unfolding dump_fields ignore_blanks fields_text drop
dict_next libc no_fields rest = refl
dict_next libc (field key v fs) rest = refl

pub delimited_items :
    (libc : Libc) (vs : Items) (rest : List ℕ)
    → delimited (dump_more_items libc vs ++ 93 ∷ rest) ≡ true
unfolding dump_items
delimited_items libc no_items rest = refl
delimited_items libc (item v vs) rest = refl

pub delimited_fields :
    (libc : Libc) (fs : Fields) (rest : List ℕ)
    → delimited (dump_more_fields libc fs ++ 125 ∷ rest) ≡ true
unfolding dump_fields
delimited_fields libc no_fields rest = refl
delimited_fields libc (field key v fs) rest = refl

pub length-dump_items :
    (libc : Libc) (vs : Items) → length (dump_items libc vs) ≤ length (dump_more_items libc vs)
unfolding dump_items
length-dump_items libc no_items = omega arith
length-dump_items libc (item v vs) = omega arith

pub length-dump_fields :
    (libc : Libc) (fs : Fields) → length (dump_fields libc fs) ≤ length (dump_more_fields libc fs)
unfolding dump_fields
length-dump_fields libc no_fields = omega arith
length-dump_fields libc (field key v fs) = omega arith

-- The text of a pair, with or without the blank before it
module _ (libc : Libc) (key : List ℕ) (v : Json) (fs : Fields) (rest : List ℕ) where
  pub fields_text-starts :
      (blank : Bool) → starts 125 (fields_text libc blank (field key v fs) rest) ≡ false
  unfolding fields_text dump_fields
  fields_text-starts true = refl
  fields_text-starts false = refl

  pub fields_text-at_end :
      (blank : Bool) → at_end (fields_text libc blank (field key v fs) rest) ≡ false
  unfolding fields_text dump_fields
  fields_text-at_end true = refl
  fields_text-at_end false = refl

  pub fields_text-pair :
      (blank : Bool)
      → ignore_blanks (fields_text libc blank (field key v fs) rest)
        ≡ 34 ∷ (key ++ (34 ∷ 58 ∷ (dump_json libc v ++ (dump_more_fields libc fs ++ 125 ∷ rest))))
  unfolding fields_text dump_fields ignore_blanks
  fields_text-pair blank = without_blank blank ∙ ap (λ t. 34 ∷ t) joined
    where
      joined :
          (key ++ (34 ∷ 58 ∷ (dump_json libc v ++ dump_more_fields libc fs))) ++ (125 ∷ rest)
          ≡ key ++ (34 ∷ 58 ∷ (dump_json libc v ++ (dump_more_fields libc fs ++ 125 ∷ rest)))
      joined =
          append_assoc key _ (125 ∷ rest)
          ∙ ap (λ t. key ++ (34 ∷ 58 ∷ t))
              (append_assoc (dump_json libc v) (dump_more_fields libc fs) (125 ∷ rest))

      without_blank :
          (blank : Bool)
          → ignore_blanks (fields_text libc blank (field key v fs) rest)
            ≡ dump_fields libc (field key v fs) ++ 125 ∷ rest
      without_blank true = refl
      without_blank false = refl

  pub length-dump_fields_pair :
      length (dump_fields libc (field key v fs))
      ≡ 3 + length key + length (dump_json libc v) + length (dump_more_fields libc fs)
  unfolding dump_fields
  length-dump_fields_pair = omega (
    arith,
    length-append key (34 ∷ 58 ∷ (dump_json libc v ++ dump_more_fields libc fs)),
    length-append (dump_json libc v) (dump_more_fields libc fs),
  )

-- The text behind an opening bracket starts with no blank and is not at its end.
pub fields_text-starts_here :
    (libc : Libc) (fs : Fields) (rest : List ℕ)
    → (ignore_blanks (fields_text libc false fs rest) ≡ fields_text libc false fs rest)
      × (at_end (fields_text libc false fs rest) ≡ false)
unfolding fields_text dump_fields ignore_blanks
fields_text-starts_here libc no_fields rest = (refl, refl)
fields_text-starts_here libc (field key v fs) rest = (refl, refl)

pub items_text-starts_here :
    (libc : Libc) (puts : PutsLong libc) (vs : Items) (rest : List ℕ)
    → PlainItems vs
    → (ignore_blanks (items_text libc vs rest) ≡ items_text libc vs rest)
      × (at_end (items_text libc vs rest) ≡ false)
unfolding items_text dump_items ignore_blanks PlainItems
items_text-starts_here libc puts no_items rest h = (refl, refl)
items_text-starts_here libc puts (item v vs) rest (h, _) =
    (ignore_blanks-Solid _ head, Solid-at_end _ head)
  where
    head : Solid ((dump_json libc v ++ dump_more_items libc vs) ++ 93 ∷ rest)
    head =
        subst Solid (sym (append_assoc (dump_json libc v) (dump_more_items libc vs) (93 ∷ rest)))
          (dump_json-Solid libc puts v _ h)

pub fields_text-first :
    (libc : Libc) (fs : Fields) (rest : List ℕ)
    → dump_fields libc fs ++ (125 ∷ rest) ≡ fields_text libc false fs rest
unfolding fields_text dump_fields
fields_text-first libc no_fields rest = refl
fields_text-first libc (field key v fs) rest = refl
