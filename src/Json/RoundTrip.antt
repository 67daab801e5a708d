-- ===== src/Json/RoundTrip.antt =====
-- Parsing what `DumpJson` wrote.
use mathlib.Core.List.{append_assoc}
use public_cpp.Base.{
  ℕ, zero, suc, ◌+◌, ◌<◌, ◌≡◌, ◌++◌, refl, sym, ap, ◌∙◌, subst, Bool, true, false, List, [], ◌∷◌,
  length, length-append, drop, append_nil, arith,
}
use public_cpp.Json.{
  Json, Items, Fields, Libc, null, bool, int, double, str, list, dict, no_items, item, no_fields,
  field, insert, push_back, got,
}
use public_cpp.Json.Read.{
  ignore_blanks, switch, error_handle, parse_json, parse, list_loop, read_dict_pair, dict_loop,
  skip_word, readin_null,
}
use public_cpp.Json.Dump.{dump_json, dump_items, dump_more_items, dump_fields, dump_more_fields}
use public_cpp.Json.Plain.{Plain, PlainItems, PlainFields, PutsLong, delimited}
use public_cpp.Json.Steps.{
  append_items, append_items-push_back, append_items_nil, append_fields, append_fields-insert,
  append_fields_nil, list_loop_item, read_dict_pair-quoted, dict_loop_pair, length-Solid,
  readin_list-text, readin_dict-text,
}
use public_cpp.Json.Texts.{
  items_text, fields_text, dump_json-Solid, int-trip, str-trip, list_next, dict_next,
  delimited_items, delimited_fields, length-dump_items, length-dump_fields, fields_text-starts,
  fields_text-first, fields_text-starts_here, items_text-starts_here, fields_text-at_end,
  fields_text-pair, length-dump_fields_pair,
}

module _ (libc : Libc) (puts : PutsLong libc) where
  -- A value that is parsed back from its text, whatever stands behind it
  Trips : Json → Type 0
  Trips v =
      (fuel : ℕ) (rest : List ℕ)
      → length (dump_json libc v) < fuel
      → delimited rest ≡ true
      → parse_json libc fuel (dump_json libc v ++ rest) ≡ got v rest

  TripsItems : Items → Type 0
  TripsItems vs =
      (fuel rounds : ℕ) (before : Items) (rest : List ℕ)
      → length (dump_items libc vs) < fuel
      → length (dump_items libc vs) < rounds
      → list_loop (parse_json libc fuel) rounds before (items_text libc vs rest)
        ≡ got (append_items before vs) rest

  TripsFields : Fields → Fields → Type 0
  TripsFields before fs =
      (fuel rounds : ℕ) (blank : Bool) (rest : List ℕ)
      → length (dump_fields libc fs) < fuel
      → length (dump_fields libc fs) < rounds
      → dict_loop (parse_json libc fuel) rounds before (fields_text libc blank fs rest)
        ≡ got (append_fields before fs) rest

  length-dump_json : (v : Json) → Plain v → 0 < length (dump_json libc v)
  length-dump_json v h =
      subst (λ t. 0 < length t) (append_nil (dump_json libc v))
        (length-Solid (dump_json libc v ++ []) (dump_json-Solid libc puts v [] h))

  -- One item, then the others
  item-trip : (v : Json) (vs : Items) → Plain v → Trips v → TripsItems vs → TripsItems (item v vs)
  unfolding Trips TripsItems dump_items items_text
  item-trip v vs h trip trips fuel zero before rest enough rounds_enough = absurd (omega arith)
  item-trip v vs h trip trips fuel (suc rounds) before rest enough rounds_enough =
      ap (list_loop (parse_json libc fuel) (suc rounds) before)
        (append_assoc (dump_json libc v) (dump_more_items libc vs) (93 ∷ rest))
      ∙ list_loop_item (parse_json libc fuel) rounds before _ v
          (dump_more_items libc vs ++ 93 ∷ rest) (dump_json-Solid libc puts v _ h)
          (trip fuel _ (omega (arith, whole)) (delimited_items libc vs rest))
      ∙ ap (list_loop (parse_json libc fuel) rounds (push_back before v)) (list_next libc vs rest)
      ∙ trips fuel rounds (push_back before v) rest
          (omega (arith, whole, length-dump_items libc vs))
          (omega (arith, whole, length-dump_items libc vs, length-dump_json v h))
      ∙ ap (λ ws. got ws rest) (append_items-push_back before v vs)
    where
      whole :
          length (dump_items libc (item v vs))
          ≡ length (dump_json libc v) + length (dump_more_items libc vs)
      whole = length-append (dump_json libc v) (dump_more_items libc vs)

  -- One pair, then the others
  field-trip :
      (before : Fields) (key : List ℕ) (v : Json) (fs : Fields)
      → PlainFields before (field key v fs)
      → Trips v
      → TripsFields (insert before key v) fs
      → TripsFields before (field key v fs)
  unfolding Trips TripsFields dump_fields PlainFields
  field-trip before key v fs h trip trips fuel zero blank rest enough rounds_enough =
      absurd (omega arith)
  field-trip before key v fs (quotes, some_key, fresh, h, _) trip trips fuel (suc rounds) blank rest
        enough rounds_enough =
      dict_loop_pair (parse_json libc fuel) rounds before _ key v
        (dump_more_fields libc fs ++ 125 ∷ rest) (fields_text-starts libc key v fs rest blank)
        (fields_text-at_end libc key v fs rest blank)
        (ap (read_dict_pair (parse_json libc fuel)) (fields_text-pair libc key v fs rest blank)
          ∙ read_dict_pair-quoted (parse_json libc fuel) key _ v
              (dump_more_fields libc fs ++ 125 ∷ rest) quotes some_key
              (dump_json-Solid libc puts v _ h)
              (trip fuel _ (omega (arith, length-dump_fields_pair libc key v fs rest))
                (delimited_fields libc fs rest)))
      ∙ ap (dict_loop (parse_json libc fuel) rounds (insert before key v)) (dict_next libc fs rest)
      ∙ trips fuel rounds true rest
          (omega (arith, length-dump_fields_pair libc key v fs rest, length-dump_fields libc fs))
          (omega (arith, length-dump_fields_pair libc key v fs rest, length-dump_fields libc fs))
      ∙ ap (λ gs. got gs rest) (append_fields-insert before key v fs fresh)

  null-trip : Trips null
  unfolding Trips dump_json parse_json ignore_blanks switch readin_null skip_word error_handle
  null-trip zero rest enough ends = absurd (omega arith)
  null-trip (suc fuel) rest enough ends = refl

  str-Trips : (chars : List ℕ) → Plain (str chars) → Trips (str chars)
  unfolding Trips dump_json Plain
  str-Trips chars h zero rest enough ends = absurd (omega arith)
  str-Trips chars h (suc fuel) rest enough ends =
      ap (λ t. parse_json libc (suc fuel) (34 ∷ t)) (append_assoc chars (34 ∷ []) rest)
      ∙ str-trip libc puts chars fuel rest h

  int-Trips : (n : ℕ) → Plain (int n) → Trips (int n)
  unfolding Trips dump_json Plain
  int-Trips n h zero rest enough ends = absurd (omega arith)
  int-Trips n h (suc fuel) rest enough ends = int-trip libc puts n fuel rest h ends

  end_of_items : TripsItems no_items
  unfolding TripsItems items_text dump_items list_loop drop
  end_of_items fuel zero before rest enough rounds_enough = absurd (omega arith)
  end_of_items fuel (suc rounds) before rest enough rounds_enough =
      ap (λ ws. got ws rest) (sym (append_items_nil before))

  end_of_fields : (before : Fields) → TripsFields before no_fields
  unfolding TripsFields fields_text dump_fields dict_loop drop
  end_of_fields before fuel zero blank rest enough rounds_enough = absurd (omega arith)
  end_of_fields before fuel (suc rounds) blank rest enough rounds_enough =
      ap (λ gs. got gs rest) (sym (append_fields_nil before))

  list-Trips : (vs : Items) → PlainItems vs → TripsItems vs → Trips (list vs)
  unfolding Trips TripsItems dump_json parse_json switch error_handle ignore_blanks items_text
      append_items
  list-Trips vs h trips zero rest enough ends = absurd (omega arith)
  list-Trips vs h trips (suc fuel) rest enough ends =
      ap (parse_json libc (suc fuel))
        (ap (λ t. 91 ∷ t) (append_assoc (dump_items libc vs) (93 ∷ []) rest))
      ∙ ap error_handle (
          readin_list-text (parse_json libc fuel) fuel (items_text libc vs rest) vs rest
            ((items_text-starts_here libc puts vs rest h).0)
            ((items_text-starts_here libc puts vs rest h).1)
            (trips fuel fuel no_items rest (omega (arith, whole)) (omega (arith, whole))))
    where
      whole : length (dump_items libc vs ++ (93 ∷ [])) ≡ length (dump_items libc vs) + 1
      whole = length-append (dump_items libc vs) (93 ∷ [])

  dict-Trips : (fs : Fields) → PlainFields no_fields fs → TripsFields no_fields fs → Trips (dict fs)
  unfolding Trips TripsFields dump_json parse_json switch error_handle ignore_blanks fields_text
      append_fields
  dict-Trips fs h trips zero rest enough ends = absurd (omega arith)
  dict-Trips fs h trips (suc fuel) rest enough ends =
      ap (parse_json libc (suc fuel)) (
        ap (λ t. 123 ∷ t)
          (append_assoc (dump_fields libc fs) (125 ∷ []) rest ∙ fields_text-first libc fs rest))
      ∙ ap error_handle (
          readin_dict-text (parse_json libc fuel) fuel (fields_text libc false fs rest) fs rest
            ((fields_text-starts_here libc fs rest).0) ((fields_text-starts_here libc fs rest).1)
            (trips fuel fuel false rest (omega (arith, whole)) (omega (arith, whole))))
    where
      whole : length (dump_fields libc fs ++ (125 ∷ [])) ≡ length (dump_fields libc fs) + 1
      whole = length-append (dump_fields libc fs) (125 ∷ [])

  mutual
    unfolding Plain

    json-trip : (v : Json) → Plain v → Trips v
    json-trip null h = null-trip
    json-trip (bool b) h = elim h [ ]
    json-trip (double d) h = elim h [ ]
    json-trip (int n) h = int-Trips n h
    json-trip (str chars) h = str-Trips chars h
    json-trip (list vs) h = list-Trips vs h (items-trip vs h)
    json-trip (dict fs) h = dict-Trips fs h (fields-trip no_fields fs h)

    items-trip : (vs : Items) → PlainItems vs → TripsItems vs
    items-trip no_items h = end_of_items
    items-trip (item v vs) (h, hs) = item-trip v vs h (json-trip v h) (items-trip vs hs)

    fields-trip : (before fs : Fields) → PlainFields before fs → TripsFields before fs
    fields-trip before no_fields h = end_of_fields before
    fields-trip before (field key v fs) (quotes, some_key, fresh, h, hs) =
        field-trip before key v fs (quotes, some_key, fresh, h, hs) (json-trip v h)
          (fields-trip (insert before key v) fs hs)

-- For each value that is Plain - no Boolean, no `double`, strings and keys that may stand between
-- quotes, no key empty or twice - parsing what `DumpJson` writes gives that value and ends at the
-- terminator.
pub parse-dump_json :
    (libc : Libc) → PutsLong libc → (v : Json) → Plain v → parse libc (dump_json libc v) ≡ got v []
unfolding parse Trips
parse-dump_json libc puts v h =
    ap (parse_json libc (length (dump_json libc v) + 1)) (sym (append_nil (dump_json libc v)))
    ∙ json-trip libc puts v h (length (dump_json libc v) + 1) [] (omega arith) refl
