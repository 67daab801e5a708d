-- ===== src/Json/Dump.antt =====
-- `SharedJsonVal::DumpJson`: the characters it writes.
use public_cpp.Base.{Bool, true, false, List, [], ◌∷◌, ◌++◌, ℕ}
use public_cpp.Json.{
  Json, Items, Fields, Libc, null, bool, int, double, str, list, dict, no_items, item, no_fields,
  field,
}
use public_cpp.Json.Read.{word_null}

-- A Boolean is written as a stream does by default.
abbrev put_bool : Bool → List ℕ
put_bool true = 49 ∷ []
put_bool false = 48 ∷ []

-- `"\"" << s << "\""`
abbrev pub quoted : List ℕ → List ℕ → List ℕ
quoted chars rest = 34 ∷ (chars ++ (34 ∷ rest))

unfoldable mutual
  pub dump_json : Libc → Json → List ℕ
  dump_json libc null = word_null
  dump_json libc (bool b) = put_bool b
  dump_json libc (int n) = Libc.put_long libc n
  dump_json libc (double d) = Libc.put_double libc d
  dump_json libc (str chars) = quoted chars []
  dump_json libc (list vs) = 91 ∷ (dump_items libc vs ++ (93 ∷ []))
  dump_json libc (dict fs) = 123 ∷ (dump_fields libc fs ++ (125 ∷ []))

  pub dump_items : Libc → Items → List ℕ
  dump_items libc no_items = []
  dump_items libc (item v vs) = dump_json libc v ++ dump_more_items libc vs

  pub dump_more_items : Libc → Items → List ℕ
  dump_more_items libc no_items = []
  dump_more_items libc (item v vs) = 44 ∷ (dump_json libc v ++ dump_more_items libc vs)

  pub dump_fields : Libc → Fields → List ℕ
  dump_fields libc no_fields = []
  dump_fields libc (field key v fs) =
      quoted key (58 ∷ (dump_json libc v ++ dump_more_fields libc fs))

  pub dump_more_fields : Libc → Fields → List ℕ
  dump_more_fields libc no_fields = []
  dump_more_fields libc (field key v fs) =
      44 ∷ 32 ∷ quoted key (58 ∷ (dump_json libc v ++ dump_more_fields libc fs))
