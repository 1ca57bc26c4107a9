-- ===== src/Wire/Encode.antt =====
-- wire/encode.go and wire/rowfeed.go: the canonical encoder. The entries of an object are encoded
-- first and then written in key order, which gives the bytes that encoding them in key order gives.
use fuaran_go.Prelude.{
  ℕ, zero, suc, ◌-◌, ◌/◌, ◌%◌, ◌^◌, String, List, [], ◌∷◌, ◌++◌, Bool, true, false, not, ◌&&◌, ◌||◌,
  Option, none, some, str_eq, ltb, leb, ◌==◌, if◌then◌else◌,
}
use fuaran_go.Prelude.Int.{ℤ, pos, negsuc}
use fuaran_go.Wire.Core.{Core, Bytes, codes, format_int, bytes_eq}
use fuaran_go.Wire.Size.{fields_size}
use fuaran_go.Wire.Value.{
  Value, str, int, float, bool, null, arr, obj, node, Values, nil, cons, Obj, tagged, Fields, end,
  field, Node, envelope, get, as_arr, as_obj, as_int, tag, fields,
}
use fuaran_go.Idl.Types.{Kind, is_omit_default}
use fuaran_go.Idl.Lookup.{kind_by_tag, field_in}

-- the position of the row in the feed, and the key of the cell
pub record RowCellRefused : Type 0 where
  pub row : ℕ
  pub key : String
  pub value : ℤ

pub data Encoded : Type 0 where
  ok : Bytes → Encoded
  refused : RowCellRefused → Encoded

abbrev pub exact_integer_limit : ℕ
exact_integer_limit = 2 ^ 53

abbrev is_inexact : ℤ → Bool
is_inexact (pos n) = ltb exact_integer_limit n
is_inexact (negsuc n) = ltb exact_integer_limit (suc n)

abbrev payload_int_max : ℕ
payload_int_max = 2 ^ 53 - 1

abbrev in_payload_range : ℤ → Bool
in_payload_range (pos n) = leb n payload_int_max
in_payload_range (negsuc n) = leb (suc n) payload_int_max

pub keys_of : Fields → List String
keys_of end = []
keys_of (field k v fs) = k ∷ keys_of fs

-- the sign, exponent and fraction of the 64 bits of a float
abbrev exponent : ℕ → ℕ
exponent b = b / 2 ^ 52 % 2 ^ 11

abbrev fraction : ℕ → ℕ
fraction b = b % 2 ^ 52

module _ (core : Core) where
  -- the first cell of a row, in key order, that no JSON number holds exactly
  pub check_cells : ℕ → Fields → List String → Option RowCellRefused
  check_cells i fs [] = none
  check_cells i fs (k ∷ ks) = elim (as_int (get k fs)) [
    | none ↦ check_cells i fs ks
    | some n ↦
        if is_inexact n then some (record { row = i; key = k; value = n }) else check_cells i fs ks
  ]

  pub check_rows : ℕ → List Value → Option RowCellRefused
  check_rows i [] = none
  check_rows i (obj (tagged t fs) ∷ rows) = elim (check_cells i fs (core.sort_keys (keys_of fs))) [
    | some e ↦ some e
    | none ↦ check_rows (suc i) rows
  ]
  check_rows i (v ∷ rows) = check_rows (suc i) rows

  abbrev check_row_payload : Option Value → Option RowCellRefused
  check_row_payload v = elim (as_arr v) [ none ↦ none | some rows ↦ check_rows 0 rows ]

  -- on fuel: each Local binding is nested in the one above it
  check_row_feed : ℕ → Option Value → Option RowCellRefused
  check_row_feed zero v = none
  check_row_feed (suc f) v = elim (as_obj v) [
    | none ↦ none
    | some b ↦
        let local = check_row_feed f (get "initialFrom" (fields b)) in
        if str_eq (tag b) "Static"
        then check_row_payload (get "value" (fields b))
        else if str_eq (tag b) "State"
        then check_row_payload (get "defaultValue" (fields b))
        else if str_eq (tag b) "Local"
        then local
        else none
  ]

  abbrev is_row_feed_kind : String → Bool
  is_row_feed_kind t = str_eq t "DataGrid" || str_eq t "Chart"

  abbrev row_feed_check : String → Fields → Option RowCellRefused
  row_feed_check t fs =
      if is_row_feed_kind t then check_row_feed (fields_size fs) (get "source" fs) else none

  append_int : ℤ → Bytes
  append_int i =
      if in_payload_range i then format_int i else core.format_finite_double (core.float_of_int i)

  append_float : ℕ → Bytes
  append_float b =
      if exponent b == 2047
      then if not (fraction b == 0)
        then codes "\"NaN\""
        else if ltb b (2 ^ 63)
        then codes "\"Infinity\""
        else codes "\"-Infinity\""
      else core.format_finite_double b

  -- the elements, with commas between them, behind what is written so far
  join_encoded : Bool → Bytes → List Encoded → Encoded
  join_encoded first out [] = ok out
  join_encoded first out (refused e ∷ rest) = refused e
  join_encoded first out (ok b ∷ rest) =
      join_encoded false (out ++ ((if first then [] else b',' ∷ []) ++ b)) rest

  close : Bytes → Encoded → Encoded
  close end_bytes (ok b) = ok (b ++ end_bytes)
  close end_bytes (refused e) = refused e

  entry_of : String → List (String × Encoded) → Encoded
  entry_of k [] = ok []
  entry_of k ((j, e) ∷ rest) = if str_eq j k then e else entry_of k rest

  keyed : String → Encoded → Encoded
  keyed k (ok b) = ok (core.escape_string k ++ (b':' ∷ b))
  keyed k (refused e) = refused e

  entries_for : List String → List (String × Encoded) → List Encoded
  entries_for [] es = []
  entries_for (k ∷ ks) es = keyed k (entry_of k es) ∷ entries_for ks es

  keys_in : List (String × Encoded) → List String
  keys_in [] = []
  keys_in ((k, e) ∷ es) = k ∷ keys_in es

  -- an object with its entries in key order
  write_object : List (String × Encoded) → Encoded
  unfolding join_encoded close entry_of keyed entries_for keys_in
  write_object es =
      close (b'}' ∷ [])
        (join_encoded true (b'{' ∷ []) (entries_for (core.sort_keys (keys_in es)) es))

  with_tag : String → List (String × Encoded) → List (String × Encoded)
  with_tag t es = if str_eq t "" then es else es ++ (("$type", ok (core.escape_string t)) ∷ [])

  abbrev matches : Encoded → String → Bool
  matches (ok b) d = bytes_eq b (codes d)
  matches (refused e) d = false

  -- whether the canonical form of a kind leaves the entry out
  omitted : Option Kind → String → Encoded → Bool
  omitted none k e = false
  omitted (some row) k e = elim (field_in row.fields k) [
    | none ↦ false
    | some f ↦ is_omit_default f.optionality && matches e f.default
  ]

  omit_defaults : Option Kind → List (String × Encoded) → List (String × Encoded)
  unfolding omitted
  omit_defaults row [] = []
  omit_defaults row ((k, e) ∷ es) =
      let rest = omit_defaults row es in if omitted row k e then rest else (k, e) ∷ rest

  abbrev checked : Option RowCellRefused → Encoded → Encoded
  checked none e = e
  checked (some r) e = refused r

  unfoldable mutual
    unfolding append_int append_float close join_encoded write_object with_tag omit_defaults
        check_row_feed

    pub encode_value : Value → Encoded
    encode_value (str s) = ok (core.escape_string s)
    encode_value (int i) = ok (append_int i)
    encode_value (float b) = ok (append_float b)
    encode_value (bool true) = ok (codes "true")
    encode_value (bool false) = ok (codes "false")
    encode_value null = ok (codes "null")
    encode_value (arr vs) = close (b']' ∷ []) (join_encoded true (b'[' ∷ []) (encode_values vs))
    encode_value (obj o) = encode_obj o
    encode_value (node n) = encode_node n

    pub encode_values : Values → List Encoded
    encode_values nil = []
    encode_values (cons v vs) = encode_value v ∷ encode_values vs

    pub encode_fields : Fields → List (String × Encoded)
    encode_fields end = []
    encode_fields (field k v fs) = (k, encode_value v) ∷ encode_fields fs

    pub encode_obj : Obj → Encoded
    encode_obj (tagged t fs) =
        checked (row_feed_check t fs) (write_object (with_tag t (encode_fields fs)))

    -- the kind of a node, its members at their default left out
    pub encode_kind : Obj → Encoded
    encode_kind (tagged t fs) =
        checked (row_feed_check t fs)
          (write_object (with_tag t (omit_defaults (kind_by_tag t) (encode_fields fs))))

    pub encode_node : Node → Encoded
    encode_node (envelope i k x) =
        write_object (("id", ok (core.escape_string i)) ∷ ("kind", encode_kind k) ∷ encode_fields x)
