-- ===== src/Ops/Prop/Path.antt =====
-- ops/prop.go: the path grammar. A path is read character by character; an index is an int64 and
-- wraps around.
use fuaran_go.Prelude.{
  ℕ, ◌+◌, ◌-◌, ◌*◌, ◌%◌, ◌^◌, List, [], ◌∷◌, ◌++◌, Bool, true, false, ◌&&◌, ◌||◌, Option, none,
  some, ltb, leb, ◌==◌, if◌then◌else◌, ◌≡◌, refl,
}
use fuaran_go.Prelude.Int.{ℤ, pos, negsuc}
use fuaran_go.Wire.Core.{Bytes, codes}

pub record PathSeg : Type 0 where
  pub field : Bytes
  pub index : ℤ
  pub has_index : Bool

pub data PathFault : Type 0 where
  empty_path empty_segment not_a_field malformed_index not_decimal leading_zero : PathFault

pub data Parsed {ℓ} (A : Type ℓ) : Type ℓ where
  parsed : A → Parsed A
  bad : PathFault → Parsed A

abbrev pub is_field_start : ℕ → Bool
is_field_start c = (leb b'A' c && leb c b'Z') || ((leb b'a' c && leb c b'z') || c == b'_')

abbrev pub is_digit : ℕ → Bool
is_digit c = leb b'0' c && leb c b'9'

abbrev pub is_field_char : ℕ → Bool
is_field_char c = is_field_start c || is_digit c

-- unicode.IsSpace
abbrev is_space : ℕ → Bool
is_space c =
    (leb 9 c && leb c 13)
    || c == 32
    || c == 0x85
    || c == 0xa0
    || c == 0x1680
    || (leb 0x2000 c && leb c 0x200a)
    || c == 0x2028
    || c == 0x2029
    || c == 0x202f
    || c == 0x205f
    || c == 0x3000

-- whether the text is empty once trimmed
unfoldable pub all_space : Bytes → Bool
all_space [] = true
all_space (c ∷ cs) = is_space c && all_space cs

-- the part in front of the first `[`, and the rest from it, if there is one
unfoldable pub cut_bracket : Bytes → Bytes → Bytes × Option Bytes
cut_bracket seen [] = (seen, none)
cut_bracket seen (c ∷ cs) =
    if c == b'[' then (seen, some (c ∷ cs)) else cut_bracket (seen ++ c ∷ []) cs

unfoldable pub all_field_chars : Bytes → Bool
all_field_chars [] = true
all_field_chars (c ∷ cs) = is_field_char c && all_field_chars cs

abbrev is_field : Bytes → Bool
is_field [] = false
is_field (c ∷ cs) = is_field_start c && all_field_chars cs

-- the digits between the brackets, for `[…]` of at least three characters
unfoldable pub drop_last : Bytes → Option Bytes
drop_last [] = none
drop_last (c ∷ []) = if c == b']' then some [] else none
drop_last (c ∷ d ∷ cs) = elim (drop_last (d ∷ cs)) [ none ↦ none | some ds ↦ some (c ∷ ds) ]

-- `index = index*10 + int(c-'0')` in 64 bits
unfoldable pub scan_index : Bytes → ℕ → Option ℕ
scan_index [] n = some n
scan_index (c ∷ cs) n = if is_digit c then scan_index cs ((n * 10 + (c - b'0')) % 2 ^ 64) else none

-- the signed reading of 64 bits
abbrev pub to_int64 : ℕ → ℤ
to_int64 n = if ltb n (2 ^ 63) then pos n else negsuc (2 ^ 64 - n - 1)

abbrev has_leading_zero : Bytes → Bool
has_leading_zero (c ∷ d ∷ cs) = c == b'0'
has_leading_zero _ = false

abbrev indexed : Bytes → Bytes → Option ℕ → Parsed PathSeg
indexed f digits none = bad not_decimal
indexed f digits (some n) =
    if has_leading_zero digits
    then bad leading_zero
    else parsed (record { field = f; index = to_int64 n; has_index = true })

abbrev between_brackets : Bytes → Option Bytes
between_brackets [] = none
between_brackets (c ∷ cs) = drop_last cs

abbrev parse_index : Bytes → Option Bytes → Parsed PathSeg
parse_index f none = bad malformed_index
parse_index f (some []) = bad malformed_index
parse_index f (some (d ∷ ds)) = indexed f (d ∷ ds) (scan_index (d ∷ ds) 0)

abbrev parse_cut : Bytes × Option Bytes → Parsed PathSeg
parse_cut (f, none) =
    if is_field f
    then parsed (record { field = f; index = pos 0; has_index = false })
    else bad not_a_field
parse_cut (f, some rest) =
    if is_field f then parse_index f (between_brackets rest) else bad not_a_field

unfoldable pub parse_segment : Bytes → Parsed PathSeg
unfolding cut_bracket all_field_chars drop_last scan_index
parse_segment [] = bad empty_segment
parse_segment (c ∷ cs) = parse_cut (cut_bracket [] (c ∷ cs))

-- strings.Split(path, ".")
unfoldable pub split_dots : Bytes → Bytes → List Bytes
split_dots cur [] = cur ∷ []
split_dots cur (c ∷ cs) =
    let next = split_dots [] cs in
    let more = split_dots (cur ++ c ∷ []) cs in if c == b'.' then cur ∷ next else more

unfoldable pub parse_segments : List Bytes → Parsed (List PathSeg)
parse_segments [] = parsed []
parse_segments (raw ∷ raws) = elim (parse_segment raw) [
  | bad e ↦ bad e
  | parsed s ↦ elim (parse_segments raws) [ bad e ↦ bad e | parsed ss ↦ parsed (s ∷ ss) ]
]

unfoldable pub parse_path : Bytes → Parsed (List PathSeg)
unfolding all_space split_dots parse_segments
parse_path path = if all_space path then bad empty_path else parse_segments (split_dots [] path)

path_runs :
    parse_path (codes "Columns[12].Label")
    ≡ parsed (
        record { field = codes "Columns"; index = pos 12; has_index = true }
        ∷ record { field = codes "Label"; index = pos 0; has_index = false }
        ∷ [])
unfolding parse_path parse_segment
path_runs = refl

-- An index past the largest int64 is read as a negative number.
index_wraps :
    parse_path (codes "YFields[9223372036854775808]")
    ≡ parsed
        (record { field = codes "YFields"; index = negsuc (2 ^ 63 - 1); has_index = true } ∷ [])
unfolding parse_path parse_segment
index_wraps = refl
