-- ===== src/Merge/Refusal.antt =====
-- merge/merge.go: the refusals of a merge, who wrote the two branches, and the pickers that take one
-- of two edits or refuse. What the Go code appends to `*conflicts` is the first part of a result.
use fuaran_go.Prelude.{
  String, Bool, true, false, not, ◌&&◌, List, [], ◌∷◌, ◌++◌, Option, none, some, str_eq,
  if◌then◌else◌,
}
use fuaran_go.Wire.Core.{Bytes, codes, bytes_eq, itoa, format_int}
use fuaran_go.Wire.Encode.{Encoded, ok, refused, RowCellRefused}

pub data ConflictClass : Type 0 where
  concurrent_edit : ConflictClass
  reorder_vs_structural : ConflictClass
  delete_modify : ConflictClass
  concurrent_move : ConflictClass
  unencodable_facet : ConflictClass

pub data Choice : Type 0 where
  keep_primary : Choice
  keep_secondary : Choice
  keep_base : Choice
  keep_a : Choice
  keep_b : Choice

pub record Side : Type 0 where
  pub value : Bytes
  pub side_tag : Option String

-- A nil pointer to a string is `none`.
pub record Conflict : Type 0 where
  pub node_id : String
  pub facet : String
  pub conflict_class : ConflictClass
  pub base : Option Bytes
  pub a : Side
  pub b : Side
  pub primary : Option Bytes
  pub secondary : Option Bytes
  pub secondary_tag : Option String
  pub primacy_held : Bool
  pub choices : List Choice

pub data Author : Type 0 where
  primary_author : Author
  secondary_author : Option String → Author

pub record Resolution : Type 0 where
  pub a_is_primary : Bool
  pub pin_held : Bool
  pub menu : List Choice
  pub loser_tag : Option String
  pub a_tag : Option String
  pub b_tag : Option String

unfoldable pub tag_of : Author → Option String
tag_of primary_author = none
tag_of (secondary_author t) = t

abbrev pinned_menu : List Choice
pinned_menu = keep_primary ∷ keep_secondary ∷ keep_base ∷ []

unfoldable pub resolve_author : Author → Author → Resolution
unfolding tag_of
resolve_author primary_author (secondary_author t) = record {
  a_is_primary = true;
  pin_held = true;
  menu = pinned_menu;
  loser_tag = t;
  a_tag = none;
  b_tag = t;
}
resolve_author (secondary_author t) primary_author = record {
  a_is_primary = false;
  pin_held = true;
  menu = pinned_menu;
  loser_tag = t;
  a_tag = t;
  b_tag = none;
}
resolve_author (secondary_author s) (secondary_author t) = record {
  a_is_primary = false;
  pin_held = false;
  menu = keep_base ∷ keep_a ∷ keep_b ∷ [];
  loser_tag = none;
  a_tag = s;
  b_tag = t;
}
resolve_author primary_author primary_author = record {
  a_is_primary = false;
  pin_held = false;
  menu = keep_base ∷ [];
  loser_tag = none;
  a_tag = none;
  b_tag = none;
}

unfoldable pub agnostic : Resolution
unfolding resolve_author
agnostic = resolve_author (secondary_author none) (secondary_author none)

-- A value with the refusals that were recorded on the way to it.
abbrev pub Merged : Type 0 → Type 0
Merged A = List Conflict × A

infixl 5 ◌>>=◌
abbrev pub ◌>>=◌ : {A B : Type 0} → Merged A → (A → Merged B) → Merged B
m >>= f = let r = f m.1 in (m.0 ++ r.0, r.1)

-- which of the three trees a value is taken from
pub data Pick : Type 0 where
  from_base : Pick
  from_a : Pick
  from_b : Pick

abbrev pub pick {ℓ} : {A : Type ℓ} → Pick → A → A → A → A
pick from_base x y z = x
pick from_a x y z = y
pick from_b x y z = z

abbrev pub deref : Option Bytes → Bytes
deref none = []
deref (some s) = s

abbrev held {ℓ} : {A : Type ℓ} → Bool → Option A → Option A
held pin v = if pin then v else none

-- which side a refusal keeps: the primary one if a pin is held, else the base
unfoldable pub winner : Resolution → Pick
winner res = if res.pin_held then (if res.a_is_primary then from_a else from_b) else from_base

unfoldable pub record_classed :
    Resolution
    → String
    → String
    → ConflictClass
    → Option Bytes
    → Option Bytes
    → Option Bytes
    → Merged Pick
unfolding winner
record_classed res node_id facet conflict_class base_v a_v b_v = (
  record {
    node_id = node_id;
    facet = facet;
    conflict_class = conflict_class;
    base = base_v;
    a = record { value = deref a_v; side_tag = res.a_tag };
    b = record { value = deref b_v; side_tag = res.b_tag };
    primary = held res.pin_held (if res.a_is_primary then a_v else b_v);
    secondary = held res.pin_held (if res.a_is_primary then b_v else a_v);
    secondary_tag = res.loser_tag;
    primacy_held = res.pin_held;
    choices = res.menu;
  }
      ∷ [],
  winner res,
)

unfoldable pub class_of : String → ConflictClass
class_of facet = if str_eq facet "children" then reorder_vs_structural else concurrent_edit

unfoldable pub record_conflict :
    Resolution → String → String → Option Bytes → Option Bytes → Option Bytes → Merged Pick
unfolding record_classed class_of
record_conflict res node_id facet base_v a_v b_v =
    record_classed res node_id facet (class_of facet) base_v a_v b_v

-- RowCellRefusedError.Error
unfoldable pub error_text : RowCellRefused → Bytes
error_text e =
    codes "row "
    ++ itoa e.row
    ++ codes ", cell '"
    ++ codes e.key
    ++ codes "': the integer "
    ++ format_int e.value
    ++ codes " is outside +/-2^53, so no JSON number holds it exactly; carry it as a string ("
    ++ codes "ROW_CELL_INEXACT_INTEGER"
    ++ codes ")"

unfoldable pub record_unencodable : Resolution → String → String → RowCellRefused → List Conflict
unfolding error_text
record_unencodable res node_id facet e =
    let detail = codes "facet could not be canonically encoded: " ++ error_text e in
    record {
      node_id = node_id;
      facet = facet;
      conflict_class = unencodable_facet;
      base = none;
      a = record { value = detail; side_tag = res.a_tag };
      b = record { value = detail; side_tag = res.b_tag };
      primary = none;
      secondary = none;
      secondary_tag = res.loser_tag;
      primacy_held = false;
      choices = res.menu;
    }
    ∷ []

abbrev pub text_opt_eq : Option String → Option String → Bool
text_opt_eq none none = true
text_opt_eq (some s) (some t) = str_eq s t
text_opt_eq _ _ = false

abbrev pub bytes_of : Option String → Option Bytes
bytes_of none = none
bytes_of (some s) = some (codes s)

abbrev pub field_conflict :
    Resolution → String → String → Option String → Option String → Option String → Merged Pick
field_conflict res node_id facet base_v a_v b_v =
    record_conflict res node_id facet (bytes_of base_v) (bytes_of a_v) (bytes_of b_v)

-- pickField: a style member, where an absent one is nil
unfoldable pub pick_field :
    Resolution
    → String
    → String
    → Option String
    → Option String
    → Option String
    → Merged (Option String)
unfolding record_conflict
pick_field res node_id facet base_v a_v b_v =
    let a_changed = not (text_opt_eq a_v base_v) in
    let b_changed = not (text_opt_eq b_v base_v) in
    if a_changed && b_changed && not (text_opt_eq a_v b_v)
    then (
      (field_conflict res node_id facet base_v a_v b_v).0,
      pick (field_conflict res node_id facet base_v a_v b_v).1 base_v a_v b_v,
    )
    else ([], if a_changed then a_v else if b_changed then b_v else base_v)

-- pickCanonical: a facet that is compared by its canonical bytes
unfoldable pub pick_canonical : Resolution → String → String → Bytes → Bytes → Bytes → Merged Pick
unfolding record_conflict
pick_canonical res node_id facet base_c a_c b_c =
    let a_changed = not (bytes_eq a_c base_c) in
    let b_changed = not (bytes_eq b_c base_c) in
    if a_changed && b_changed && not (bytes_eq a_c b_c)
    then record_conflict res node_id facet (some base_c) (some a_c) (some b_c)
    else ([], if a_changed then from_a else if b_changed then from_b else from_base)

-- a facet of merge3: refused where a projection has no canonical bytes, the first one in the order
-- base, a, b
unfoldable pub pick_facet : Resolution → String → String → Encoded → Encoded → Encoded → Merged Pick
unfolding record_unencodable pick_canonical
pick_facet res node_id facet (refused e) a_c b_c =
    (record_unencodable res node_id facet e, from_base)
pick_facet res node_id facet (ok base_c) (refused e) b_c =
    (record_unencodable res node_id facet e, from_base)
pick_facet res node_id facet (ok base_c) (ok a_c) (refused e) =
    (record_unencodable res node_id facet e, from_base)
pick_facet res node_id facet (ok base_c) (ok a_c) (ok b_c) =
    pick_canonical res node_id facet base_c a_c b_c
