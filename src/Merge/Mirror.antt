-- ===== src/Merge/Mirror.antt =====
-- merge/merge.go: what a merge records when its two branches change places: the sides of each refusal
-- are transposed. Here the pickers; the children have modules of their own.
pub mod Order
pub mod Cells
pub mod Whole
use fuaran_go.Prelude.{
  String, ◌≡◌, refl, sym, ap, ◌∙◌, Bool, true, false, not, ◌&&◌, ◌||◌, List, [], ◌∷◌, ◌++◌, map,
  map-append, Option, none, some, arith, str_eq, eq_iff, eq_refl, Bool-cases, inl, inr,
  if◌then◌else◌,
}
use fuaran_go.Wire.Core.{Bytes, bytes_eq}
use fuaran_go.Wire.Value.{Node}
use fuaran_go.Wire.Encode.{Encoded, ok, refused, RowCellRefused}
use fuaran_go.Merge.Order.{bytes_eq_iff}
use fuaran_go.Merge.Refusal.{
  Resolution, Conflict, ConflictClass, unencodable_facet, concurrent_edit, reorder_vs_structural,
  delete_modify, concurrent_move, Side, Author, primary_author, secondary_author, resolve_author,
  record_classed, record_conflict, record_unencodable, class_of, winner, Pick, from_base, from_a,
  from_b, pick_field, pick_canonical, pick_facet, text_opt_eq, bytes_of,
}
use fuaran_go.Merge.Facets.{merge_style, merge_member, merge_direction, style_field, style_field_or}

-- the refusal with the values and tags of its two sides exchanged
abbrev pub transpose : Conflict → Conflict
transpose c = record c { a = c.b; b = c.a }

-- the authors' resolution as it is when the branches are given in the other order
abbrev pub swap : Resolution → Resolution
swap res = record res {
  a_is_primary = if res.pin_held then not res.a_is_primary else res.a_is_primary;
  a_tag = res.b_tag;
  b_tag = res.a_tag;
}

pub resolve_author-swap : (x y : Author) → resolve_author y x ≡ swap (resolve_author x y)
unfolding resolve_author
resolve_author-swap primary_author primary_author = refl
resolve_author-swap primary_author (secondary_author t) = refl
resolve_author-swap (secondary_author s) primary_author = refl
resolve_author-swap (secondary_author s) (secondary_author t) = refl

abbrev blank : Side → Side
blank s = record s { value = [] }

-- a refusal without the text that names an encoding error: where neither branch can be encoded, the
-- text is that of the first one
abbrev pub without_detail : Conflict → Conflict
without_detail c = elim c.conflict_class [
  | unencodable_facet ↦ record c { a = blank c.a; b = blank c.b }
  | _ ↦ c
]

abbrev pub Mirrors : List Conflict → List Conflict → Type 0
Mirrors l l' = map without_detail l' ≡ map without_detail (map transpose l)

pub Mirrors-append :
    (xs ys xs' ys' : List Conflict)
    → Mirrors xs xs'
    → Mirrors ys ys'
    → Mirrors (xs ++ ys) (xs' ++ ys')
Mirrors-append xs ys xs' ys' h k = simp (map-append, h, k)

pub flip : Pick → Pick
flip from_base = from_base
flip from_a = from_b
flip from_b = from_a

pub winner-swap : (res : Resolution) → winner (swap res) ≡ flip (winner res)
unfolding winner flip
winner-swap res = ground arith

pub record_classed-swap :
    (res : Resolution) (i facet : String) (k : ConflictClass) (base_v a_v b_v : Option Bytes)
    → (record_classed (swap res) i facet k base_v b_v a_v).0
      ≡ map transpose (record_classed res i facet k base_v a_v b_v).0
unfolding record_classed
record_classed-swap res i facet k base_v a_v b_v = ground arith

pub record_classed-Mirrors :
    (res : Resolution) (i facet : String) (k : ConflictClass) (base_v a_v b_v : Option Bytes)
    → Mirrors
        (record_classed res i facet k base_v a_v b_v).0
        (record_classed (swap res) i facet k base_v b_v a_v).0
record_classed-Mirrors res i facet k base_v a_v b_v =
    ap (map without_detail) (record_classed-swap res i facet k base_v a_v b_v)

pub record_conflict-Mirrors :
    (res : Resolution) (i facet : String) (base_v a_v b_v : Option Bytes)
    → Mirrors
        (record_conflict res i facet base_v a_v b_v).0
        (record_conflict (swap res) i facet base_v b_v a_v).0
unfolding record_conflict
record_conflict-Mirrors res i facet base_v a_v b_v =
    record_classed-Mirrors res i facet (class_of facet) base_v a_v b_v

pub record_unencodable-Mirrors :
    (res : Resolution) (i facet : String) (d e : RowCellRefused)
    → Mirrors (record_unencodable res i facet d) (record_unencodable (swap res) i facet e)
unfolding record_unencodable
record_unencodable-Mirrors res i facet d e = refl

pub bytes_eq_comm : (x y : Bytes) → bytes_eq x y ≡ bytes_eq y x
bytes_eq_comm x y = ground (arith, bytes_eq_iff x y, bytes_eq_iff y x)

pub str_eq_comm : (x y : String) → str_eq x y ≡ str_eq y x
str_eq_comm x y = ground (arith, eq_iff x y, eq_iff y x)

text_opt_eq_comm : (x y : Option String) → text_opt_eq x y ≡ text_opt_eq y x
text_opt_eq_comm none none = refl
text_opt_eq_comm none (some y) = refl
text_opt_eq_comm (some x) none = refl
text_opt_eq_comm (some x) (some y) = str_eq_comm x y

module _ (res : Resolution) (i facet : String) where
  pick_field-Mirrors :
      (base_v a_v b_v : Option String)
      → Mirrors
          (pick_field res i facet base_v a_v b_v).0
          (pick_field (swap res) i facet base_v b_v a_v).0
  unfolding pick_field
  pick_field-Mirrors base_v a_v b_v =
      let recorded =
        record_conflict-Mirrors res i facet (bytes_of base_v) (bytes_of a_v) (bytes_of b_v) in
      rw (text_opt_eq_comm b_v a_v) (elim (Bool-cases (text_opt_eq a_v base_v)) [
        | inl p ↦
            rw p
              (elim (Bool-cases (text_opt_eq b_v base_v)) [ inl q ↦ rw q refl | inr q ↦ rw q refl ])
        | inr p ↦ rw p (elim (Bool-cases (text_opt_eq b_v base_v)) [
          | inl q ↦ rw q refl
          | inr q ↦ rw q (elim (Bool-cases (text_opt_eq a_v b_v)) [
            | inl r ↦ rw r refl
            | inr r ↦ rw r recorded
          ])
        ])
      ])

  pick_canonical-Mirrors :
      (base_c a_c b_c : Bytes)
      → Mirrors
          (pick_canonical res i facet base_c a_c b_c).0
          (pick_canonical (swap res) i facet base_c b_c a_c).0
  unfolding pick_canonical
  pick_canonical-Mirrors base_c a_c b_c =
      let recorded = record_conflict-Mirrors res i facet (some base_c) (some a_c) (some b_c) in
      rw (bytes_eq_comm b_c a_c) (elim (Bool-cases (bytes_eq a_c base_c)) [
        | inl p ↦
            rw p (elim (Bool-cases (bytes_eq b_c base_c)) [ inl q ↦ rw q refl | inr q ↦ rw q refl ])
        | inr p ↦ rw p (elim (Bool-cases (bytes_eq b_c base_c)) [
          | inl q ↦ rw q refl
          | inr q ↦
              rw q
                (elim (Bool-cases (bytes_eq a_c b_c)) [ inl r ↦ rw r refl | inr r ↦ rw r recorded ])
        ])
      ])

  pub pick_facet-Mirrors :
      (base_c a_c b_c : Encoded)
      → Mirrors
          (pick_facet res i facet base_c a_c b_c).0
          (pick_facet (swap res) i facet base_c b_c a_c).0
  unfolding pick_facet
  pick_facet-Mirrors (refused e) a_c b_c = record_unencodable-Mirrors res i facet e e
  pick_facet-Mirrors (ok z) (refused d) (refused e) = record_unencodable-Mirrors res i facet d e
  pick_facet-Mirrors (ok z) (refused d) (ok y) = record_unencodable-Mirrors res i facet d d
  pick_facet-Mirrors (ok z) (ok x) (refused e) = record_unencodable-Mirrors res i facet e e
  pick_facet-Mirrors (ok z) (ok x) (ok y) = pick_canonical-Mirrors z x y

module _ (res : Resolution) (i : String) (base a b : Node) where
  merge_member-Mirrors :
      (facet name : String)
      → Mirrors
          (merge_member res i base a b facet name).0
          (merge_member (swap res) i base b a facet name).0
  unfolding merge_member
  merge_member-Mirrors facet name =
      pick_field-Mirrors res i facet (style_field base name) (style_field a name)
        (style_field b name)

  merge_direction-Mirrors :
      Mirrors (merge_direction res i base a b).0 (merge_direction (swap res) i base b a).0
  unfolding merge_direction
  merge_direction-Mirrors =
      pick_field-Mirrors res i "style.direction" (style_field_or base "direction" "auto")
        (style_field_or a "direction" "auto") (style_field_or b "direction" "auto")

  pub merge_style-Mirrors :
      Mirrors (merge_style res i base a b).0 (merge_style (swap res) i base b a).0
  unfolding merge_style
  merge_style-Mirrors =
      Mirrors-append (m "style.tone" "tone") _ (m' "style.tone" "tone") _
        (merge_member-Mirrors "style.tone" "tone")
        (Mirrors-append (m "style.weight" "weight") _ (m' "style.weight" "weight") _
          (merge_member-Mirrors "style.weight" "weight")
          (Mirrors-append (m "style.emphasis" "emphasis") _ (m' "style.emphasis" "emphasis") _
            (merge_member-Mirrors "style.emphasis" "emphasis")
            (Mirrors-append (m "style.role" "role") _ (m' "style.role" "role") _
              (merge_member-Mirrors "style.role" "role")
              (Mirrors-append (m "style.voice" "voice") _ (m' "style.voice" "voice") _
                (merge_member-Mirrors "style.voice" "voice")
                (Mirrors-append (merge_direction res i base a b).0 []
                  (merge_direction (swap res) i base b a).0 [] merge_direction-Mirrors refl)))))
    where
      m : String → String → List Conflict
      m facet name = (merge_member res i base a b facet name).0

      m' : String → String → List Conflict
      m' facet name = (merge_member (swap res) i base b a facet name).0
