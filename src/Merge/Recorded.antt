-- ===== src/Merge/Recorded.antt =====
-- merge/merge.go: an induction over everything that a merge records. A predicate that holds for what
-- recordClassed and recordUnencodableFacet build holds for every conflict of the merge.
pub mod Whole
use fuaran_go.Prelude.{
  ids_eq, ids_eq→eq, ℕ, zero, suc, String, ◌≡◌, refl, ◌&&◌, not, Bool, true, false, List, [], ◌∷◌,
  ◌++◌, Option, none, some, All, All-append, arith, Bool-cases, inl, inr, str_eq,
}
use fuaran_go.Wire.Core.{Core, Bytes, bytes_eq}
use fuaran_go.Wire.Value.{Node, id}
use fuaran_go.Wire.Encode.{Encoded, ok, refused, RowCellRefused, encode_node}
use fuaran_go.Merge.Order.{sorted_set}
use fuaran_go.Merge.Refusal.{
  Resolution, Conflict, ConflictClass, record_classed, record_conflict, record_unencodable,
  class_of, pick_facet, pick_canonical, pick_field, text_opt_eq, Merged, bytes_of, concurrent_move,
  delete_modify,
}
use fuaran_go.Merge.Facets.{
  children_of, merge_style, merge_member, merge_direction, style_field, style_field_or,
}
use fuaran_go.Merge.Places.{
  last_of, MoveCtx, new_move_ctx, detect_between, detect_at, detect_all, detect_concurrent_moves,
  keys, compare_moved, contest_cells, or_zero, is_placed,
}
use fuaran_go.Merge.Engine.{
  ids, node_at, children_order, both_changed, delete_cell, delete_cells, survivor_cell,
  insert_twice, recurse_child, merge_children, merge_lists, merge_step, merge3_fuel, merge3,
  merge_whole, variant, join_ids,
}

module _ (P : Conflict → Type 0) (res : Resolution)
    (classed : (i facet : String) (k : ConflictClass) (base_v a_v b_v : Option Bytes)
      → All P (record_classed res i facet k base_v a_v b_v).0)
    (unencodable : (i facet : String) (e : RowCellRefused)
      → All P (record_unencodable res i facet e)) where
  pub record_conflict-All :
      (i facet : String) (base_v a_v b_v : Option Bytes)
      → All P (record_conflict res i facet base_v a_v b_v).0
  unfolding record_conflict
  record_conflict-All i facet base_v a_v b_v = classed i facet (class_of facet) base_v a_v b_v

  pick_canonical-All :
      (i facet : String) (base_c a_c b_c : Bytes)
      → All P (pick_canonical res i facet base_c a_c b_c).0
  unfolding pick_canonical
  pick_canonical-All i facet base_c a_c b_c =
      elim (Bool-cases
        (not (bytes_eq a_c base_c) && not (bytes_eq b_c base_c) && not (bytes_eq a_c b_c))) [
          | inl apart ↦ rw apart (record_conflict-All i facet (some base_c) (some a_c) (some b_c))
          | inr agreed ↦ rw agreed tt
        ]

  pick_field-All :
      (i facet : String) (base_v a_v b_v : Option String)
      → All P (pick_field res i facet base_v a_v b_v).0
  unfolding pick_field
  pick_field-All i facet base_v a_v b_v =
      elim (Bool-cases (
        not (text_opt_eq a_v base_v)
        && not (text_opt_eq b_v base_v)
        && not (text_opt_eq a_v b_v))) [
          | inl apart ↦
              rw apart (record_conflict-All i facet (bytes_of base_v) (bytes_of a_v) (bytes_of b_v))
          | inr agreed ↦ rw agreed tt
        ]

  pub pick_facet-All :
      (i facet : String) (base_c a_c b_c : Encoded)
      → All P (pick_facet res i facet base_c a_c b_c).0
  unfolding pick_facet
  pick_facet-All i facet (refused e) a_c b_c = unencodable i facet e
  pick_facet-All i facet (ok base_c) (refused e) b_c = unencodable i facet e
  pick_facet-All i facet (ok base_c) (ok a_c) (refused e) = unencodable i facet e
  pick_facet-All i facet (ok base_c) (ok a_c) (ok b_c) = pick_canonical-All i facet base_c a_c b_c

  merge_member-All :
      (i : String) (base a b : Node) (facet name : String)
      → All P (merge_member res i base a b facet name).0
  unfolding merge_member
  merge_member-All i base a b facet name = pick_field-All i facet _ _ _

  merge_direction-All : (i : String) (base a b : Node) → All P (merge_direction res i base a b).0
  unfolding merge_direction
  merge_direction-All i base a b = pick_field-All i "style.direction" _ _ _

  pub merge_style-All : (i : String) (base a b : Node) → All P (merge_style res i base a b).0
  unfolding merge_style
  merge_style-All i base a b =
      let member = merge_member-All i base a b in
      All-append P _ _ (member "style.tone" "tone") (
        All-append P _ _ (member "style.weight" "weight") (
          All-append P _ _ (member "style.emphasis" "emphasis") (
            All-append P _ _ (member "style.role" "role") (
              All-append P _ _ (member "style.voice" "voice")
                (All-append P _ [] (merge_direction-All i base a b) tt)))))

  both_changed-All :
      (i : String) (base_ids a_ids b_ids : List String)
      → All P (both_changed res i base_ids a_ids b_ids).0
  unfolding both_changed
  both_changed-All i base_ids a_ids b_ids =
      let recorded : All P _ =
        All-append P _ []
          (record_conflict-All i "children" (some (join_ids base_ids)) (some (join_ids a_ids))
            (some (join_ids b_ids)))
          tt in
      ground (arith, recorded)

  pub children_order-All :
      (i : String) (base_ids a_ids b_ids : List String)
      → All P (children_order res i base_ids a_ids b_ids).0
  unfolding children_order
  children_order-All i base_ids a_ids b_ids = elim (Bool-cases (ids_eq a_ids base_ids)) [
    | inl e ↦ rw e tt
    | inr e ↦ elim (Bool-cases (ids_eq b_ids base_ids)) [
      | inl f ↦ rw (e, f) tt
      | inr f ↦ elim (Bool-cases (ids_eq a_ids b_ids)) [
        | inl g ↦ rw (e, f, g) tt
        | inr g ↦ rw (e, f, g) (both_changed-All i base_ids a_ids b_ids)
      ]
    ]
  ]
