-- ===== src/Ops/Placement/Tests.antt =====
-- Orders of three siblings, and a child placed and nudged in a small tree.
use fuaran_go.Prelude.{◌≡◌, refl, String, List, [], ◌∷◌}
use fuaran_go.Wire.Size.{value_size}
use fuaran_go.Wire.Value.{Obj, get}
use fuaran_go.Idl.Lookup.{
  ordered_children, kind_by_tag, find_kind, node_list_slot, node_arms, node_slots,
}
use fuaran_go.Idl.Kinds.{kinds}
use fuaran_go.Ops.Traverse.{
  all_ids, find_node, find_layout_parent, over, walk, child_slots, children, kind_slots,
  state_slots, layout_slots, key_slots, layout_children, switch_cases, case_slots,
}
use fuaran_go.Ops.Tests.Trees.{plain_core, leaf, tree, tree-Unique}
use fuaran_go.Ops.Laws.Unique.{Unique}
use fuaran_go.Ops.Laws.Guard.{any_repeated-Unique}
use fuaran_go.Ops.Placement.{
  Placement, placed, denied, unknown_anchor, reposition, before, after, Target, insert_child_op,
  reorder_children_op, batch_op, place_op, last, duplicate_id, nudge_out_of_range, nudge_op,
}
use fuaran_go.Prelude.Int.{negsuc, pos}
use fuaran_go.Ops.Placement.Nudge.{IsNudged, nudge_op-IsNudged}
use fuaran_go.Ops.Placement.Applies.{IsPlaced, place_op-IsPlaced}

abbrev abc : List String
abc = "a" ∷ "b" ∷ "c" ∷ []

abbrev before_b : Placement
before_b = record { place = before; anchor = "b" }

moved_before : reposition abc "c" "p" before_b ≡ placed ("a" ∷ "c" ∷ "b" ∷ [])
unfolding reposition
moved_before = refl

moved_after :
    reposition abc "a" "p" (record { place = after; anchor = "b" }) ≡ placed ("b" ∷ "a" ∷ "c" ∷ [])
unfolding reposition
moved_after = refl

-- the node itself is no anchor
no_anchor :
    reposition abc "b" "p" (record { place = after; anchor = "b" })
    ≡ denied (unknown_anchor "b" "p")
unfolding reposition
no_anchor = refl

abbrev before_a : Target
before_a = record { parent_id = "root"; placement = record { place = before; anchor = "a" } }

abbrev at_end : Target
at_end = record { parent_id = "b"; placement = record { place = last; anchor = "" } }

abbrev placing : Obj
placing =
    batch_op
      (insert_child_op "root" (leaf "c") ∷ reorder_children_op "root" ("c" ∷ "a" ∷ "b" ∷ []) ∷ [])

placed_c : place_op tree (leaf "c") before_a ≡ placed placing
unfolding all_ids over walk child_slots kind_slots state_slots layout_slots key_slots
    layout_children ordered_children kind_by_tag find_kind kinds node_list_slot node_arms node_slots
    switch_cases value_size get find_node find_layout_parent case_slots children place_op
placed_c = refl

-- appending gives the order, so there is no second op
placed_last : place_op tree (leaf "c") at_end ≡ placed (insert_child_op "b" (leaf "c"))
unfolding all_ids over walk child_slots kind_slots state_slots layout_slots key_slots
    layout_children ordered_children kind_by_tag find_kind kinds node_list_slot node_arms node_slots
    switch_cases value_size get find_node find_layout_parent case_slots children place_op
placed_last = refl

taken_id : place_op tree (leaf "a") at_end ≡ denied (duplicate_id "a" "b")
unfolding all_ids over walk child_slots kind_slots state_slots layout_slots key_slots
    layout_children ordered_children kind_by_tag find_kind kinds node_list_slot node_arms node_slots
    switch_cases value_size get find_node find_layout_parent case_slots children place_op
taken_id = refl

leaf-Unique : Unique (leaf "c")
unfolding all_ids over walk child_slots kind_slots state_slots layout_slots key_slots
    layout_children ordered_children kind_by_tag find_kind kinds node_list_slot node_arms node_slots
    switch_cases value_size get find_node find_layout_parent case_slots children
leaf-Unique = any_repeated-Unique (leaf "c") refl

place_op-IsPlaced_example : IsPlaced plain_core tree (leaf "c") before_a placing
place_op-IsPlaced_example =
    place_op-IsPlaced plain_core tree (leaf "c") before_a placing tree-Unique leaf-Unique placed_c

-- one place up
nudged_b : nudge_op tree "b" (negsuc 0) ≡ placed (reorder_children_op "root" ("b" ∷ "a" ∷ []))
unfolding all_ids over walk child_slots kind_slots state_slots layout_slots key_slots
    layout_children ordered_children kind_by_tag find_kind kinds node_list_slot node_arms node_slots
    switch_cases value_size get find_node find_layout_parent case_slots children nudge_op
nudged_b = refl

nudged_out : nudge_op tree "b" (pos 1) ≡ denied (nudge_out_of_range "b" "root" (pos 1))
unfolding all_ids over walk child_slots kind_slots state_slots layout_slots key_slots
    layout_children ordered_children kind_by_tag find_kind kinds node_list_slot node_arms node_slots
    switch_cases value_size get find_node find_layout_parent case_slots children nudge_op
nudged_out = refl

nudge_op-IsNudged_example :
    IsNudged plain_core tree "b" (negsuc 0) (reorder_children_op "root" ("b" ∷ "a" ∷ []))
nudge_op-IsNudged_example =
    nudge_op-IsNudged plain_core tree "b" (negsuc 0) (reorder_children_op "root" ("b" ∷ "a" ∷ []))
      tree-Unique nudged_b
