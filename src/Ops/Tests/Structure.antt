-- ===== src/Ops/Tests/Structure.antt =====
-- The structural ops on a small tree.
use fuaran_go.Prelude.{◌≡◌, refl, [], ◌∷◌, false}
use fuaran_go.Wire.Size.{value_size}
use fuaran_go.Wire.Value.{Node, get, set}
use fuaran_go.Idl.Lookup.{
  ordered_children, kind_by_tag, find_kind, node_list_slot, node_arms, node_slots,
}
use fuaran_go.Idl.Kinds.{kinds}
use fuaran_go.Ops.Traverse.{
  all_ids, find_node, find_layout_parent, map_node, over, walk, child_slots, children, kind_slots,
  state_slots, layout_slots, key_slots, layout_children, switch_cases, case_slots,
  with_layout_children, set_kind_field, is_ancestor,
}
use fuaran_go.Ops.Apply.{applied}
use fuaran_go.Ops.Tests.Trees.{box, leaf, tree, tree-Unique, find_b, list_of_b}
use fuaran_go.Ops.Apply.Structure.{
  shares_id, insert_under, remove_target, move_under, reorder_under, same_id_multiset,
}
use fuaran_go.Ops.Laws.Unique.{Unique}
use fuaran_go.Ops.Laws.Insert.{IsInserted, insert_under-IsInserted, insert_under-Unique}
use fuaran_go.Ops.Laws.Move.{IsMoved, move_under-IsMoved}
use fuaran_go.Ops.Laws.Reorder.{IsReordered, reorder_under-IsReordered}
use fuaran_go.Ops.Laws.Guard.{any_repeated-Unique}

fresh_c : shares_id (all_ids (leaf "c")) (all_ids tree) ≡ false
unfolding all_ids over walk child_slots kind_slots state_slots layout_slots key_slots
    layout_children ordered_children kind_by_tag find_kind kinds node_list_slot node_arms node_slots
    switch_cases value_size get find_node find_layout_parent case_slots children
fresh_c = refl

insert_under-IsInserted_example : (t : Node) × IsInserted "b" (leaf "c") tree (box "b" []) [] t
insert_under-IsInserted_example =
    insert_under-IsInserted "b" (leaf "c") tree (box "b" []) [] find_b list_of_b fresh_c

leaf-Unique : Unique (leaf "c")
unfolding all_ids over walk child_slots kind_slots state_slots layout_slots key_slots
    layout_children ordered_children kind_by_tag find_kind kinds node_list_slot node_arms node_slots
    switch_cases value_size get find_node find_layout_parent case_slots children
leaf-Unique = any_repeated-Unique (leaf "c") refl

inserted_c :
    insert_under "b" (leaf "c") tree
    ≡ applied (box "root" (leaf "a" ∷ box "b" (leaf "c" ∷ []) ∷ []))
unfolding all_ids over walk child_slots kind_slots state_slots layout_slots key_slots
    layout_children ordered_children kind_by_tag find_kind kinds node_list_slot node_arms node_slots
    switch_cases value_size get find_node find_layout_parent case_slots children insert_under
    remove_target move_under reorder_under same_id_multiset is_ancestor map_node
    with_layout_children set_kind_field set
inserted_c = refl

insert_under-Unique_example : Unique (box "root" (leaf "a" ∷ box "b" (leaf "c" ∷ []) ∷ []))
insert_under-Unique_example =
    insert_under-Unique "b" (leaf "c") tree (box "root" (leaf "a" ∷ box "b" (leaf "c" ∷ []) ∷ []))
      tree-Unique leaf-Unique inserted_c

moved_a : move_under "a" "b" tree ≡ applied (box "root" (box "b" (leaf "a" ∷ []) ∷ []))
unfolding all_ids over walk child_slots kind_slots state_slots layout_slots key_slots
    layout_children ordered_children kind_by_tag find_kind kinds node_list_slot node_arms node_slots
    switch_cases value_size get find_node find_layout_parent case_slots children insert_under
    remove_target move_under reorder_under same_id_multiset is_ancestor map_node
    with_layout_children set_kind_field set
moved_a = refl

move_under-IsMoved_example : IsMoved "a" "b" tree (box "root" (box "b" (leaf "a" ∷ []) ∷ []))
move_under-IsMoved_example =
    move_under-IsMoved "a" "b" tree (box "root" (box "b" (leaf "a" ∷ []) ∷ [])) tree-Unique moved_a

reordered_tree :
    reorder_under "root" ("b" ∷ "a" ∷ []) tree ≡ applied (box "root" (box "b" [] ∷ leaf "a" ∷ []))
unfolding all_ids over walk child_slots kind_slots state_slots layout_slots key_slots
    layout_children ordered_children kind_by_tag find_kind kinds node_list_slot node_arms node_slots
    switch_cases value_size get find_node find_layout_parent case_slots children insert_under
    remove_target move_under reorder_under same_id_multiset is_ancestor map_node
    with_layout_children set_kind_field set
reordered_tree = refl

reorder_under-IsReordered_example :
    IsReordered "root" ("b" ∷ "a" ∷ []) tree (box "root" (box "b" [] ∷ leaf "a" ∷ []))
reorder_under-IsReordered_example =
    reorder_under-IsReordered "root" ("b" ∷ "a" ∷ []) tree (box "root" (box "b" [] ∷ leaf "a" ∷ []))
      tree-Unique reordered_tree

children_of_tree : children tree ≡ leaf "a" ∷ box "b" [] ∷ []
unfolding all_ids over walk child_slots kind_slots state_slots layout_slots key_slots
    layout_children ordered_children kind_by_tag find_kind kinds node_list_slot node_arms node_slots
    switch_cases value_size get find_node find_layout_parent case_slots children
children_of_tree = refl
