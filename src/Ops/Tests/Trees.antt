-- ===== src/Ops/Tests/Trees.antt =====
-- The trees of the tests.
use fuaran_go.Prelude.{String, ◌≡◌, refl, List, [], ◌∷◌, map, some}
use fuaran_go.Wire.Core.{Core, codes}
use fuaran_go.Wire.Size.{value_size}
use fuaran_go.Wire.Value.{arr, node, tagged, end, field, Node, envelope, get, from_list}
use fuaran_go.Idl.Lookup.{
  ordered_children, kind_by_tag, find_kind, node_list_slot, node_arms, node_slots,
}
use fuaran_go.Idl.Kinds.{kinds}
use fuaran_go.Ops.Traverse.{
  all_ids, find_node, find_layout_parent, over, walk, child_slots, children, kind_slots,
  state_slots, layout_slots, key_slots, layout_children, switch_cases, case_slots,
}
use fuaran_go.Ops.Laws.Unique.{Unique}
use fuaran_go.Ops.Laws.Guard.{any_repeated-Unique}

abbrev pub box : String → List Node → Node
box i cs = envelope i (tagged "Box" (field "children" (arr (from_list (map node cs))) end)) end

abbrev pub leaf : String → Node
leaf i = envelope i (tagged "Fact" end) end

abbrev pub tree : Node
tree = box "root" (leaf "a" ∷ box "b" [] ∷ [])

-- a Core for which the encoder runs
abbrev pub plain_core : Core
plain_core = record {
  escape_string = codes;
  format_finite_double = λ b. b ∷ [];
  sort_keys = λ ks. ks;
  float_of_int = λ i. 0;
}

pub tree-ids : all_ids tree ≡ "root" ∷ "a" ∷ "b" ∷ []
unfolding all_ids over walk child_slots kind_slots state_slots layout_slots key_slots
    layout_children ordered_children kind_by_tag find_kind kinds node_list_slot node_arms node_slots
    switch_cases value_size get find_node find_layout_parent case_slots children
tree-ids = refl

pub tree-Unique : Unique tree
unfolding all_ids over walk child_slots kind_slots state_slots layout_slots key_slots
    layout_children ordered_children kind_by_tag find_kind kinds node_list_slot node_arms node_slots
    switch_cases value_size get find_node find_layout_parent case_slots children
tree-Unique = any_repeated-Unique tree refl

pub find_root : find_node "root" tree ≡ some tree
unfolding all_ids over walk child_slots kind_slots state_slots layout_slots key_slots
    layout_children ordered_children kind_by_tag find_kind kinds node_list_slot node_arms node_slots
    switch_cases value_size get find_node find_layout_parent case_slots children
find_root = refl

pub find_a : find_node "a" tree ≡ some (leaf "a")
unfolding all_ids over walk child_slots kind_slots state_slots layout_slots key_slots
    layout_children ordered_children kind_by_tag find_kind kinds node_list_slot node_arms node_slots
    switch_cases value_size get find_node find_layout_parent case_slots children
find_a = refl

pub find_b : find_node "b" tree ≡ some (box "b" [])
unfolding all_ids over walk child_slots kind_slots state_slots layout_slots key_slots
    layout_children ordered_children kind_by_tag find_kind kinds node_list_slot node_arms node_slots
    switch_cases value_size get find_node find_layout_parent case_slots children
find_b = refl

pub parent_of_a : find_layout_parent "a" tree ≡ some tree
unfolding all_ids over walk child_slots kind_slots state_slots layout_slots key_slots
    layout_children ordered_children kind_by_tag find_kind kinds node_list_slot node_arms node_slots
    switch_cases value_size get find_node find_layout_parent case_slots children
parent_of_a = refl

pub list_of_root : layout_children tree ≡ some (leaf "a" ∷ box "b" [] ∷ [])
unfolding all_ids over walk child_slots kind_slots state_slots layout_slots key_slots
    layout_children ordered_children kind_by_tag find_kind kinds node_list_slot node_arms node_slots
    switch_cases value_size get find_node find_layout_parent case_slots children
list_of_root = refl

pub list_of_b : layout_children (box "b" []) ≡ some []
unfolding all_ids over walk child_slots kind_slots state_slots layout_slots key_slots
    layout_children ordered_children kind_by_tag find_kind kinds node_list_slot node_arms node_slots
    switch_cases value_size get find_node find_layout_parent case_slots children
list_of_b = refl
