-- ===== src/Ops/Tests/Engine.antt =====
-- The switch, the batches and the guards, on a small tree.
use fuaran_go.Prelude.{◌≡◌, ◌↔◌, refl, [], ◌∷◌, none, some, true}
use fuaran_go.Prelude.Int.{ℤ}
use fuaran_go.Wire.Core.{codes}
use fuaran_go.Wire.Size.{value_size}
use fuaran_go.Wire.Value.{
  str, arr, obj, Obj, tagged, Fields, end, field, Node, envelope, get, set, from_list,
}
use fuaran_go.Idl.Lookup.{
  ordered_children, kind_by_tag, find_kind, node_list_slot, node_arms, node_slots,
}
use fuaran_go.Idl.Kinds.{kinds}
use fuaran_go.Ops.Traverse.{
  all_ids, find_node, find_layout_parent, map_node, over, walk, child_slots, children, kind_slots,
  state_slots, layout_slots, key_slots, layout_children, switch_cases, case_slots,
  with_layout_children, set_kind_field,
}
use fuaran_go.Ops.Apply.{ErrorCode, applied, refused, panicked, batch_aborted}
use fuaran_go.Ops.Tests.Trees.{box, leaf, tree, plain_core}
use fuaran_go.Ops.Apply.Engine.{replace_root, update_prop, batch, apply_step, apply_fuel, apply_one}
use fuaran_go.Ops.Apply.Structure.{remove_node, remove_target}
use fuaran_go.Ops.Limits.{
  apply, can_apply, op_can_grow, inserted_nodes, inserted_fuel, grows_fuel, check_tree_limits,
  tree_metrics, check_installed_ids, any_repeated,
}
use fuaran_go.Ops.Prop.Path.{PathSeg}
use fuaran_go.Ops.Laws.Runs.{Runs, Aborts, batch-Runs, batch-Aborts}
use fuaran_go.Ops.Laws.Guard.{IsGuarded, apply-IsGuarded}
use fuaran_go.Ops.Laws.Gap.{replace_root_by, replace_root-gap}
use fuaran_go.Ops.Laws.Overflow.{past_int64, IsWrapped, update_prop-IsWrapped, update_prop-overflow}

abbrev remove_a : Obj
remove_a = tagged "RemoveNode" (field "target" (str "a") end)

abbrev two_removals : Fields
two_removals = field "ops" (arr (from_list (obj remove_a ∷ obj remove_a ∷ []))) end

abbrev one_removal : Fields
one_removal = field "ops" (arr (from_list (obj remove_a ∷ []))) end

batch-Runs_example :
    (apply_one plain_core (tagged "Batch" one_removal) tree
      ≡ applied (box "root" (box "b" [] ∷ [])))
    ↔ Runs plain_core (obj remove_a ∷ []) tree (box "root" (box "b" [] ∷ []))
unfolding get
batch-Runs_example =
    batch-Runs plain_core one_removal tree (box "root" (box "b" [] ∷ [])) (obj remove_a ∷ []) refl

aborted_run :
    apply_one plain_core (tagged "Batch" two_removals) tree ≡ refused tree (batch_aborted 1)
unfolding all_ids over walk child_slots kind_slots state_slots layout_slots key_slots
    layout_children ordered_children kind_by_tag find_kind kinds node_list_slot node_arms node_slots
    switch_cases value_size get find_node find_layout_parent case_slots children remove_target
    map_node with_layout_children set_kind_field set apply_one apply_fuel apply_step batch
    remove_node
aborted_run = refl

batch-Aborts_example : (tree ≡ tree) × Aborts plain_core (obj remove_a ∷ obj remove_a ∷ []) tree 1
unfolding get
batch-Aborts_example =
    batch-Aborts plain_core two_removals tree tree (obj remove_a ∷ obj remove_a ∷ []) 1 refl
      aborted_run

abbrev small : Node
small = box "root" (box "b" [] ∷ [])

applied_run : apply plain_core (replace_root_by small) tree ≡ applied small
unfolding all_ids over walk child_slots kind_slots state_slots layout_slots key_slots
    layout_children ordered_children kind_by_tag find_kind kinds node_list_slot node_arms node_slots
    switch_cases value_size get find_node find_layout_parent case_slots children remove_target
    map_node with_layout_children set_kind_field set apply apply_one apply_fuel apply_step
    replace_root op_can_grow grows_fuel inserted_nodes inserted_fuel check_installed_ids
    check_tree_limits tree_metrics
applied_run = refl

apply-IsGuarded_example : IsGuarded plain_core (replace_root_by small) tree small
apply-IsGuarded_example = apply-IsGuarded plain_core (replace_root_by small) tree small applied_run

abbrev twins : Node
twins = box "root" (leaf "a" ∷ leaf "a" ∷ [])

twins-repeat : any_repeated (all_ids twins) (all_ids twins) ≡ true
unfolding all_ids over walk child_slots kind_slots state_slots layout_slots key_slots
    layout_children ordered_children kind_by_tag find_kind kinds node_list_slot node_arms node_slots
    switch_cases value_size get find_node find_layout_parent case_slots children
twins-repeat = refl

twins-small : check_tree_limits twins ≡ none
unfolding all_ids over walk child_slots kind_slots state_slots layout_slots key_slots
    layout_children ordered_children kind_by_tag find_kind kinds node_list_slot node_arms node_slots
    switch_cases value_size get find_node find_layout_parent case_slots children check_tree_limits
    tree_metrics
twins-small = refl

replace_root-gap_example :
    (can_apply plain_core (replace_root_by twins) tree ≡ true)
    × (apply plain_core (replace_root_by twins) tree ≡ refused tree ErrorCode.duplicate_node_id)
replace_root-gap_example = replace_root-gap plain_core twins tree twins-repeat twins-small

abbrev y_fields : ℤ → PathSeg
y_fields i = record { field = codes "YFields"; index = i; has_index = true }

abbrev chart : Node
chart = envelope "c" (tagged "Chart" (field "yFields" (arr (from_list (str "y" ∷ []))) end)) end

abbrev overflow : Fields
overflow = field "path" (str past_int64) (field "target" (str "c") (field "value" (str "z") end))

find_chart : find_node "c" chart ≡ some chart
unfolding all_ids over walk child_slots kind_slots state_slots layout_slots key_slots
    layout_children ordered_children kind_by_tag find_kind kinds node_list_slot node_arms node_slots
    switch_cases value_size get find_node find_layout_parent case_slots children
find_chart = refl

update_prop-overflow_example : update_prop plain_core overflow chart ≡ panicked
unfolding get
update_prop-overflow_example =
    update_prop-overflow plain_core overflow chart chart "c" "z" refl refl refl find_chart refl

overflow_run : update_prop plain_core overflow chart ≡ panicked
unfolding get
overflow_run =
    update_prop-overflow plain_core overflow chart chart "c" "z" refl refl refl find_chart refl

update_prop-IsWrapped_example : IsWrapped overflow
update_prop-IsWrapped_example = update_prop-IsWrapped plain_core overflow chart overflow_run
