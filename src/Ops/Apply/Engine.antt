-- ===== src/Ops/Apply/Engine.antt =====
-- ops/apply.go: ReplaceRoot, UpdateProp, Batch, and the switch over the op kinds.
use fuaran_go.Prelude.{ℕ, zero, suc, String, List, [], ◌∷◌, none, some, str_eq, if◌then◌else◌}
use fuaran_go.Wire.Core.{Core, codes}
use fuaran_go.Wire.Size.{obj_size}
use fuaran_go.Wire.Value.{Value, obj, Obj, tagged, Fields, Node, kind, get, as_str, as_arr, as_node}
use fuaran_go.Ops.Traverse.{find_node, map_node}
use fuaran_go.Ops.Prop.Store.{FieldOutcome, update_field}
use fuaran_go.Ops.Prop.Path.{PathSeg, parsed, bad, parse_path}
use fuaran_go.Ops.Prop.Nested.{NestedOutcome, update_nested}
use fuaran_go.Ops.Apply.{
  batch_aborted, Outcome, applied, refused, panicked, tree_or_zero, node_not_found,
  position_out_of_range, field_not_found, kind_mismatch, path_invalid, path_not_supported_yet,
}
use fuaran_go.Ops.Apply.Rewrite.{
  with_kind, edit_node, replace_binding, update_style, patch_style_op, update_state,
  update_accessibility, update_tooltip,
}
use fuaran_go.Ops.Apply.Structure.{insert_child, remove_node, move_node, reorder_children}

unfoldable pub replace_root : Fields → Node → Outcome
replace_root fs root = elim (as_node (get "node" fs)) [
  | none ↦ refused root kind_mismatch
  | some n ↦ applied n
]

abbrev pub of_field : String → Node → FieldOutcome → Outcome
of_field target root (FieldOutcome.updated k) = tree_or_zero (map_node target (with_kind k) root)
of_field target root FieldOutcome.unknown_field = refused root field_not_found
of_field target root FieldOutcome.unsupported = refused root path_not_supported_yet
of_field target root FieldOutcome.type_mismatch = refused root kind_mismatch

abbrev pub of_nested : String → Node → NestedOutcome → Outcome
of_nested target root (NestedOutcome.updated k) = tree_or_zero (map_node target (with_kind k) root)
of_nested target root NestedOutcome.missing_index = refused root path_invalid
of_nested target root NestedOutcome.index_out_of_range = refused root position_out_of_range
of_nested target root NestedOutcome.field_not_found = refused root field_not_found
of_nested target root NestedOutcome.not_supported = refused root path_not_supported_yet
of_nested target root NestedOutcome.type_mismatch = refused root kind_mismatch
of_nested target root NestedOutcome.index_panic = panicked

-- a single segment with no index is a flat field
abbrev pub update_at : Core → String → String → List PathSeg → Value → Obj → Node → Outcome
update_at core target path [] v k root = panicked
update_at core target path (s ∷ []) v k root =
    if s.has_index
    then of_nested target root (update_nested core s [] v k)
    else of_field target root (update_field core path v k)
update_at core target path (s ∷ r ∷ rest) v k root =
    of_nested target root (update_nested core s (r ∷ rest) v k)

unfoldable pub update_prop : Core → Fields → Node → Outcome
update_prop core fs root = elim (as_str (get "path" fs)) [
  | none ↦ refused root kind_mismatch
  | some path ↦ elim (as_str (get "target" fs)) [
    | none ↦ refused root kind_mismatch
    | some target ↦ elim (get "value" fs) [
      | none ↦ refused root kind_mismatch
      | some v ↦ elim (parse_path (codes path)) [
        | bad e ↦ refused root path_invalid
        | parsed segs ↦ elim (find_node target root) [
          | none ↦ refused root node_not_found
          | some n ↦ update_at core target path segs v (kind n) root
        ]
      ]
    ]
  ]
]

-- the inner ops of a batch, from the index `i` and the state so far; `go` is the recursive call
abbrev pub run_batch : (Obj → Node → Outcome) → Node → ℕ → Node → List Value → Outcome
run_batch go root i state [] = applied state
run_batch go root i state (obj inner ∷ rest) = elim (go inner state) [
  | applied next ↦ run_batch go root (suc i) next rest
  | refused t e ↦ refused root (batch_aborted i)
  | panicked ↦ panicked
]
run_batch go root i state (v ∷ rest) = refused root kind_mismatch

unfoldable pub batch : (Obj → Node → Outcome) → Fields → Node → Outcome
batch go fs root = elim (as_arr (get "ops" fs)) [
  | none ↦ refused root kind_mismatch
  | some items ↦ run_batch go root 0 root items
]

-- the switch over the op kinds
unfoldable pub apply_step : Core → (Obj → Node → Outcome) → Obj → Node → Outcome
apply_step core go (tagged t fs) root =
    if str_eq t "EditNode"
    then edit_node fs root
    else if str_eq t "UpdateProp"
    then update_prop core fs root
    else if str_eq t "ReplaceBinding"
    then replace_binding core fs root
    else if str_eq t "UpdateStyle"
    then update_style fs root
    else if str_eq t "PatchStyle"
    then patch_style_op fs root
    else if str_eq t "UpdateState"
    then update_state fs root
    else if str_eq t "UpdateAccessibility"
    then update_accessibility fs root
    else if str_eq t "UpdateTooltip"
    then update_tooltip fs root
    else if str_eq t "InsertChild"
    then insert_child fs root
    else if str_eq t "RemoveNode"
    then remove_node fs root
    else if str_eq t "MoveNode"
    then move_node fs root
    else if str_eq t "ReorderChildren"
    then reorder_children fs root
    else if str_eq t "ReplaceRoot"
    then replace_root fs root
    else if str_eq t "Batch"
    then batch go fs root
    else refused root kind_mismatch

-- A batch nests smaller ops, so the size of the op is fuel enough.
unfoldable pub apply_fuel : Core → ℕ → Obj → Node → Outcome
apply_fuel core zero op root = refused root kind_mismatch
apply_fuel core (suc f) op root = apply_step core (apply_fuel core f) op root

unfoldable pub apply_one : Core → Obj → Node → Outcome
apply_one core op root = apply_fuel core (obj_size op) op root
