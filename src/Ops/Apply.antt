-- ===== src/Ops/Apply.antt =====
-- ops/apply.go: one TreeOp applied to a tree. A refusal returns a tree and an error, as the Go
-- function does; the text of the error is not modelled. `panicked` is a Go run-time panic.
pub mod Rewrite
pub mod Structure
pub mod Engine
use fuaran_go.Prelude.{
  ℕ, zero, suc, ◌+◌, ◌-◌, String, List, [], ◌∷◌, ◌++◌, map, Bool, true, false, not, ◌&&◌, ◌||◌,
  Option, none, some, str_eq, ltb, leb, ◌==◌, if◌then◌else◌, length,
}
use fuaran_go.Wire.Core.{Core, codes}
use fuaran_go.Wire.Size.{obj_size}
use fuaran_go.Wire.Value.{
  Value, str, arr, obj, node, Obj, tagged, Fields, end, field, Node, envelope, tag, fields, id,
  kind, extras, get, set, delete, set_all, as_str, as_arr, as_obj, as_node,
}
use fuaran_go.Ops.Traverse.{
  set_extra, drop_extra, layout_children, with_layout_children, find_node, map_node, all_ids,
  find_layout_parent, contains_id, is_ancestor, ChildSlot, child_slots,
}
use fuaran_go.Ops.Prop.Store.{FieldOutcome, update_field, replace_binding_slot}
use fuaran_go.Ops.Prop.Path.{PathSeg, Parsed, parsed, bad, parse_path}
use fuaran_go.Ops.Prop.Nested.{NestedOutcome, update_nested}

pub data ErrorCode : Type 0 where
  node_not_found parent_not_found childless_kind position_out_of_range duplicate_node_id : ErrorCode
  field_not_found slot_not_found kind_mismatch path_invalid path_not_supported_yet : ErrorCode
  ordering_mismatch limit_exceeded : ErrorCode
  -- with the index of the inner op
  batch_aborted : ℕ → ErrorCode

pub data Outcome : Type 0 where
  applied : Node → Outcome
  refused : Node → ErrorCode → Outcome
  panicked : Outcome

-- the rewritten tree, or the refusal of an absent node
abbrev pub or_not_found : Node → Option Node → Outcome
or_not_found root none = refused root node_not_found
or_not_found root (some t) = applied t

-- the tree after a rewrite whose target is known to be there
abbrev pub tree_or_zero : Option Node → Outcome
tree_or_zero none = applied (envelope "" (tagged "" end) end)
tree_or_zero (some t) = applied t
