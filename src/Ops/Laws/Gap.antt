-- ===== src/Ops/Laws/Gap.antt =====
-- ops/apply.go: CanApply against Apply. The dry run skips the guards of Apply.
use fuaran_go.Prelude.{◌≡◌, refl, ap, ◌∙◌, true, none}
use fuaran_go.Wire.Core.{Core}
use fuaran_go.Wire.Size.{obj_size}
use fuaran_go.Wire.Value.{node, Obj, tagged, end, field, Node, get}
use fuaran_go.Ops.Traverse.{all_ids}
use fuaran_go.Ops.Apply.{applied, refused, duplicate_node_id}
use fuaran_go.Ops.Apply.Engine.{replace_root, apply_step, apply_one}
use fuaran_go.Ops.Limits.{
  apply, can_apply, succeeds, op_can_grow, inserted_nodes, inserted_fuel, grows_fuel,
  check_tree_limits, check_installed_ids, any_repeated,
}
use fuaran_go.Ops.Laws.Batch.{apply_one_lem}

abbrev pub replace_root_by : Node → Obj
replace_root_by n = tagged "ReplaceRoot" (field "node" (node n) end)

replace_root_by-applied :
    (core : Core) (n tree : Node) → apply_one core (replace_root_by n) tree ≡ applied n
replace_root_by-applied core n tree =
    apply_one_lem core (replace_root_by n) tree ∙ unfold apply_step replace_root get in refl

-- A ReplaceRoot by a tree that repeats an id, within the limits: the dry run accepts it and Apply
-- refuses it.
pub replace_root-gap :
    (core : Core) (n tree : Node)
    → any_repeated (all_ids n) (all_ids n) ≡ true
    → check_tree_limits n ≡ none
    → (can_apply core (replace_root_by n) tree ≡ true)
      × (apply core (replace_root_by n) tree ≡ refused tree duplicate_node_id)
unfolding can_apply apply inserted_nodes inserted_fuel op_can_grow grows_fuel check_installed_ids
    get obj_size
replace_root-gap core n tree twice small = (
  ap succeeds (replace_root_by-applied core n tree),
  rw (replace_root_by-applied core n tree, apply) (rw (small, apply) (rw twice refl)),
)
