-- ===== src/Ops/Limits.antt =====
-- ops/limits.go, and the guarded Apply and CanApply of ops/apply.go.
use fuaran_go.Prelude.{
  ℕ, zero, suc, ◌+◌, String, List, [], ◌∷◌, ◌++◌, Bool, true, false, ◌||◌, Option, none, some,
  str_eq, ltb, if◌then◌else◌,
}
use fuaran_go.Wire.Core.{Core}
use fuaran_go.Wire.Size.{obj_size}
use fuaran_go.Wire.Value.{
  Value, obj, Obj, tagged, end, Node, envelope, fields, get, as_arr, as_obj, as_node,
}
use fuaran_go.Ops.Traverse.{ChildSlot, child_slots, children, over, all_ids, held_in}
use fuaran_go.Ops.Apply.{
  ErrorCode, duplicate_node_id, limit_exceeded, Outcome, applied, refused, panicked,
}
use fuaran_go.Ops.Apply.Engine.{apply_one}
use fuaran_go.Ops.Apply.Structure.{tally}

-- wire/limits.go
abbrev pub max_node_depth : ℕ
max_node_depth = 24

abbrev pub max_nodes : ℕ
max_nodes = 100000

pub record Metrics : Type 0 where
  pub depth : ℕ
  pub count : ℕ

-- one more sub-node: the larger depth, the sum of the counts
abbrev pub metrics_add : Metrics → Metrics → Metrics
metrics_add m c = record {
  depth = if ltb m.depth (c.depth + 1) then c.depth + 1 else m.depth;
  count = m.count + c.count;
}

abbrev pub metrics_of : (Node → Metrics) → Metrics → List ChildSlot → Metrics
metrics_of go m [] = m
metrics_of go m (s ∷ rest) = metrics_of go (metrics_add m (go s.child)) rest

abbrev pub metrics_step : (Node → Metrics) → Node → Metrics
metrics_step go n = metrics_of go (record { depth = 1; count = 1 }) (child_slots n)

unfoldable pub tree_metrics : Node → Metrics
unfolding over
tree_metrics = over metrics_step (record { depth = 1; count = 1 })

-- whether the tree is past a limit
unfoldable pub check_tree_limits : Node → Option ErrorCode
check_tree_limits tree =
    let m = tree_metrics tree in
    if ltb max_node_depth m.depth
    then some limit_exceeded
    else if ltb max_nodes m.count
    then some limit_exceeded
    else none

abbrev state_roots : Option Obj → List Node
state_roots none = []
state_roots (some state) = held_in (fields state) ("onLoading" ∷ "onEmpty" ∷ [])

abbrev one_node : Option Node → List Node
one_node none = []
one_node (some n) = n ∷ []

abbrev children_of_kind : Option Obj → List Node
children_of_kind none = []
children_of_kind (some k) = children (envelope "" k end)

abbrev pub roots_in : (Obj → List Node) → List Value → List Node
roots_in go [] = []
roots_in go (obj o ∷ vs) = go o ++ roots_in go vs
roots_in go (v ∷ vs) = roots_in go vs

abbrev pub batch_roots : (Obj → List Node) → Option (List Value) → List Node
batch_roots go none = []
batch_roots go (some vs) = roots_in go vs

-- the subtree roots that an op puts in; a batch nests smaller ops
unfoldable pub inserted_fuel : ℕ → Obj → List Node
inserted_fuel zero op = []
inserted_fuel (suc f) (tagged t fs) =
    if str_eq t "InsertChild"
    then one_node (as_node (get "child" fs))
    else if str_eq t "ReplaceRoot"
    then one_node (as_node (get "node" fs))
    else if str_eq t "EditNode"
    then children_of_kind (as_obj (get "newKind" fs))
    else if str_eq t "UpdateState"
    then state_roots (as_obj (get "state" fs))
    else if str_eq t "Batch"
    then batch_roots (inserted_fuel f) (as_arr (get "ops" fs))
    else []

unfoldable pub inserted_nodes : Obj → List Node
inserted_nodes op = inserted_fuel (obj_size op) op

abbrev pub is_empty : List Node → Bool
is_empty [] = true
is_empty (n ∷ ns) = false

abbrev not_empty : List Node → Bool
not_empty [] = false
not_empty (n ∷ ns) = true

abbrev pub any_grows : (Obj → Bool) → List Value → Bool
any_grows go [] = false
any_grows go (obj o ∷ vs) = go o || any_grows go vs
any_grows go (v ∷ vs) = any_grows go vs

abbrev pub batch_grows : (Obj → Bool) → Option (List Value) → Bool
batch_grows go none = false
batch_grows go (some vs) = any_grows go vs

unfoldable pub grows_fuel : ℕ → Obj → Bool
grows_fuel zero op = false
grows_fuel (suc f) (tagged t fs) =
    if str_eq t "MoveNode"
    then true
    else if str_eq t "Batch"
    then batch_grows (grows_fuel f) (as_arr (get "ops" fs))
    else not_empty (inserted_nodes (tagged t fs))

unfoldable pub op_can_grow : Obj → Bool
op_can_grow op = grows_fuel (obj_size op) op

-- whether an id of the list is held more than once
abbrev pub any_repeated : List String → List String → Bool
any_repeated [] ids = false
any_repeated (i ∷ is) ids = ltb 1 (tally i ids) || any_repeated is ids

abbrev pub installed_repeat : List Node → List String → Bool
installed_repeat [] ids = false
installed_repeat (n ∷ ns) ids = any_repeated (all_ids n) ids || installed_repeat ns ids

unfoldable pub check_installed_ids : List Node → Node → Option ErrorCode
check_installed_ids [] result = none
check_installed_ids (n ∷ ns) result =
    if installed_repeat (n ∷ ns) (all_ids result) then some duplicate_node_id else none

abbrev pub limit_check : Bool → Node → Option ErrorCode
limit_check false result = none
limit_check true result = check_tree_limits result

abbrev pub guarded : Node → Node → Option ErrorCode → Outcome → Outcome
guarded tree result none k = k
guarded tree result (some e) k = refused tree e

unfoldable pub apply : Core → Obj → Node → Outcome
apply core op tree = elim (apply_one core op tree) [
  | panicked ↦ panicked
  | refused t e ↦ refused tree e
  | applied result ↦
      guarded tree result (limit_check (op_can_grow op) result)
        (guarded tree result (check_installed_ids (inserted_nodes op) result) (applied result))
]

abbrev pub succeeds : Outcome → Bool
succeeds (applied t) = true
succeeds _ = false

unfoldable pub can_apply : Core → Obj → Node → Bool
can_apply core op tree = succeeds (apply_one core op tree)
