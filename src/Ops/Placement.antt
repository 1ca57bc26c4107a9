-- ===== src/Ops/Placement.antt =====
-- ops/placement.go: the ops that place, move and nudge a node at a position among its siblings, with
-- the checks that are made before an op is emitted. The clone verbs (DuplicateOp, PasteOp) are not
-- modelled.
pub mod Reposition
pub mod Emitted
pub mod Applies
pub mod Swap
pub mod Nudge
pub mod Tests
use fuaran_go.Prelude.{
  ℕ, zero, suc, ◌+◌, ◌-◌, String, List, [], ◌∷◌, ◌++◌, map, Bool, true, false, not, ◌&&◌, ◌||◌,
  Option, none, some, str_eq, ids_eq, ltb, if◌then◌else◌, length, take, drop, get_elem?,
  set as set_elem,
}
use fuaran_go.Prelude.Int.{ℤ, pos, negsuc, ◌+ℤ◌}
use fuaran_go.Wire.Value.{
  Value, str, arr, obj, node, Obj, tagged, Fields, end, field, Node, id, from_list,
}
use fuaran_go.Ops.Traverse.{
  find_node, layout_children, all_ids, find_layout_parent, is_ancestor, contains_id,
}

pub data PlacementKind : Type 0 where
  last : PlacementKind
  first : PlacementKind
  before : PlacementKind
  after : PlacementKind
  -- any other string, the empty one included
  unset : String → PlacementKind

pub record Placement : Type 0 where
  pub place : PlacementKind
  pub anchor : String

pub record Target : Type 0 where
  pub parent_id : String
  pub placement : Placement

-- the refusals, each with the ids that it names
pub data PlaceError : Type 0 where
  parent_not_found : String → PlaceError
  childless_kind : String → PlaceError
  node_not_found : String → PlaceError
  unknown_anchor : String → String → PlaceError
  duplicate_id : String → String → PlaceError
  move_into_self : String → PlaceError
  move_into_descendant : String → String → PlaceError
  cannot_nudge_root : String → PlaceError
  nudge_out_of_range : String → String → ℤ → PlaceError
  unknown_placement : PlaceError

pub data Placed (A : Type 0) : Type 0 where
  placed : A → Placed A
  denied : PlaceError → Placed A

infixl 5 ◌>>=◌
abbrev pub ◌>>=◌ : {A B : Type 0} → Placed A → (A → Placed B) → Placed B
placed a >>= f = f a
denied e >>= f = denied e

abbrev pub ids : List Node → List String
ids = map id

unfoldable pub container_children : Node → String → Placed (List String)
container_children root parent_id = elim (find_node parent_id root) [
  | none ↦ denied (parent_not_found parent_id)
  | some parent ↦ elim (layout_children parent) [
    | none ↦ denied (childless_kind parent_id)
    | some children ↦ placed (ids children)
  ]
]

abbrev pub without : String → List String → List String
without moved [] = []
without moved (i ∷ is) = let rest = without moved is in if str_eq i moved then rest else i ∷ rest

-- the first index of the anchor
abbrev pub index_of : String → List String → Option ℕ
index_of anchor [] = none
index_of anchor (i ∷ is) =
    if str_eq i anchor
    then some 0
    else elim (index_of anchor is) [ none ↦ none | some k ↦ some (suc k) ]

-- the node put at the anchor's index plus the offset
unfoldable pub anchored : List String → String → String → String → ℕ → Placed (List String)
anchored rest moved parent_id anchor offset = elim (index_of anchor rest) [
  | none ↦ denied (unknown_anchor anchor parent_id)
  | some k ↦ placed (take (k + offset) rest ++ moved ∷ drop (k + offset) rest)
]

unfoldable pub at_place :
    PlacementKind → String → List String → String → String → Placed (List String)
unfolding anchored
at_place last anchor rest moved parent_id = placed (rest ++ moved ∷ [])
at_place first anchor rest moved parent_id = placed (moved ∷ rest)
at_place before anchor rest moved parent_id = anchored rest moved parent_id anchor 0
at_place after anchor rest moved parent_id = anchored rest moved parent_id anchor 1
at_place (unset k) anchor rest moved parent_id = denied unknown_placement

unfoldable pub reposition : List String → String → String → Placement → Placed (List String)
unfolding at_place
reposition order moved parent_id p = at_place p.place p.anchor (without moved order) moved parent_id

unfoldable pub structurally_present : String → Node → Bool
structurally_present node_id root =
    str_eq (id root) node_id
    || elim (find_layout_parent node_id root) [ none ↦ false | some p ↦ true ]

abbrev pub insert_child_op : String → Node → Obj
insert_child_op parent_id child =
    tagged "InsertChild" (field "child" (node child) (field "parentId" (str parent_id) end))

abbrev pub move_node_op : String → String → Obj
move_node_op target new_parent_id =
    tagged "MoveNode" (field "newParentId" (str new_parent_id) (field "target" (str target) end))

abbrev pub reorder_children_op : String → List String → Obj
reorder_children_op parent_id order =
    tagged "ReorderChildren"
      (field "newOrder" (arr (from_list (map str order))) (field "parentId" (str parent_id) end))

abbrev pub batch_op : List Obj → Obj
batch_op inner = tagged "Batch" (field "ops" (arr (from_list (map obj inner))) end)

unfoldable pub post_move_membership : List String → String → List String
post_move_membership siblings moved = without moved siblings ++ moved ∷ []

unfoldable pub can_place : Node → String → Target → Placed (List String)
unfolding structurally_present container_children reposition post_move_membership
can_place root moved target =
    if not (structurally_present moved root)
    then denied (node_not_found moved)
    else if str_eq target.parent_id moved
    then denied (move_into_self moved)
    else if is_ancestor moved target.parent_id root
    then denied (move_into_descendant moved target.parent_id)
    else (do
      siblings ← container_children root target.parent_id
      reposition (post_move_membership siblings moved) moved target.parent_id target.placement)

-- the first id of the incoming tree that the root has
abbrev pub first_in : List String → List String → Option String
first_in existing [] = none
first_in existing (i ∷ is) =
    let rest = first_in existing is in if contains_id i existing then some i else rest

unfoldable pub first_shared_id : Node → Node → Option String
first_shared_id root incoming = first_in (all_ids root) (all_ids incoming)

-- the op alone where appending gives the order, else a batch with the order stated
unfoldable pub with_order : Obj → String → List String → List String → Obj
with_order op parent_id wanted appended =
    if ids_eq wanted appended then op else batch_op (op ∷ reorder_children_op parent_id wanted ∷ [])

unfoldable pub place_under : Node → Node → Target → List String → Option String → Placed Obj
unfolding reposition with_order
place_under root child target siblings (some dup) = denied (duplicate_id dup target.parent_id)
place_under root child target siblings none = do
  let appended = siblings ++ id child ∷ []
  wanted ← reposition appended (id child) target.parent_id target.placement
  placed (with_order (insert_child_op target.parent_id child) target.parent_id wanted appended)

unfoldable pub place_op : Node → Node → Target → Placed Obj
unfolding container_children place_under first_shared_id
place_op root child target = do
  siblings ← container_children root target.parent_id
  place_under root child target siblings (first_shared_id root child)

unfoldable pub move_op : Node → String → Target → Placed Obj
unfolding can_place container_children reposition post_move_membership with_order
move_op root moved target = do
  _ ← can_place root moved target
  siblings ← container_children root target.parent_id
  let appended = post_move_membership siblings moved
  wanted ← reposition appended moved target.parent_id target.placement
  placed (with_order (move_node_op moved target.parent_id) target.parent_id wanted appended)

-- the last index of the id, from the index `k`
unfoldable pub last_index : String → ℕ → List String → Option ℕ
last_index i k [] = none
last_index i k (j ∷ js) = elim (last_index i (suc k) js) [
  | some n ↦ some n
  | none ↦ if str_eq j i then some k else none
]

abbrev pub text_at : List String → ℕ → String
text_at is k = elim (get_elem? is k) [ none ↦ "" | some i ↦ i ]

-- two elements exchanged
unfoldable pub swapped : List String → ℕ → ℕ → List String
swapped is m n = set_elem (set_elem is m (text_at is n)) n (text_at is m)

-- the index that an index and a delta give, where it is one of the list
unfoldable pub swap_index : ℕ → ℤ → ℕ → Option ℕ
swap_index m delta n = elim (pos m +ℤ delta) [
  | negsuc k ↦ none
  | pos k ↦ if ltb k n then some k else none
]

unfoldable pub nudge_among : String → String → ℤ → List String → Option ℕ → Placed Obj
unfolding swap_index swapped
nudge_among node_id parent_id delta is none = denied (nudge_out_of_range node_id parent_id delta)
nudge_among node_id parent_id delta is (some m) = elim (swap_index m delta (length is)) [
  | none ↦ denied (nudge_out_of_range node_id parent_id delta)
  | some n ↦ placed (reorder_children_op parent_id (swapped is m n))
]

abbrev children_or_none : Option (List Node) → List Node
children_or_none none = []
children_or_none (some cs) = cs

-- the parent that holds the node has it among its children, so an index is found
unfoldable pub nudge_op : Node → String → ℤ → Placed Obj
unfolding nudge_among last_index
nudge_op root node_id delta =
    if str_eq (id root) node_id
    then denied (cannot_nudge_root node_id)
    else elim (find_layout_parent node_id root) [
      | none ↦ denied (node_not_found node_id)
      | some parent ↦
          let is = ids (children_or_none (layout_children parent)) in
          nudge_among node_id (id parent) delta is (last_index node_id 0 is)
    ]

unfoldable pub reorder_op : String → List String → List String → Option Obj
reorder_op parent_id current desired =
    if ids_eq current desired then none else some (reorder_children_op parent_id desired)
