-- ===== src/Ops/Traverse.antt =====
-- ops/traverse.go: the immediate sub-node positions of a node, each with a rebuild that swaps it,
-- and the walks over them.
pub mod Slots
pub mod Rebuild
pub mod Walk
pub mod Laws
pub mod Edit
use fuaran_go.Prelude.{
  ℕ, zero, suc, String, List, [], ◌∷◌, ◌++◌, map, Bool, true, false, ◌||◌, Option, none, some,
  str_eq, if◌then◌else◌, set as set_elem, ◌+◌, ltb,
}
use fuaran_go.Wire.Value.{
  Value, str, arr, obj, node, Values, Obj, tagged, Fields, end, Node, envelope, tag, fields, id,
  kind, extras, from_list, get, set, delete, set_all, as_arr, as_obj, as_node, nodes_in,
}
use fuaran_go.Wire.Size.{node_size}
use fuaran_go.Idl.Lookup.{ordered_children, node_arms}

unfoldable pub set_kind_field : Node → String → Value → Node
set_kind_field n key v =
    envelope (id n) (tagged (tag (kind n)) (set key v (fields (kind n)))) (extras n)

unfoldable pub set_extra : Node → String → Value → Node
set_extra n key v = envelope (id n) (kind n) (set key v (extras n))

unfoldable pub drop_extra : Node → String → Node
drop_extra n key = envelope (id n) (kind n) (delete key (extras n))

abbrev pub fields_or_end : Option Obj → Fields
fields_or_end none = end
fields_or_end (some o) = fields o

-- the fields of the state block, empty where there is none
abbrev pub state_fields : Node → Fields
state_fields n = fields_or_end (as_obj (get "state" (extras n)))

unfoldable pub set_state_child : Node → String → Node → Node
unfolding set_extra
set_state_child n key child =
    set_extra n "state" (obj (tagged "" (set key (node child) (state_fields n))))

abbrev pub nodes_of : Option (List Value) → Option (List Node)
nodes_of none = none
nodes_of (some vs) = some (nodes_in vs)

-- the ordered child list of a layout node; `none` for a childless kind
unfoldable pub layout_children : Node → Option (List Node)
layout_children n = elim (ordered_children (tag (kind n))) [
  | none ↦ none
  | some slot ↦ nodes_of (as_arr (get slot (fields (kind n))))
]

abbrev or_empty : Option String → String
or_empty none = ""
or_empty (some s) = s

unfoldable pub with_layout_children : Node → List Node → Node
unfolding set_kind_field
with_layout_children n children =
    set_kind_field n (or_empty (ordered_children (tag (kind n))))
      (arr (from_list (map node children)))

pub record ChildSlot : Type 0 where
  pub child : Node
  pub rebuild : Node → Node

-- one slot for each element, `i` the place of the first of `rest` in `children`
unfoldable pub layout_slots : Node → List Node → ℕ → List Node → List ChildSlot
layout_slots n children i [] = []
layout_slots n children i (c ∷ rest) =
    record { child = c; rebuild = λ c'. with_layout_children n (set_elem children i c') }
    ∷ layout_slots n children (suc i) rest

-- one slot for each key of the object that holds a node
unfoldable pub key_slots : (String → Node → Node) → Fields → List String → List ChildSlot
key_slots put fs [] = []
key_slots put fs (k ∷ ks) =
    let rest = key_slots put fs ks in
    elim (as_node (get k fs)) [
      | none ↦ rest
      | some c ↦ record { child = c; rebuild = put k } ∷ rest
    ]

-- the nodes that an object holds under the keys, in the order of the keys
abbrev pub held_in : Fields → List String → List Node
held_in fs [] = []
held_in fs (k ∷ ks) = elim (as_node (get k fs)) [
  | none ↦ held_in fs ks
  | some c ↦ c ∷ held_in fs ks
]

-- the child of a Switch case
abbrev pub case_child : Value → Option Node
case_child (obj (tagged t fs)) = as_node (get "child" fs)
case_child _ = none

-- a Switch case with another child, its match kept
abbrev pub with_case_child : Value → Node → Value
with_case_child (obj (tagged t fs)) c = obj (tagged t (set "child" (node c) fs))
with_case_child v c = v

unfoldable pub case_slots : Node → List Value → ℕ → List Value → List ChildSlot
case_slots n cases i [] = []
case_slots n cases i (v ∷ rest) =
    let others = case_slots n cases (suc i) rest in
    elim (case_child v) [
      | none ↦ others
      | some c ↦
          record {
            child = c;
            rebuild = λ c'.
                set_kind_field n "cases"
                  (arr (from_list (set_elem cases i (with_case_child v c'))));
          }
          ∷ others
    ]

abbrev pub elements : Option (List Value) → List Value
elements none = []
elements (some vs) = vs

-- the cases of a Switch, none for any other kind
unfoldable pub switch_cases : Node → List Value
switch_cases n =
    if str_eq (tag (kind n)) "Switch" then elements (as_arr (get "cases" (fields (kind n)))) else []

unfoldable pub kind_slots : Node → List ChildSlot
unfolding layout_slots key_slots case_slots
kind_slots n = elim (layout_children n) [
  | some children ↦ layout_slots n children 0 children
  | none ↦
      key_slots (λ arm c. set_kind_field n arm (node c)) (fields (kind n))
        (node_arms (tag (kind n)))
      ++ case_slots n (switch_cases n) 0 (switch_cases n)
]

abbrev pub state_keys : List String
state_keys = "onLoading" ∷ "onEmpty" ∷ []

unfoldable pub state_slots : Node → List ChildSlot
unfolding key_slots
state_slots n = key_slots (λ k c. set_state_child n k c) (state_fields n) state_keys

unfoldable pub child_slots : Node → List ChildSlot
unfolding kind_slots state_slots
child_slots n = kind_slots n ++ state_slots n

unfoldable pub children : Node → List Node
children n = map (λ (s : ChildSlot). s.child) (child_slots n)

-- A recursion over the sub-nodes, on fuel: `step` is one round, and has the recursive call.
unfoldable pub walk {ℓ} : {A : Type ℓ} → ((Node → A) → Node → A) → A → ℕ → Node → A
walk step d zero n = d
walk step d (suc f) n = step (walk step d f) n

-- Every node is larger than its sub-nodes, so its size is fuel enough.
unfoldable pub over {ℓ} : {A : Type ℓ} → ((Node → A) → Node → A) → A → Node → A
unfolding walk
over step d n = walk step d (node_size n) n

-- the first sub-node for which the call succeeds
abbrev pub first_found {ℓ} : {A : Type ℓ} → (Node → Option A) → List ChildSlot → Option A
first_found go [] = none
first_found go (s ∷ rest) = elim (go s.child) [ some a ↦ some a | none ↦ first_found go rest ]

abbrev pub find_step : String → (Node → Option Node) → Node → Option Node
find_step target go n = if str_eq (id n) target then some n else first_found go (child_slots n)

unfoldable pub find_node : String → Node → Option Node
unfolding over
find_node target = over (find_step target) none

-- the first sub-node that is rewritten, put back in its place
abbrev pub first_mapped : (Node → Option Node) → List ChildSlot → Option Node
first_mapped go [] = none
first_mapped go (s ∷ rest) = elim (go s.child) [
  | some c ↦ some (s.rebuild c)
  | none ↦ first_mapped go rest
]

abbrev pub map_step : String → (Node → Node) → (Node → Option Node) → Node → Option Node
map_step target f go n =
    if str_eq (id n) target then some (f n) else first_mapped go (child_slots n)

unfoldable pub map_node : String → (Node → Node) → Node → Option Node
unfolding over
map_node target f = over (map_step target f) none

abbrev pub gather : (Node → List String) → List ChildSlot → List String
gather go [] = []
gather go (s ∷ rest) = go s.child ++ gather go rest

abbrev pub ids_step : (Node → List String) → Node → List String
ids_step go n = id n ∷ gather go (child_slots n)

unfoldable pub all_ids : Node → List String
unfolding over
all_ids = over ids_step []

abbrev pub any_id : String → List Node → Bool
any_id target [] = false
any_id target (c ∷ cs) = str_eq (id c) target || any_id target cs

-- whether the ordered child list of a node holds the target
abbrev pub is_layout_parent : String → Node → Bool
is_layout_parent target n = elim (layout_children n) [ none ↦ false | some cs ↦ any_id target cs ]

abbrev pub parent_step : String → (Node → Option Node) → Node → Option Node
parent_step target go n =
    if is_layout_parent target n then some n else first_found go (child_slots n)

unfoldable pub find_layout_parent : String → Node → Option Node
unfolding over
find_layout_parent target = over (parent_step target) none

abbrev pub contains_id : String → List String → Bool
contains_id i [] = false
contains_id i (j ∷ js) = str_eq j i || contains_id i js

abbrev pub below : String → List ChildSlot → Bool
below i [] = false
below i (s ∷ rest) = contains_id i (all_ids s.child) || below i rest

unfoldable pub is_ancestor : String → String → Node → Bool
is_ancestor ancestor_id descendant_id root = elim (find_node ancestor_id root) [
  | none ↦ false
  | some a ↦ below descendant_id (child_slots a)
]
