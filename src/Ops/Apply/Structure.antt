-- ===== src/Ops/Apply/Structure.antt =====
-- ops/apply.go: the ops that change a child list.
use fuaran_go.Prelude.{
  ℕ, ◌+◌, String, List, [], ◌∷◌, ◌++◌, map, Bool, true, false, ◌&&◌, ◌||◌, Option, none, some,
  str_eq, ltb, ◌==◌, if◌then◌else◌, length,
}
use fuaran_go.Wire.Value.{
  Value, str, tagged, Fields, end, Node, envelope, id, get, as_str, as_arr, as_node,
}
use fuaran_go.Ops.Traverse.{
  layout_children, with_layout_children, find_node, map_node, all_ids, find_layout_parent,
  contains_id, is_ancestor,
}
use fuaran_go.Ops.Apply.{
  Outcome, applied, refused, panicked, tree_or_zero, node_not_found, parent_not_found,
  childless_kind, duplicate_node_id, kind_mismatch, ordering_mismatch,
}

-- whether an id of the first list is in the second
abbrev pub shares_id : List String → List String → Bool
shares_id [] existing = false
shares_id (i ∷ is) existing = contains_id i existing || shares_id is existing

-- InsertChild behind its shape check
unfoldable pub insert_under : String → Node → Node → Outcome
insert_under parent_id child root = elim (find_node parent_id root) [
  | none ↦ refused root parent_not_found
  | some parent ↦ elim (layout_children parent) [
    | none ↦ refused root childless_kind
    | some children ↦
        if shares_id (all_ids child) (all_ids root)
        then refused root duplicate_node_id
        else tree_or_zero
            (map_node parent_id (λ n. with_layout_children n (children ++ child ∷ [])) root)
  ]
]

unfoldable pub insert_child : Fields → Node → Outcome
unfolding insert_under
insert_child fs root = elim (as_str (get "parentId" fs)) [
  | none ↦ refused root kind_mismatch
  | some parent_id ↦ elim (as_node (get "child" fs)) [
    | none ↦ refused root kind_mismatch
    | some child ↦ insert_under parent_id child root
  ]
]

abbrev pub without_id : String → List Node → List Node
without_id target [] = []
without_id target (c ∷ cs) =
    let rest = without_id target cs in if str_eq (id c) target then rest else c ∷ rest

abbrev pub or_no_children : Option (List Node) → List Node
or_no_children none = []
or_no_children (some cs) = cs

-- RemoveNode behind its shape check
unfoldable pub remove_target : String → Node → Outcome
remove_target target root =
    if str_eq (id root) target
    then refused root kind_mismatch
    else elim (find_layout_parent target root) [
      | none ↦ refused root node_not_found
      | some parent ↦ tree_or_zero (
          map_node (id parent)
            (λ n.
              with_layout_children n (without_id target (or_no_children (layout_children parent))))
            root)
    ]

unfoldable pub remove_node : Fields → Node → Outcome
unfolding remove_target
remove_node fs root = elim (as_str (get "target" fs)) [
  | none ↦ refused root kind_mismatch
  | some target ↦ remove_target target root
]

-- the inner RemoveNode refused, or the inner InsertChild on what it left
abbrev pub insert_after : Node → Outcome → (Node → Outcome) → Outcome
insert_after root (applied t) insert = insert t
insert_after root (refused t e) insert = refused root e
insert_after root panicked insert = panicked

unfoldable pub move_under : String → String → Node → Outcome
unfolding remove_target insert_under
move_under target new_parent_id root =
    if str_eq target new_parent_id
    then refused root kind_mismatch
    else if is_ancestor target new_parent_id root
    then refused root kind_mismatch
    else elim (find_node target root) [
      | none ↦ refused root node_not_found
      | some moving ↦ elim (find_node new_parent_id root) [
        | none ↦ refused root parent_not_found
        | some new_parent ↦ elim (layout_children new_parent) [
          | none ↦ refused root childless_kind
          | some cs ↦
              insert_after root (remove_target target root) (insert_under new_parent_id moving)
        ]
      ]
    ]

unfoldable pub move_node : Fields → Node → Outcome
unfolding move_under
move_node fs root = elim (as_str (get "target" fs)) [
  | none ↦ refused root kind_mismatch
  | some target ↦ elim (as_str (get "newParentId" fs)) [
    | none ↦ refused root kind_mismatch
    | some new_parent_id ↦ move_under target new_parent_id root
  ]
]

-- the strings of a list, `none` where an element is none
abbrev pub strings_of : List Value → Option (List String)
strings_of [] = some []
strings_of (str s ∷ vs) = elim (strings_of vs) [ none ↦ none | some ss ↦ some (s ∷ ss) ]
strings_of (v ∷ vs) = none

abbrev pub tally : String → List String → ℕ
tally i [] = 0
tally i (j ∷ js) = (if str_eq j i then 1 else 0) + tally i js

-- `counts[id]--; if counts[id] < 0`, with the ids taken so far
abbrev pub takes_all : List String → List String → List String → Bool
takes_all held taken [] = true
takes_all held taken (i ∷ is) = ltb (tally i taken) (tally i held) && takes_all held (i ∷ taken) is

unfoldable pub same_id_multiset : List Node → List String → Bool
same_id_multiset cs order =
    length cs == length order && takes_all (map (λ (c : Node). id c) cs) [] order

-- `byID[id]`: the last child with the id, the zero node where there is none
abbrev pub by_id : List Node → String → Node → Node
by_id [] i found = found
by_id (c ∷ cs) i found = by_id cs i (if str_eq (id c) i then c else found)

abbrev pub zero_node : Node
zero_node = envelope "" (tagged "" end) end

abbrev pub reordered : List Node → List String → List Node
reordered cs [] = []
reordered cs (i ∷ is) = by_id cs i zero_node ∷ reordered cs is

unfoldable pub reorder_under : String → List String → Node → Outcome
unfolding same_id_multiset
reorder_under parent_id new_order root = elim (find_node parent_id root) [
  | none ↦ refused root parent_not_found
  | some parent ↦ elim (layout_children parent) [
    | none ↦ refused root childless_kind
    | some cs ↦
        if same_id_multiset cs new_order
        then tree_or_zero
            (map_node parent_id (λ n. with_layout_children n (reordered cs new_order)) root)
        else refused root ordering_mismatch
  ]
]

unfoldable pub reorder_children : Fields → Node → Outcome
unfolding reorder_under
reorder_children fs root = elim (as_str (get "parentId" fs)) [
  | none ↦ refused root kind_mismatch
  | some parent_id ↦ elim (as_arr (get "newOrder" fs)) [
    | none ↦ refused root kind_mismatch
    | some order ↦ elim (strings_of order) [
      | none ↦ refused root kind_mismatch
      | some new_order ↦ reorder_under parent_id new_order root
    ]
  ]
]
