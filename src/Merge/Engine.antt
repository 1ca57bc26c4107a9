-- ===== src/Merge/Engine.antt =====
-- merge/merge.go: merge3 and the two entry points.
use fuaran_go.Prelude.{
  ℕ, zero, suc, String, Bool, true, false, not, ◌&&◌, ◌||◌, List, [], ◌∷◌, ◌++◌, map, Option, none,
  some, str_eq, ids_eq, if◌then◌else◌,
}
use fuaran_go.Wire.Core.{Core, Bytes, codes, bytes_eq}
use fuaran_go.Wire.Value.{Node, id, kind, extras, get}
use fuaran_go.Wire.Encode.{Encoded, ok, refused, encode_node}
use fuaran_go.Wire.Size.{node_size}
use fuaran_go.Merge.Order.{sorted_set, contains, less}
use fuaran_go.Merge.Refusal.{
  Resolution, Conflict, delete_modify, record_classed, record_conflict, record_unencodable,
  pick_facet, Merged, ◌>>=◌, pick, Author, resolve_author, agnostic,
}
use fuaran_go.Merge.Facets.{
  children_of, childless_kind, with_kind_children, make_node, kind_canonical, state_canonical,
  accessibility_canonical, tooltip_canonical, merge_style,
}
use fuaran_go.Merge.Places.{or_zero, MoveCtx, new_move_ctx, is_placed, detect_concurrent_moves}

abbrev pub ids : List Node → List String
ids = map id

-- the nodes of a child list by id, the last of an id holding
unfoldable pub node_at : String → List Node → Option Node
node_at i [] = none
node_at i (n ∷ ns) = elim (node_at i ns) [
  | some m ↦ some m
  | none ↦ if str_eq (id n) i then some n else none
]

-- the ids that the set has, and those that it has not
unfoldable pub kept_in : List String → List String → List String
kept_in set [] = []
kept_in set (i ∷ is) = let rest = kept_in set is in if contains set i then i ∷ rest else rest

unfoldable pub new_ids : List String → List String → List String
new_ids set [] = []
new_ids set (i ∷ is) = let rest = new_ids set is in if contains set i then rest else i ∷ rest

unfoldable pub is_pure_addition : List String → List String → Bool
unfolding kept_in
is_pure_addition base_ids head_ids =
    ids_eq (kept_in head_ids base_ids) base_ids && ids_eq (kept_in base_ids head_ids) base_ids

unfoldable pub union_sorted : List String → List String → List String
union_sorted xs ys = sorted_set (xs ++ ys)

unfoldable pub overlaps : List String → List String → Bool
overlaps set [] = false
overlaps set (i ∷ is) = contains set i || overlaps set is

-- strings.Join(ids, ",")
unfoldable pub join_ids : List String → Bytes
join_ids [] = []
join_ids (i ∷ []) = codes i
join_ids (i ∷ is) = codes i ++ b',' ∷ join_ids is

-- the branch's variant of a node, the base where it has none
abbrev pub variant : Node → Option Node → Node
variant base none = base
variant base (some n) = n

-- the order of the merged children
module _ (res : Resolution) (node_id : String) where
  -- both sides changed the child list, and not to the same one
  unfoldable pub both_changed : List String → List String → List String → Merged (List String)
  unfolding new_ids overlaps is_pure_addition union_sorted join_ids
  both_changed base_ids a_ids b_ids =
      let a_new = new_ids base_ids a_ids in
      let b_new = new_ids base_ids b_ids in
      if (is_pure_addition base_ids a_ids && is_pure_addition base_ids b_ids)
        && not (overlaps a_new b_new)
      then ([], base_ids ++ union_sorted a_new b_new)
      else (do
        taken ←
            record_conflict res node_id "children" (some (join_ids base_ids))
              (some (join_ids a_ids)) (some (join_ids b_ids))
        ([], pick taken base_ids a_ids b_ids))

  unfoldable pub children_order : List String → List String → List String → Merged (List String)
  unfolding both_changed
  children_order base_ids a_ids b_ids =
      if ids_eq a_ids base_ids
      then ([], if ids_eq b_ids base_ids then base_ids else b_ids)
      else if ids_eq b_ids base_ids
      then ([], a_ids)
      else if ids_eq a_ids b_ids
      then ([], a_ids)
      else both_changed base_ids a_ids b_ids

module _ (core : Core) (res : Resolution) (mc : MoveCtx) where
  -- an edit of a node beside its deletion is refused
  unfoldable pub survivor_cell : String → Bool → Encoded → Encoded → List Conflict
  survivor_cell cid a_survives (refused e) survivor_c = record_unencodable res cid "node" e
  survivor_cell cid a_survives (ok base_c) (refused e) = record_unencodable res cid "node" e
  survivor_cell cid a_survives (ok base_c) (ok survivor_c) =
      if bytes_eq survivor_c base_c
      then []
      else if a_survives
      then (record_classed res cid "node" delete_modify (some base_c) (some survivor_c) (some [])).0
      else (record_classed res cid "node" delete_modify (some base_c) (some []) (some survivor_c)).0

  -- one round of the delete/modify loop: the child of the base, and those of the sides
  unfoldable pub delete_cell : String → Node → Option Node → Option Node → List Conflict
  unfolding survivor_cell
  delete_cell cid bc none none = []
  delete_cell cid bc (some ac) (some bb) = []
  delete_cell cid bc none (some bb) =
      if is_placed mc.a_places cid
      then []
      else survivor_cell cid false (encode_node core bc) (encode_node core bb)
  delete_cell cid bc (some ac) none =
      if is_placed mc.b_places cid
      then []
      else survivor_cell cid true (encode_node core bc) (encode_node core ac)

  unfoldable pub delete_cells : List Node → List Node → List Node → List String → List Conflict
  unfolding delete_cell
  delete_cells base_kids a_kids b_kids [] = []
  delete_cells base_kids a_kids b_kids (cid ∷ cids) =
      delete_cell cid (or_zero (node_at cid base_kids)) (node_at cid a_kids) (node_at cid b_kids)
      ++ delete_cells base_kids a_kids b_kids cids

  -- both branches introduced the id
  unfoldable pub insert_twice : String → Node → Node → Encoded → Encoded → Merged Node
  insert_twice cid ac bc (refused e) bc_c = (record_unencodable res cid "insert" e, ac)
  insert_twice cid ac bc (ok ac_c) (refused e) = (record_unencodable res cid "insert" e, ac)
  insert_twice cid ac bc (ok ac_c) (ok bc_c) = if bytes_eq ac_c bc_c then ([], ac) else (
    (record_conflict res cid "insert" (some []) (some ac_c) (some bc_c)).0,
    if less bc_c ac_c then bc else ac,
  )

  -- the facets of a node in turn, its merged child list last
  unfoldable pub merge_facets : Node → Node → Node → Merged (List Node) → Merged Node
  merge_facets base a b lists = do
    let shell = childless_kind (kind base)
    kind_pick ←
        pick_facet res (id base) "kind" (kind_canonical core base) (kind_canonical core a)
          (kind_canonical core b)
    style ← merge_style res (id base) base a b
    state_pick ←
        pick_facet res (id base) "state" (state_canonical core shell base)
          (state_canonical core shell a) (state_canonical core shell b)
    acc_pick ←
        pick_facet res (id base) "accessibility" (accessibility_canonical core shell base)
          (accessibility_canonical core shell a) (accessibility_canonical core shell b)
    tip_pick ←
        pick_facet res (id base) "tooltip" (tooltip_canonical core shell base)
          (tooltip_canonical core shell a) (tooltip_canonical core shell b)
    children ← lists
    (
      [],
      make_node base (with_kind_children (childless_kind (kind (pick kind_pick base a b))) children)
          style (get "state" (extras (pick state_pick base a b)))
          (get "accessibility" (extras (pick acc_pick base a b)))
          (get "tooltip" (extras (pick tip_pick base a b))),
    )

  -- `go` is the recursive call of merge3
  module _ (go : Node → Option Node → Option Node → Merged Node) where
    unfoldable pub recurse_child : String → Option Node → Option Node → Option Node → Merged Node
    unfolding insert_twice
    recurse_child cid (some bc) ac bb = go bc ac bb
    recurse_child cid none (some ac) (some bc) =
        insert_twice cid ac bc (encode_node core ac) (encode_node core bc)
    recurse_child cid none (some ac) none = ([], ac)
    recurse_child cid none none bb = ([], or_zero bb)

    unfoldable pub merge_children :
        List Node → List Node → List Node → List String → Merged (List Node)
    unfolding recurse_child
    merge_children base_kids a_kids b_kids [] = ([], [])
    merge_children base_kids a_kids b_kids (cid ∷ cids) =
        let first =
          recurse_child cid (node_at cid base_kids) (node_at cid a_kids) (node_at cid b_kids) in
        let rest = merge_children base_kids a_kids b_kids cids in
        (first.0 ++ rest.0, first.1 ∷ rest.1)

    -- the child lists of the three nodes merged: the deletions, the order, and each child
    unfoldable pub merge_lists : String → List Node → List Node → List Node → Merged (List Node)
    unfolding delete_cells children_order merge_children
    merge_lists node_id base_kids a_kids b_kids = do
      order ← (delete_cells base_kids a_kids b_kids (ids base_kids), tt) >>= λ (_ : Unit {0}).
          children_order res node_id (ids base_kids) (ids a_kids) (ids b_kids)
      merge_children base_kids a_kids b_kids order

    unfoldable pub merge_step : Node → Node → Node → Merged Node
    unfolding merge_lists merge_facets
    merge_step base a b =
        merge_facets base a b
          (merge_lists (id base) (children_of base) (children_of a) (children_of b))

  unfoldable pub merge3_fuel : ℕ → Node → Option Node → Option Node → Merged Node
  unfolding merge_step
  merge3_fuel zero base a b = ([], base)
  merge3_fuel (suc f) base a b = merge_step (merge3_fuel f) base (variant base a) (variant base b)

  unfoldable pub merge3 : Node → Option Node → Option Node → Merged Node
  unfolding merge3_fuel
  merge3 base a b = merge3_fuel (node_size base) base a b

pub data Result : Type 0 where
  -- the tree, with the conflicts that the primary side won
  merged : Node → List Conflict → Result
  blocked : List Conflict → Result

-- the conflicts of the whole merge, in the order in which they are recorded, and its tree
unfoldable pub merge_whole : Core → Resolution → Node → Node → Node → Merged Node
unfolding merge3 new_move_ctx detect_concurrent_moves
merge_whole core res base a b =
    let mc = new_move_ctx base a b in
    let tree = merge3 core res mc base (some a) (some b) in
    (detect_concurrent_moves core res mc base a b ++ tree.0, tree.1)

unfoldable pub conclude : List Conflict → Result → Result
conclude [] r = r
conclude (c ∷ cs) r = blocked (c ∷ cs)

unfoldable pub merge_3way : Core → Node → Node → Node → Result
unfolding merge_whole conclude agnostic
merge_3way core base a b =
    let whole = merge_whole core agnostic base a b in conclude whole.0 (merged whole.1 [])

unfoldable pub blocking : List Conflict → List Conflict
blocking [] = []
blocking (c ∷ cs) = let rest = blocking cs in if c.primacy_held then rest else c ∷ rest

unfoldable pub merge_3way_with_author : Core → Author → Author → Node → Node → Node → Result
unfolding merge_whole conclude blocking resolve_author
merge_3way_with_author core author_a author_b base a b =
    let whole = merge_whole core (resolve_author author_a author_b) base a b in
    conclude (blocking whole.0) (merged whole.1 whole.0)
