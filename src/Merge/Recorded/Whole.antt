-- ===== src/Merge/Recorded/Whole.antt =====
-- merge/merge.go: the induction of `Recorded` over merge3 and the search for moves.
use fuaran_go.Prelude.{
  ℕ, zero, suc, String, ◌&&◌, not, ◌||◌, Bool, true, false, List, [], ◌∷◌, Option, none, some, All,
  All-append, Bool-cases, inl, inr, str_eq,
}
use fuaran_go.Wire.Core.{Core, Bytes, bytes_eq, codes}
use fuaran_go.Wire.Size.{node_size}
use fuaran_go.Wire.Value.{Node, id}
use fuaran_go.Wire.Encode.{Encoded, ok, refused, RowCellRefused, encode_node}
use fuaran_go.Merge.Order.{sorted_set}
use fuaran_go.Merge.Refusal.{
  Resolution, Conflict, ConflictClass, record_classed, record_unencodable, Merged, concurrent_move,
  delete_modify,
}
use fuaran_go.Merge.Facets.{children_of}
use fuaran_go.Merge.Places.{
  last_of, MoveCtx, new_move_ctx, detect_between, detect_at, detect_all, detect_concurrent_moves,
  keys, compare_moved, contest_cells, or_zero, is_placed,
}
use fuaran_go.Merge.Engine.{
  ids, node_at, delete_cell, delete_cells, survivor_cell, insert_twice, recurse_child,
  merge_children, merge_lists, merge_step, merge3_fuel, merge3, merge_whole, variant,
}
use fuaran_go.Merge.Recorded.{
  record_conflict-All, pick_facet-All, merge_style-All, children_order-All,
}

module _ (P : Conflict → Type 0) (res : Resolution)
    (classed : (i facet : String) (k : ConflictClass) (base_v a_v b_v : Option Bytes)
      → All P (record_classed res i facet k base_v a_v b_v).0)
    (unencodable : (i facet : String) (e : RowCellRefused)
      → All P (record_unencodable res i facet e)) where
  contest_cells-All :
      (i p q r : String) (base_c a_c b_c : Bytes) → All P (contest_cells res i p q r base_c a_c b_c)
  unfolding contest_cells
  contest_cells-All i p q r base_c a_c b_c =
      All-append P _ _
        (classed i "move" concurrent_move (some (codes p)) (some (codes q)) (some (codes r)))
        (elim (Bool-cases (bytes_eq a_c b_c)) [
          | inl e ↦ rw e tt
          | inr e ↦ rw e (classed i "node" concurrent_move (some base_c) (some a_c) (some b_c))
        ])

  compare_moved-All :
      (i p q r : String) (a_c b_c base_c : Encoded)
      → All P (compare_moved res i p q r a_c b_c base_c)
  unfolding compare_moved
  compare_moved-All i p q r (refused e) b_c base_c = unencodable i "node" e
  compare_moved-All i p q r (ok x) (refused e) base_c = unencodable i "node" e
  compare_moved-All i p q r (ok x) (ok y) (refused e) = unencodable i "node" e
  compare_moved-All i p q r (ok x) (ok y) (ok z) =
      elim (Bool-cases ((not (str_eq q p) && not (str_eq r p)) || not (bytes_eq x y))) [
        | inl e ↦ rw e (contest_cells-All i p q r z x y)
        | inr e ↦ rw e tt
      ]

  module _ (core : Core) (mc : MoveCtx) where
    detect_between-All :
        (base a b : Node) (i : String) (p q : Option String)
        → All P (detect_between core res mc base a b i p q)
    unfolding detect_between
    detect_between-All base a b i none q = tt
    detect_between-All base a b i (some p) none = tt
    detect_between-All base a b i (some p) (some q) = elim (Bool-cases (str_eq p q)) [
      | inl e ↦ rw e tt
      | inr e ↦ rw e (compare_moved-All i _ p q _ _ _)
    ]

    detect_all-All :
        (base a b : Node) (is : List String) → All P (detect_all core res mc base a b is)
    unfolding detect_all detect_at
    detect_all-All base a b [] = tt
    detect_all-All base a b (i ∷ is) =
        All-append P _ _
          (detect_between-All base a b i (last_of i mc.a_places) (last_of i mc.b_places))
          (detect_all-All base a b is)

    survivor_cell-All :
        (cid : String) (a_survives : Bool) (base_c survivor_c : Encoded)
        → All P (survivor_cell core res mc cid a_survives base_c survivor_c)
    unfolding survivor_cell
    survivor_cell-All cid s (refused e) survivor_c = unencodable cid "node" e
    survivor_cell-All cid s (ok x) (refused e) = unencodable cid "node" e
    survivor_cell-All cid true (ok x) (ok y) = elim (Bool-cases (bytes_eq y x)) [
      | inl e ↦ rw e tt
      | inr e ↦ rw e (classed cid "node" delete_modify (some x) (some y) (some []))
    ]
    survivor_cell-All cid false (ok x) (ok y) = elim (Bool-cases (bytes_eq y x)) [
      | inl e ↦ rw e tt
      | inr e ↦ rw e (classed cid "node" delete_modify (some x) (some []) (some y))
    ]

    delete_cell-All :
        (cid : String) (bc : Node) (a_o b_o : Option Node)
        → All P (delete_cell core res mc cid bc a_o b_o)
    unfolding delete_cell
    delete_cell-All cid bc none none = tt
    delete_cell-All cid bc (some ac) (some bb) = tt
    delete_cell-All cid bc none (some bb) = elim (Bool-cases (is_placed mc.a_places cid)) [
      | inl e ↦ rw e tt
      | inr e ↦ rw e (survivor_cell-All cid false (encode_node core bc) (encode_node core bb))
    ]
    delete_cell-All cid bc (some ac) none = elim (Bool-cases (is_placed mc.b_places cid)) [
      | inl e ↦ rw e tt
      | inr e ↦ rw e (survivor_cell-All cid true (encode_node core bc) (encode_node core ac))
    ]

    delete_cells-All :
        (base_kids a_kids b_kids : List Node) (cids : List String)
        → All P (delete_cells core res mc base_kids a_kids b_kids cids)
    unfolding delete_cells
    delete_cells-All base_kids a_kids b_kids [] = tt
    delete_cells-All base_kids a_kids b_kids (cid ∷ cids) =
        All-append P _ _
          (delete_cell-All cid (or_zero (node_at cid base_kids)) (node_at cid a_kids)
            (node_at cid b_kids))
          (delete_cells-All base_kids a_kids b_kids cids)

    insert_twice-All :
        (cid : String) (ac bc : Node) (a_c b_c : Encoded)
        → All P (insert_twice core res mc cid ac bc a_c b_c).0
    unfolding insert_twice
    insert_twice-All cid ac bc (refused e) b_c = unencodable cid "insert" e
    insert_twice-All cid ac bc (ok x) (refused e) = unencodable cid "insert" e
    insert_twice-All cid ac bc (ok x) (ok y) = elim (Bool-cases (bytes_eq x y)) [
      | inl e ↦ rw e tt
      | inr e ↦
          rw e
            (record_conflict-All P res classed unencodable cid "insert" (some []) (some x) (some y))
    ]

    module _ (go : Node → Option Node → Option Node → Merged Node)
        (below : (base : Node) (a b : Option Node) → All P (go base a b).0) where
      recurse_child-All :
          (cid : String) (base a b : Option Node)
          → All P (recurse_child core res mc go cid base a b).0
      unfolding recurse_child
      recurse_child-All cid (some bc) a b = below bc a b
      recurse_child-All cid none (some ac) (some bc) =
          insert_twice-All cid ac bc (encode_node core ac) (encode_node core bc)
      recurse_child-All cid none (some ac) none = tt
      recurse_child-All cid none none b = tt

      merge_children-All :
          (base_kids a_kids b_kids : List Node) (cids : List String)
          → All P (merge_children core res mc go base_kids a_kids b_kids cids).0
      unfolding merge_children
      merge_children-All base_kids a_kids b_kids [] = tt
      merge_children-All base_kids a_kids b_kids (cid ∷ cids) =
          All-append P _ _
            (recurse_child-All cid (node_at cid base_kids) (node_at cid a_kids)
              (node_at cid b_kids))
            (merge_children-All base_kids a_kids b_kids cids)

      merge_lists-All :
          (i : String) (base_kids a_kids b_kids : List Node)
          → All P (merge_lists core res mc go i base_kids a_kids b_kids).0
      unfolding merge_lists
      merge_lists-All i base_kids a_kids b_kids =
          All-append P _ _
            (All-append P _ _ (delete_cells-All base_kids a_kids b_kids (ids base_kids)) (
              children_order-All P res classed unencodable i (ids base_kids) (ids a_kids)
                (ids b_kids)))
            (merge_children-All base_kids a_kids b_kids _)

      merge_step-All : (base a b : Node) → All P (merge_step core res mc go base a b).0
      unfolding merge_step
      merge_step-All base a b =
          let facet = pick_facet-All P res classed unencodable (id base) in
          All-append P _ _ (facet "kind" _ _ _) (
            All-append P _ _ (merge_style-All P res classed unencodable (id base) base a b) (
              All-append P _ _ (facet "state" _ _ _) (
                All-append P _ _ (facet "accessibility" _ _ _) (
                  All-append P _ _ (facet "tooltip" _ _ _) (
                    All-append P _ []
                      (merge_lists-All (id base) (children_of base) (children_of a) (children_of b))
                      tt)))))

    merge3_fuel-All :
        (f : ℕ) (base : Node) (a b : Option Node) → All P (merge3_fuel core res mc f base a b).0
    unfolding merge3_fuel
    merge3_fuel-All zero base a b = tt
    merge3_fuel-All (suc f) base a b =
        merge_step-All (merge3_fuel core res mc f) (merge3_fuel-All f) base (variant base a)
          (variant base b)

  pub merge_whole-All : (core : Core) (base a b : Node) → All P (merge_whole core res base a b).0
  unfolding merge_whole detect_concurrent_moves merge3 new_move_ctx
  merge_whole-All core base a b =
      let mc = new_move_ctx base a b in
      let is = sorted_set (keys mc.base_places) in
      All-append P (detect_all core res mc base a b is)
        (merge3_fuel core res mc (node_size base) base (some a) (some b)).0
        (detect_all-All core mc base a b is)
        (merge3_fuel-All core mc (node_size base) base (some a) (some b))
