-- ===== src/Merge/Mirror/Whole.antt =====
-- merge/merge.go: the whole merge with its branches in the other order.
use fuaran_go.Prelude.{
  ℕ, zero, suc, String, refl, sym, subst, List, [], ◌∷◌, ◌++◌, Option, none, some,
}
use fuaran_go.Wire.Core.{Core}
use fuaran_go.Wire.Size.{node_size}
use fuaran_go.Wire.Value.{Node, id, kind}
use fuaran_go.Wire.Encode.{encode_node}
use fuaran_go.Merge.Order.{sorted_set}
use fuaran_go.Merge.Refusal.{Resolution, Merged, pick_facet, Author, resolve_author}
use fuaran_go.Merge.Facets.{
  children_of, childless_kind, merge_style, kind_canonical, state_canonical,
  accessibility_canonical, tooltip_canonical,
}
use fuaran_go.Merge.Places.{
  MoveCtx, new_move_ctx, index_placement, detect_all, detect_concurrent_moves, keys,
}
use fuaran_go.Merge.Engine.{
  ids, node_at, children_order, delete_cells, recurse_child, merge_children, merge_lists,
  merge_facets, merge_step, merge3_fuel, merge3, merge_whole, variant,
}
use fuaran_go.Merge.Mirror.{
  Mirrors, Mirrors-append, swap, pick_facet-Mirrors, merge_style-Mirrors, resolve_author-swap,
}
use fuaran_go.Merge.Mirror.Order.{children_order-Mirrors}
use fuaran_go.Merge.Mirror.Cells.{
  swap_ctx, detect_all-Mirrors, delete_cells-Mirrors, insert_twice-Mirrors,
}

module _ (core : Core) (res : Resolution) (mc : MoveCtx) where
  module _ (go go' : Node → Option Node → Option Node → Merged Node)
      (below : (base : Node) (a b : Option Node) → Mirrors (go base a b).0 (go' base b a).0) where
    recurse_child-Mirrors :
        (cid : String) (base a b : Option Node)
        → Mirrors
            (recurse_child core res mc go cid base a b).0
            (recurse_child core (swap res) (swap_ctx mc) go' cid base b a).0
    unfolding recurse_child
    recurse_child-Mirrors cid (some bc) a b = below bc a b
    recurse_child-Mirrors cid none (some ac) (some bc) =
        insert_twice-Mirrors core res mc cid ac bc (encode_node core ac) (encode_node core bc)
    recurse_child-Mirrors cid none (some ac) none = refl
    recurse_child-Mirrors cid none none (some bc) = refl
    recurse_child-Mirrors cid none none none = refl

    merge_children-Mirrors :
        (z x y : List Node) (cids : List String)
        → Mirrors
            (merge_children core res mc go z x y cids).0
            (merge_children core (swap res) (swap_ctx mc) go' z y x cids).0
    unfolding merge_children
    merge_children-Mirrors z x y [] = refl
    merge_children-Mirrors z x y (cid ∷ cids) =
        Mirrors-append
          (recurse_child core res mc go cid (node_at cid z) (node_at cid x) (node_at cid y)).0
          (merge_children core res mc go z x y cids).0
          (recurse_child core (swap res) (swap_ctx mc) go' cid (node_at cid z) (node_at cid y)
            (node_at cid x)).0
          (merge_children core (swap res) (swap_ctx mc) go' z y x cids).0
          (recurse_child-Mirrors cid (node_at cid z) (node_at cid x) (node_at cid y))
          (merge_children-Mirrors z x y cids)

    merge_lists-Mirrors :
        (i : String) (z x y : List Node)
        → Mirrors
            (merge_lists core res mc go i z x y).0
            (merge_lists core (swap res) (swap_ctx mc) go' i z y x).0
    unfolding merge_lists
    merge_lists-Mirrors i z x y =
        let o = children_order res i (ids z) (ids x) (ids y) in
        let o' = children_order (swap res) i (ids z) (ids y) (ids x) in
        let (order, same) = children_order-Mirrors res i (ids z) (ids x) (ids y) in
        let d = delete_cells core res mc z x y (ids z) in
        let d' = delete_cells core (swap res) (swap_ctx mc) z y x (ids z) in
        Mirrors-append (d ++ o.0) (merge_children core res mc go z x y o.1).0 (d' ++ o'.0)
          (merge_children core (swap res) (swap_ctx mc) go' z y x o'.1).0
          (Mirrors-append d o.0 d' o'.0 (delete_cells-Mirrors core res mc z x y (ids z)) order)
          (subst
            (λ cids.
              Mirrors (merge_children core res mc go z x y o.1).0
                (merge_children core (swap res) (swap_ctx mc) go' z y x cids).0)
            (sym same) (merge_children-Mirrors z x y o.1))

  merge_facets-Mirrors :
      (base a b : Node) (l l' : Merged (List Node))
      → Mirrors l.0 l'.0
      → Mirrors
          (merge_facets core res mc base a b l).0
          (merge_facets core (swap res) (swap_ctx mc) base b a l').0
  unfolding merge_facets
  merge_facets-Mirrors base a b l l' h =
      let shell = childless_kind (kind base) in
      let facet = pick_facet-Mirrors res (id base) in
      Mirrors-append
        (pick_facet res (id base) "kind" (kind_canonical core base) (kind_canonical core a)
          (kind_canonical core b)).0
        _
        (pick_facet (swap res) (id base) "kind" (kind_canonical core base) (kind_canonical core b)
          (kind_canonical core a)).0
        _ (facet "kind" (kind_canonical core base) (kind_canonical core a) (kind_canonical core b))
        (Mirrors-append (merge_style res (id base) base a b).0 _
          (merge_style (swap res) (id base) base b a).0 _
          (merge_style-Mirrors res (id base) base a b)
          (Mirrors-append
            (pick_facet res (id base) "state" (state_canonical core shell base)
              (state_canonical core shell a) (state_canonical core shell b)).0
            _
            (pick_facet (swap res) (id base) "state" (state_canonical core shell base)
              (state_canonical core shell b) (state_canonical core shell a)).0
            _
            (facet "state" (state_canonical core shell base) (state_canonical core shell a)
              (state_canonical core shell b))
            (Mirrors-append
              (pick_facet res (id base) "accessibility" (accessibility_canonical core shell base)
                (accessibility_canonical core shell a) (accessibility_canonical core shell b)).0
              _
              (pick_facet (swap res) (id base) "accessibility"
                (accessibility_canonical core shell base) (accessibility_canonical core shell b)
                (accessibility_canonical core shell a)).0
              _
              (facet "accessibility" (accessibility_canonical core shell base)
                (accessibility_canonical core shell a) (accessibility_canonical core shell b))
              (Mirrors-append
                (pick_facet res (id base) "tooltip" (tooltip_canonical core shell base)
                  (tooltip_canonical core shell a) (tooltip_canonical core shell b)).0
                (l.0 ++ [])
                (pick_facet (swap res) (id base) "tooltip" (tooltip_canonical core shell base)
                  (tooltip_canonical core shell b) (tooltip_canonical core shell a)).0
                (l'.0 ++ [])
                (facet "tooltip" (tooltip_canonical core shell base)
                  (tooltip_canonical core shell a) (tooltip_canonical core shell b))
                (Mirrors-append l.0 [] l'.0 [] h refl)))))

  merge3_fuel-Mirrors :
      (f : ℕ) (base : Node) (a b : Option Node)
      → Mirrors
          (merge3_fuel core res mc f base a b).0
          (merge3_fuel core (swap res) (swap_ctx mc) f base b a).0
  unfolding merge3_fuel merge_step
  merge3_fuel-Mirrors zero base a b = refl
  merge3_fuel-Mirrors (suc f) base a b =
      let x = variant base a in
      let y = variant base b in
      let go = merge3_fuel core res mc f in
      let go' = merge3_fuel core (swap res) (swap_ctx mc) f in
      merge_facets-Mirrors base x y
        (merge_lists core res mc go (id base) (children_of base) (children_of x) (children_of y))
        (merge_lists core (swap res) (swap_ctx mc) go' (id base) (children_of base) (children_of y)
          (children_of x))
        (merge_lists-Mirrors go go' (merge3_fuel-Mirrors f) (id base) (children_of base)
          (children_of x) (children_of y))

whole-Mirrors :
    (core : Core) (res : Resolution) (base a b : Node)
    → Mirrors (merge_whole core res base a b).0 (merge_whole core (swap res) base b a).0
unfolding merge_whole detect_concurrent_moves merge3 new_move_ctx
whole-Mirrors core res base a b =
    let mc = new_move_ctx base a b in
    let is = sorted_set (keys (index_placement base)) in
    Mirrors-append (detect_all core res mc base a b is)
      (merge3_fuel core res mc (node_size base) base (some a) (some b)).0
      (detect_all core (swap res) (swap_ctx mc) base b a is)
      (merge3_fuel core (swap res) (swap_ctx mc) (node_size base) base (some b) (some a)).0
      (detect_all-Mirrors core res mc base a b is)
      (merge3_fuel-Mirrors core res mc (node_size base) base (some a) (some b))

-- Given its branches in the other order, each with its author, a merge records the same refusals in
-- the same order, with the two sides of each one transposed and nothing else changed; only the text
-- by which an unencodable facet is reported may differ.
pub merge_whole-Mirrors :
    (core : Core) (x y : Author) (base a b : Node)
    → Mirrors
        (merge_whole core (resolve_author x y) base a b).0
        (merge_whole core (resolve_author y x) base b a).0
merge_whole-Mirrors core x y base a b =
    rw (resolve_author-swap x y) (whole-Mirrors core (resolve_author x y) base a b)
