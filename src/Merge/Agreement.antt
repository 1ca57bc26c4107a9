-- ===== src/Merge/Agreement.antt =====
-- merge/merge.go: two branches that hold the same tree.
use fuaran_go.Prelude.{
  ids_eq, ℕ, zero, suc, String, ◌≡◌, refl, true, List, [], ◌∷◌, ◌++◌, Option, none, some, All,
  All-append, arith, eq_refl,
}
use fuaran_go.Wire.Core.{Core, Bytes, bytes_eq}
use fuaran_go.Wire.Value.{Node, id}
use fuaran_go.Wire.Encode.{Encoded, ok, refused, encode_node}
use fuaran_go.Merge.Order.{bytes_eq_iff, sorted_set}
use fuaran_go.Merge.Refusal.{
  Resolution, Conflict, unencodable_facet, record_unencodable, pick_facet, pick_canonical,
  pick_field, text_opt_eq, Merged,
}
use fuaran_go.Merge.Facets.{
  children_of, merge_style, merge_member, merge_direction, style_field, style_field_or,
}
use fuaran_go.Merge.Places.{
  last_of, MoveCtx, new_move_ctx, detect_between, detect_at, detect_all, detect_concurrent_moves,
  keys, or_zero,
}
use fuaran_go.Merge.Engine.{
  ids, node_at, children_order, delete_cell, delete_cells, insert_twice, recurse_child,
  merge_children, merge_lists, merge_step, merge3_fuel, merge3, merge_whole, variant,
}

abbrev pub IsUnencodable : Conflict → Type 0
IsUnencodable c = c.conflict_class ≡ unencodable_facet

bytes_eq_self : (s : Bytes) → bytes_eq s s ≡ true
bytes_eq_self s = (bytes_eq_iff s s).1 refl

pub ids_eq_self : (xs : List String) → ids_eq xs xs ≡ true
ids_eq_self [] = refl
ids_eq_self (x ∷ xs) = rw (eq_refl x) (ids_eq_self xs)

text_opt_eq_self : (v : Option String) → text_opt_eq v v ≡ true
text_opt_eq_self none = refl
text_opt_eq_self (some s) = eq_refl s

pick_canonical-agreed :
    (res : Resolution) (i facet : String) (base_c c : Bytes)
    → (pick_canonical res i facet base_c c c).0 ≡ []
unfolding pick_canonical
pick_canonical-agreed res i facet base_c c = ground (arith, bytes_eq_self c)

pick_field-agreed :
    (res : Resolution) (i facet : String) (base_v v : Option String)
    → (pick_field res i facet base_v v v).0 ≡ []
unfolding pick_field
pick_field-agreed res i facet base_v v = ground (arith, text_opt_eq_self v)

pick_facet-agreed :
    (res : Resolution) (i facet : String) (base_c c : Encoded)
    → All IsUnencodable (pick_facet res i facet base_c c c).0
unfolding pick_facet record_unencodable
pick_facet-agreed res i facet (refused e) c = (refl, tt)
pick_facet-agreed res i facet (ok base_c) (refused e) = (refl, tt)
pick_facet-agreed res i facet (ok base_c) (ok c) =
    rw (pick_canonical-agreed res i facet base_c c) tt

merge_style-agreed :
    (res : Resolution) (i : String) (base n : Node) → (merge_style res i base n n).0 ≡ []
unfolding merge_style merge_member merge_direction
merge_style-agreed res i base n = rw (
  pick_field-agreed res i "style.tone" (style_field base "tone") (style_field n "tone"),
  pick_field-agreed res i "style.weight" (style_field base "weight") (style_field n "weight"),
  pick_field-agreed res i "style.emphasis" (style_field base "emphasis") (style_field n "emphasis"),
  pick_field-agreed res i "style.role" (style_field base "role") (style_field n "role"),
  pick_field-agreed res i "style.voice" (style_field base "voice") (style_field n "voice"),
  pick_field-agreed res i "style.direction" (style_field_or base "direction" "auto")
      (style_field_or n "direction" "auto"),
)

children_order-agreed :
    (res : Resolution) (i : String) (base_ids xs : List String)
    → (children_order res i base_ids xs xs).0 ≡ []
unfolding children_order
children_order-agreed res i base_ids xs = ground (arith, ids_eq_self xs)

module _ (core : Core) (res : Resolution) (mc : MoveCtx) where
  delete_cells-agreed :
      (base_kids kids : List Node) (cids : List String)
      → delete_cells core res mc base_kids kids kids cids ≡ []
  unfolding delete_cells
  delete_cells-agreed base_kids kids [] = refl
  delete_cells-agreed base_kids kids (cid ∷ cids) =
      rw (delete_cells-agreed base_kids kids cids)
        (cell (or_zero (node_at cid base_kids)) (node_at cid kids))
    where
      cell : (bc : Node) (o : Option Node) → delete_cell core res mc cid bc o o ++ [] ≡ []
      cell bc none = refl
      cell bc (some n) = refl

  insert_twice-agreed :
      (cid : String) (n : Node) (c : Encoded)
      → All IsUnencodable (insert_twice core res mc cid n n c c).0
  unfolding insert_twice record_unencodable
  insert_twice-agreed cid n (refused e) = (refl, tt)
  insert_twice-agreed cid n (ok c) = rw (bytes_eq_self c) tt

  module _ (go : Node → Option Node → Option Node → Merged Node)
      (agreed : (base : Node) (o : Option Node) → All IsUnencodable (go base o o).0) where
    recurse_child-agreed :
        (cid : String) (base o : Option Node)
        → All IsUnencodable (recurse_child core res mc go cid base o o).0
    unfolding recurse_child
    recurse_child-agreed cid (some bc) o = agreed bc o
    recurse_child-agreed cid none (some n) = insert_twice-agreed cid n (encode_node core n)
    recurse_child-agreed cid none none = tt

    merge_children-agreed :
        (base_kids kids : List Node) (cids : List String)
        → All IsUnencodable (merge_children core res mc go base_kids kids kids cids).0
    unfolding merge_children
    merge_children-agreed base_kids kids [] = tt
    merge_children-agreed base_kids kids (cid ∷ cids) =
        All-append IsUnencodable _ _
          (recurse_child-agreed cid (node_at cid base_kids) (node_at cid kids))
          (merge_children-agreed base_kids kids cids)

    merge_lists-agreed :
        (i : String) (base_kids kids : List Node)
        → All IsUnencodable (merge_lists core res mc go i base_kids kids kids).0
    unfolding merge_lists
    merge_lists-agreed i base_kids kids =
        rw
          (
            delete_cells-agreed base_kids kids (ids base_kids),
            children_order-agreed res i (ids base_kids) (ids kids),
          )
          (merge_children-agreed base_kids kids _)

    merge_step-agreed : (base n : Node) → All IsUnencodable (merge_step core res mc go base n n).0
    unfolding merge_step
    merge_step-agreed base n =
        All-append IsUnencodable _ _ (pick_facet-agreed res (id base) "kind" _ _) (
          rw (merge_style-agreed res (id base) base n) (
            All-append IsUnencodable _ _ (pick_facet-agreed res (id base) "state" _ _) (
              All-append IsUnencodable _ _ (pick_facet-agreed res (id base) "accessibility" _ _) (
                All-append IsUnencodable _ _ (pick_facet-agreed res (id base) "tooltip" _ _) (
                  All-append IsUnencodable _ []
                    (merge_lists-agreed (id base) (children_of base) (children_of n)) tt)))))

  merge3-agreed :
      (f : ℕ) (base : Node) (o : Option Node)
      → All IsUnencodable (merge3_fuel core res mc f base o o).0
  unfolding merge3_fuel
  merge3-agreed zero base o = tt
  merge3-agreed (suc f) base o =
      merge_step-agreed (merge3_fuel core res mc f) (merge3-agreed f) base (variant base o)

module _ (core : Core) (res : Resolution) (mc : MoveCtx) (base n : Node) where
  detect_between-agreed :
      (i : String) (o : Option String) → detect_between core res mc base n n i o o ≡ []
  unfolding detect_between
  detect_between-agreed i none = refl
  detect_between-agreed i (some p) = rw (eq_refl p)

  detect_all-agreed :
      mc.a_places ≡ mc.b_places → (is : List String) → detect_all core res mc base n n is ≡ []
  unfolding detect_all detect_at
  detect_all-agreed h [] = refl
  detect_all-agreed h (i ∷ is) =
      rw (h, detect_between-agreed i (last_of i mc.b_places)) (detect_all-agreed h is)

-- Two branches that hold the same tree never disagree: the only refusals of their merge, whoever
-- wrote them, are those of facets that have no canonical encoding.
pub merge_whole-agreed :
    (core : Core) (res : Resolution) (base n : Node)
    → All IsUnencodable (merge_whole core res base n n).0
unfolding merge_whole detect_concurrent_moves merge3 new_move_ctx
merge_whole-agreed core res base n =
    rw
      (detect_all-agreed core res (new_move_ctx base n n) base n refl
        (sorted_set (keys (new_move_ctx base n n).base_places)))
      (merge3-agreed core res (new_move_ctx base n n) _ base (some n))
