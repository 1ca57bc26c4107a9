-- ===== src/Ops/Placement/Emitted.antt =====
-- ops/placement.go: what the engine does with the ops that the verbs emit.
use fuaran_go.Prelude.{String, ◌≡◌, refl, ◌∙◌, List, [], ◌∷◌, map, true, some}
use fuaran_go.Wire.Core.{Core}
use fuaran_go.Wire.Value.{
  str, arr, obj, Obj, Node, get, fields, field, end, from_list, to_list, to_list-from_list,
}
use fuaran_go.Ops.Traverse.{find_node, layout_children}
use fuaran_go.Ops.Apply.{applied}
use fuaran_go.Ops.Apply.Structure.{
  insert_child, insert_under, reorder_children, reorder_under, same_id_multiset, strings_of,
  reordered,
}
use fuaran_go.Ops.Apply.Engine.{apply_one, apply_step}
use fuaran_go.Ops.Laws.Batch.{apply_one_lem}
use fuaran_go.Ops.Laws.Runs.{batch-Runs, ends, steps}
use fuaran_go.Ops.Laws.Relist.{relist}
use fuaran_go.Ops.Placement.{insert_child_op, reorder_children_op, batch_op}

strings_of-str : (is : List String) → strings_of (map str is) ≡ some is
strings_of-str [] = refl
strings_of-str (i ∷ is) = rw (strings_of-str is, strings_of) refl

strings_of-order :
    (order : List String) → strings_of (to_list (from_list (map str order))) ≡ some order
strings_of-order order = rw (to_list-from_list (map str order)) (strings_of-str order)

reorder_children-op :
    (parent_id : String) (order : List String) (root : Node)
    → reorder_children (fields (reorder_children_op parent_id order)) root
      ≡ reorder_under parent_id order root
unfolding reorder_children get
reorder_children-op parent_id order root = rw (strings_of-order order, reorder_children) refl

pub reorder_under-accepts :
    (parent_id : String) (order : List String) (root parent : Node) (cs : List Node)
    → find_node parent_id root ≡ some parent
    → layout_children parent ≡ some cs
    → same_id_multiset cs order ≡ true
    → (t : Node) × (reorder_under parent_id order root ≡ applied t)
unfolding reorder_under
reorder_under-accepts parent_id order root parent cs h k s =
    let (t, e) = relist parent_id root parent cs (reordered cs order) h k in
    (t, rw (h, k, s, reorder_under) e.result)

module _ (core : Core) where
  pub apply_one-insert :
      (parent_id : String) (child root : Node)
      → apply_one core (insert_child_op parent_id child) root ≡ insert_under parent_id child root
  apply_one-insert parent_id child root =
      apply_one_lem core (insert_child_op parent_id child) root
      ∙ (unfold apply_step insert_child get in refl)

  pub apply_one-reorder :
      (parent_id : String) (order : List String) (root : Node)
      → apply_one core (reorder_children_op parent_id order) root
        ≡ reorder_under parent_id order root
  apply_one-reorder parent_id order root =
      apply_one_lem core (reorder_children_op parent_id order) root
      ∙ (unfold apply_step in reorder_children-op parent_id order root)

  -- a batch of two ops that are accepted one after the other
  pub apply_one-two :
      (x y : Obj) (root mid t : Node)
      → apply_one core x root ≡ applied mid
      → apply_one core y mid ≡ applied t
      → apply_one core (batch_op (x ∷ y ∷ [])) root ≡ applied t
  apply_one-two x y root mid t h k =
      (batch-Runs core (field "ops" (arr (from_list (map obj (x ∷ y ∷ [])))) end) root t
          (obj x ∷ obj y ∷ []) (unfold get in refl)).1
        (steps h (steps k ends))
