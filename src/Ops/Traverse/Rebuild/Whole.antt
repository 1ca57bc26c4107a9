-- ===== src/Ops/Traverse/Rebuild/Whole.antt =====
-- All slots of a node rebuild it.
use fuaran_go.Prelude.{
  String, ◌≡◌, refl, ap, ◌∙◌, subst, [], ◌++◌, true, false, str_eq, Option-cases, Bool-cases, inl,
  inr, append-nil,
}
use fuaran_go.Wire.Value.{node, Node, envelope, tag, fields, kind, set, as_obj, get-set_self}
use fuaran_go.Idl.Lookup.{node_arms}
use fuaran_go.Idl.Facts.{contains}
use fuaran_go.Ops.Traverse.{
  held_in, layout_children, key_slots, case_slots, switch_cases, kind_slots, fields_or_end,
  state_fields, state_keys, state_slots, child_slots, children, set_kind_field, set_state_child,
}
use fuaran_go.Ops.Traverse.Slots.{
  kind_children, state_children, children-append, kind_children-congr, layout_children-slot,
  kind_slots-children, state_slots-children, key_slots-children, case_slots-children,
}
use fuaran_go.Ops.Traverse.Rebuild.{Rebuilds, Rebuilds-append, layout-Rebuilds}
use fuaran_go.Ops.Traverse.Rebuild.Keys.{key-Rebuilds}
use fuaran_go.Ops.Traverse.Rebuild.Arms.{arms-Rebuilds}
use fuaran_go.Ops.Traverse.Rebuild.Cases.{case-Rebuilds}

-- The slots of the kind.
switch-Rebuilds :
    (n : Node)
    → Rebuilds n
        (held_in (fields (kind n)) (node_arms (tag (kind n))))
        (case_slots n (switch_cases n) 0 (switch_cases n))
        (state_children n)
switch-Rebuilds n = elim (Bool-cases (str_eq (tag (kind n)) "Switch")) [
  | inl same ↦
      subst
        (λ l. Rebuilds n l (case_slots n (switch_cases n) 0 (switch_cases n)) (state_children n))
        (append-nil (held_in (fields (kind n)) (node_arms (tag (kind n)))))
        (case-Rebuilds n (switch_cases n) same 0 [] (switch_cases n) refl refl)
  | inr other ↦ rw (no_cases other) (unfold case_slots in tt)
]
  where
    no_cases : str_eq (tag (kind n)) "Switch" ≡ false → switch_cases n ≡ []
    no_cases h = unfold switch_cases in rw h

kind-Rebuilds : (n : Node) → Rebuilds n [] (kind_slots n) (state_children n)
unfolding kind_slots
kind-Rebuilds n = elim (Option-cases (layout_children n)) [
  | inl e ↦
      rw (e, kind_slots)
        (Rebuilds-append n []
          (key_slots (λ arm c. set_kind_field n arm (node c)) (fields (kind n))
            (node_arms (tag (kind n))))
          (case_slots n (switch_cases n) 0 (switch_cases n)) (state_children n)
          (rw case_slots-children (arms-Rebuilds n)) (rw key_slots-children (switch-Rebuilds n)))
  | inr (cs, e) ↦
      let (slot, has) = layout_children-slot n e in
      rw (e, kind_slots) (layout-Rebuilds n slot cs 0 [] cs has refl refl)
]

-- The slots of the state block.
kind_children-set_state :
    (n : Node) (k : String) (c : Node) → kind_children (set_state_child n k c) ≡ kind_children n
unfolding set_state_child
kind_children-set_state (envelope i kd x) k c = kind_children-congr i i kd _ x

state_children-set_state :
    (n : Node) (k : String) (c : Node)
    → state_children (set_state_child n k c) ≡ held_in (set k (node c) (state_fields n)) state_keys
unfolding state_children set_state_child
state_children-set_state (envelope i kd x) k c =
    ap (λ o. held_in (fields_or_end (as_obj o)) state_keys) (get-set_self "state" _ x)

children-set_state :
    (n : Node) (k : String) (c : Node)
    → contains k state_keys ≡ true
    → children (set_state_child n k c)
      ≡ kind_children n ++ (held_in (set k (node c) (state_fields n)) state_keys ++ [])
children-set_state n k c h =
    children-append (set_state_child n k c)
    ∙ cc (
      kind_children-set_state n k c,
      state_children-set_state n k c,
      append-nil (held_in (set k (node c) (state_fields n)) state_keys),
    )

state-Rebuilds : (n : Node) → Rebuilds n (kind_children n) (state_slots n) []
unfolding state_slots
state-Rebuilds n = rw append-nil at (
    key-Rebuilds n (λ k c. set_state_child n k c) (state_fields n) state_keys (kind_children n) []
      refl (λ k c. unfold set_state_child in refl) (children-set_state n) [] state_keys refl)

-- For every slot of a node and every new sub-node, the rebuild keeps the id of the node and gives its
-- sub-nodes with the new one at the place of the slot.
pub child_slots-Rebuilds : (n : Node) → Rebuilds n [] (child_slots n) []
unfolding child_slots
child_slots-Rebuilds n =
    Rebuilds-append n [] (kind_slots n) (state_slots n) []
      (rw (append-nil, state_slots-children) (kind-Rebuilds n))
      (rw kind_slots-children (state-Rebuilds n))
