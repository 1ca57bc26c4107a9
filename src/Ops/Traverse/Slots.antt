-- ===== src/Ops/Traverse/Slots.antt =====
-- What the slots of a node hold, segment by segment.
use fuaran_go.Prelude.{
  ℕ, suc, String, ◌≡◌, refl, ap, List, [], ◌∷◌, ◌++◌, map, none, some, arith, map-append,
  Option-cases, inl, inr,
}
use fuaran_go.Wire.Value.{
  Value, node, tagged, Fields, Node, envelope, tag, fields, kind, nodes_in, get-set_self,
  to_list-from_list,
}
use fuaran_go.Idl.Lookup.{ordered_children, node_arms}
use fuaran_go.Ops.Traverse.{
  ChildSlot, held_in, layout_children, layout_slots, key_slots, case_child, case_slots,
  switch_cases, kind_slots, state_fields, state_keys, state_slots, child_slots, children,
  set_state_child, with_layout_children,
}

abbrev pub child_of : ChildSlot → Node
child_of s = s.child

abbrev pub case_children : List Value → List Node
case_children [] = []
case_children (v ∷ vs) = elim (case_child v) [
  | none ↦ case_children vs
  | some c ↦ c ∷ case_children vs
]

unfoldable pub kind_children : Node → List Node
kind_children n = elim (layout_children n) [
  | some cs ↦ cs
  | none ↦ held_in (fields (kind n)) (node_arms (tag (kind n))) ++ case_children (switch_cases n)
]

unfoldable pub state_children : Node → List Node
state_children n = held_in (state_fields n) state_keys

pub layout_slots-children :
    (n : Node) (cs : List Node) (i : ℕ) (rest : List Node)
    → map child_of (layout_slots n cs i rest) ≡ rest
unfolding layout_slots
layout_slots-children n cs i [] = refl
layout_slots-children n cs i (c ∷ rest) = ap (λ l. c ∷ l) (layout_slots-children n cs (suc i) rest)

pub key_slots-children :
    (put : String → Node → Node) (fs : Fields) (ks : List String)
    → map child_of (key_slots put fs ks) ≡ held_in fs ks
unfolding key_slots
key_slots-children put fs [] = refl
key_slots-children put fs (k ∷ ks) = ground (arith, key_slots-children put fs ks)

pub case_slots-children :
    (n : Node) (cs : List Value) (i : ℕ) (rest : List Value)
    → map child_of (case_slots n cs i rest) ≡ case_children rest
unfolding case_slots
case_slots-children n cs i [] = refl
case_slots-children n cs i (v ∷ rest) = ground (arith, case_slots-children n cs (suc i) rest)

pub kind_slots-children : (n : Node) → map child_of (kind_slots n) ≡ kind_children n
unfolding kind_slots kind_children
kind_slots-children n = elim (Option-cases (layout_children n)) [
  | inl e ↦
      rw (e, kind_slots, kind_children) (rw (map-append, key_slots-children, case_slots-children))
  | inr (cs, e) ↦ rw (e, kind_slots, kind_children) (layout_slots-children n cs 0 cs)
]

pub state_slots-children : (n : Node) → map child_of (state_slots n) ≡ state_children n
unfolding state_slots state_children
state_slots-children n =
    key_slots-children (λ k c. set_state_child n k c) (state_fields n) state_keys

-- The sub-nodes of a node: those of its kind, then those of its state block.
pub children-append : (n : Node) → children n ≡ kind_children n ++ state_children n
unfolding children child_slots state_slots state_children
children-append n = rw (map-append, kind_slots-children, key_slots-children)

-- The kind alone decides the first part.
pub kind_children-congr :
    (i j : String) (k : _) (x y : Fields)
    → kind_children (envelope i k x) ≡ kind_children (envelope j k y)
unfolding kind_children layout_children switch_cases
kind_children-congr i j k x y = refl

nodes_in-map : (cs : List Node) → nodes_in (map node cs) ≡ cs
nodes_in-map [] = refl
nodes_in-map (c ∷ cs) = ap (λ l. c ∷ l) (nodes_in-map cs)

pub layout_children-with :
    (n : Node) (slot : String) (cs : List Node)
    → ordered_children (tag (kind n)) ≡ some slot
    → layout_children (with_layout_children n cs) ≡ some cs
unfolding layout_children with_layout_children
layout_children-with (envelope i (tagged t fs) x) slot cs h =
    rw (h, with_layout_children, layout_children)
      (rw (h, layout_children) (rw get-set_self (rw (to_list-from_list, nodes_in-map))))

-- a layout node has an ordered slot
pub layout_children-slot :
    (n : Node) {cs : List Node}
    → layout_children n ≡ some cs
    → (slot : String) × (ordered_children (tag (kind n)) ≡ some slot)
unfolding layout_children
layout_children-slot n h = elim (Option-cases (ordered_children (tag (kind n)))) [
  | inl e ↦ cc (rw (e, layout_children) at h)
  | inr (slot, e) ↦ (slot, e)
]
