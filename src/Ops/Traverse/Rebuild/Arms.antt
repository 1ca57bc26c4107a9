-- ===== src/Ops/Traverse/Rebuild/Arms.antt =====
-- Slots under the single-node arms of a kind.
use fuaran_go.Prelude.{
  String, ◌≡◌, refl, [], ◌++◌, Bool, true, false, not, none, str_eq, arith, Option-cases,
  Bool-cases, inl, inr, append_assoc, eq_iff, &&-true,
}
use fuaran_go.Wire.Value.{
  Value, node, tagged, Node, envelope, tag, fields, id, kind, extras, set, get-set,
}
use fuaran_go.Idl.Lookup.{ordered_children, node_arms}
use fuaran_go.Idl.Facts.{contains, node_arms-distinct, ordered_children-excludes}
use fuaran_go.Ops.Traverse.{
  held_in, layout_children, key_slots, switch_cases, children, set_kind_field,
}
use fuaran_go.Ops.Traverse.Slots.{case_children, kind_children, state_children, children-append}
use fuaran_go.Ops.Traverse.Rebuild.{Rebuilds}
use fuaran_go.Ops.Traverse.Rebuild.Keys.{key-Rebuilds}

-- The single-node arms of a kind.
no_slot_of_arms : (t k : String) → contains k (node_arms t) ≡ true → ordered_children t ≡ none
no_slot_of_arms t k h = elim (Option-cases (ordered_children t)) [
  | inl e ↦ e
  | inr (slot, e) ↦ cc (rw ((ordered_children-excludes t slot e).0) at h)
]

layout_children-none :
    (n : Node) → ordered_children (tag (kind n)) ≡ none → layout_children n ≡ none
unfolding layout_children
layout_children-none n h = rw (h, layout_children)

kind_children-arms :
    (n : Node)
    → layout_children n ≡ none
    → kind_children n
      ≡ held_in (fields (kind n)) (node_arms (tag (kind n))) ++ case_children (switch_cases n)
unfolding kind_children
kind_children-arms n h = rw (h, kind_children)

switch_cases-set_ne :
    (n : Node) (k : String) (v : Value)
    → str_eq k "cases" ≡ false
    → switch_cases (set_kind_field n k v) ≡ switch_cases n
unfolding switch_cases set_kind_field
switch_cases-set_ne n k v h = ground (arith, get-set k "cases" v (fields (kind n)))

pub state_children-set :
    (n : Node) (k : String) (v : Value) → state_children (set_kind_field n k v) ≡ state_children n
unfolding state_children set_kind_field
state_children-set n k v = refl

pub cases-not_arm : (t : String) → contains "cases" (node_arms t) ≡ false
cases-not_arm t = not_true (contains "cases" (node_arms t)) (&&-true _ _ (node_arms-distinct t)).0
  where
    not_true : (b : Bool) → not b ≡ true → b ≡ false
    not_true b h = ground arith

arm-not_cases : (t k : String) → contains k (node_arms t) ≡ true → str_eq k "cases" ≡ false
arm-not_cases t k h = elim (Bool-cases (str_eq k "cases")) [
  | inl same ↦ cc (cases-not_arm t, (eq_iff k "cases").0 same, h)
  | inr other ↦ other
]

pub kind_children-set :
    (n : Node) (k : String) (v : Value)
    → ordered_children (tag (kind n)) ≡ none
    → kind_children (set_kind_field n k v)
      ≡ held_in (set k v (fields (kind n))) (node_arms (tag (kind n)))
        ++ case_children (switch_cases (set_kind_field n k v))
kind_children-set n k v h =
    let m = envelope (id n) (tagged (tag (kind n)) (set k v (fields (kind n)))) (extras n) in
    unfold set_kind_field in kind_children-arms m (layout_children-none m h)

children-set_arm :
    (n : Node) (k : String) (c : Node)
    → contains k (node_arms (tag (kind n))) ≡ true
    → children (set_kind_field n k (node c))
      ≡ held_in (set k (node c) (fields (kind n))) (node_arms (tag (kind n)))
        ++ (case_children (switch_cases n) ++ state_children n)
children-set_arm (envelope i (tagged t fs) x) k c h =
    let n = envelope i (tagged t fs) x in
    let m = set_kind_field n k (node c) in
    cc (
      children-append m,
      state_children-set n k (node c),
      kind_children-set n k (node c) (no_slot_of_arms t k h),
      switch_cases-set_ne n k (node c) (arm-not_cases t k h),
      append_assoc (held_in (set k (node c) fs) (node_arms t)) (case_children (switch_cases n))
          (state_children n),
    )

pub arms-Rebuilds :
    (n : Node)
    → Rebuilds n []
        (key_slots
          (λ arm c. set_kind_field n arm (node c))
          (fields (kind n))
          (node_arms (tag (kind n))))
        (case_children (switch_cases n) ++ state_children n)
arms-Rebuilds n =
    key-Rebuilds n (λ arm c. set_kind_field n arm (node c)) (fields (kind n))
      (node_arms (tag (kind n))) [] (case_children (switch_cases n) ++ state_children n)
      (&&-true _ _ (node_arms-distinct (tag (kind n)))).1 (λ k c. unfold set_kind_field in refl)
      (children-set_arm n) [] (node_arms (tag (kind n))) refl
