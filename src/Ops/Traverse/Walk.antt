-- ===== src/Ops/Traverse/Walk.antt =====
-- Sub-nodes are smaller than their node, so a walk has fuel enough: it satisfies the equation that
-- the recursive Go function states, and properties of trees are proved by induction on sub-nodes.
use fuaran_go.Prelude.{
  ℕ, zero, suc, ◌+◌, ◌<◌, ◌≤◌, String, ◌≡◌, refl, subst, List, [], ◌∷◌, Option, none, some, str_eq,
  All, All-append, All-imp, arith, Option-cases, Bool-cases, inl, inr,
}
use fuaran_go.Wire.Value.{
  Value, Values, nil, cons, arr, obj, node, Obj, tagged, Fields, Node, envelope, tag, fields, kind,
  extras, get, as_arr, as_obj, as_node, nodes_in, to_list,
}
use fuaran_go.Wire.Size.{value_size, values_size, obj_size, fields_size, node_size, get-lt}
use fuaran_go.Idl.Lookup.{node_arms}
use fuaran_go.Ops.Traverse.{
  held_in, layout_children, nodes_of, case_child, switch_cases, elements, state_fields,
  fields_or_end, state_keys, children, walk, over,
}
use fuaran_go.Ops.Traverse.Slots.{
  case_children, kind_children, state_children, children-append, layout_children-slot,
}

abbrev pub Below : ℕ → Node → Type 0
Below m c = node_size c < m

get_obj-lt :
    (k : String) (fs : Fields) (o : Obj) → as_obj (get k fs) ≡ some o → obj_size o < fields_size fs
unfolding value_size
get_obj-lt k fs o h = go (get k fs) refl h
  where
    go : (r : Option Value) → get k fs ≡ r → as_obj r ≡ some o → obj_size o < fields_size fs
    go none e h = cc
    go (some (obj p)) e h = ground (arith, get-lt k fs (obj p) e)
    go (some _) e h = cc

get_node-lt :
    (k : String) (fs : Fields) (c : Node)
    → as_node (get k fs) ≡ some c
    → node_size c < fields_size fs
unfolding value_size
get_node-lt k fs c h = go (get k fs) refl h
  where
    go : (r : Option Value) → get k fs ≡ r → as_node r ≡ some c → node_size c < fields_size fs
    go none e h = cc
    go (some (node p)) e h = ground (arith, get-lt k fs (node p) e)
    go (some _) e h = cc

held-Below : (fs : Fields) (ks : List String) → All (Below (fields_size fs)) (held_in fs ks)
held-Below fs [] = tt
held-Below fs (k ∷ ks) = elim (Option-cases (as_node (get k fs))) [
  | inl gone ↦ rw (gone, held_in) (held-Below fs ks)
  | inr (c, here) ↦ rw (here, held_in) (get_node-lt k fs c here, held-Below fs ks)
]

pub nodes_in-Below : (vs : Values) → All (Below (values_size vs)) (nodes_in (to_list vs))
unfolding value_size
nodes_in-Below nil = tt
nodes_in-Below (cons (node n) vs) =
    (omega arith, All-imp (λ c p. omega arith) (nodes_in (to_list vs)) (nodes_in-Below vs))
nodes_in-Below (cons _ vs) =
    All-imp (λ c p. omega arith) (nodes_in (to_list vs)) (nodes_in-Below vs)

case_child-Below : (v : Value) (c : Node) → case_child v ≡ some c → node_size c < value_size v
unfolding value_size
case_child-Below (obj (tagged t fs)) c h = omega (arith, get_node-lt "child" fs c h)
case_child-Below _ c h = cc

case_children-Below : (vs : Values) → All (Below (values_size vs)) (case_children (to_list vs))
unfolding value_size
case_children-Below nil = tt
case_children-Below (cons v vs) =
    let rest : All (Below (suc (value_size v + values_size vs))) (case_children (to_list vs)) =
      All-imp (λ c p. omega arith) (case_children (to_list vs)) (case_children-Below vs) in
    elim (Option-cases (case_child v)) [
      | inl gone ↦ rw (gone, case_children) rest
      | inr (c, here) ↦ rw (here, case_children) (omega (arith, case_child-Below v c here), rest)
    ]

-- an array under a key is smaller than the object
pub arr-lt :
    (k : String) (fs : Fields) (vs : Values)
    → get k fs ≡ some (arr vs)
    → values_size vs < fields_size fs
unfolding value_size
arr-lt k fs vs h = ground (arith, get-lt k fs (arr vs) h)

elements-Below :
    (k : String) (fs : Fields)
    → All (Below (fields_size fs)) (case_children (elements (as_arr (get k fs))))
elements-Below k fs = go (get k fs) refl
  where
    go :
        (r : Option Value)
        → get k fs ≡ r
        → All (Below (fields_size fs)) (case_children (elements (as_arr r)))
    go none e = tt
    go (some (arr vs)) e =
        All-imp (λ c p. omega (arith, arr-lt k fs vs e)) (case_children (to_list vs))
          (case_children-Below vs)
    go (some _) e = tt

layout_children-Below :
    (n : Node) (cs : List Node)
    → layout_children n ≡ some cs
    → All (Below (fields_size (fields (kind n)))) cs
layout_children-Below n cs h =
    let (slot, has) = layout_children-slot n h in
    go slot (get slot (fields (kind n))) refl
      (unfold layout_children in rw (has, layout_children) at h)
  where
    go :
        (slot : String) (r : Option Value)
        → get slot (fields (kind n)) ≡ r
        → nodes_of (as_arr r) ≡ some cs
        → All (Below (fields_size (fields (kind n)))) cs
    go slot none e p = cc
    go slot (some (arr vs)) e p =
        let same : nodes_in (to_list vs) ≡ cs = cc in
        subst (All (Below (fields_size (fields (kind n))))) same (
          All-imp (λ c q. omega (arith, arr-lt slot (fields (kind n)) vs e)) (nodes_in (to_list vs))
            (nodes_in-Below vs))
    go slot (some _) e p = cc

switch_cases-Below :
    (n : Node) → All (Below (fields_size (fields (kind n)))) (case_children (switch_cases n))
unfolding switch_cases
switch_cases-Below n = elim (Bool-cases (str_eq (tag (kind n)) "Switch")) [
  | inl e ↦ rw e (elements-Below "cases" (fields (kind n)))
  | inr e ↦ rw e tt
]

kind_children-Below : (n : Node) → All (Below (fields_size (fields (kind n)))) (kind_children n)
kind_children-Below n = elim (Option-cases (layout_children n)) [
  | inl e ↦
      unfold kind_children in
      rw (e, kind_children)
        (All-append _ _ _ (held-Below (fields (kind n)) (node_arms (tag (kind n))))
          (switch_cases-Below n))
  | inr (cs, e) ↦ unfold kind_children in rw (e, kind_children) (layout_children-Below n cs e)
]

pub state_fields-le : (n : Node) → fields_size (state_fields n) ≤ suc (fields_size (extras n))
state_fields-le n = go (as_obj (get "state" (extras n))) refl
  where
    go :
        (o : Option Obj)
        → as_obj (get "state" (extras n)) ≡ o
        → fields_size (fields_or_end o) ≤ suc (fields_size (extras n))
    go none e = unfold value_size in omega arith
    go (some (tagged t fs)) e =
        unfold value_size in omega (arith, get_obj-lt "state" (extras n) (tagged t fs) e)

pub node_size-parts :
    (n : Node) → node_size n ≡ suc (suc (fields_size (fields (kind n))) + fields_size (extras n))
unfolding value_size
node_size-parts (envelope i (tagged t fs) x) = refl

-- Every sub-node of a node has a smaller size.
pub children-smaller : (n : Node) → All (λ c. node_size c < node_size n) (children n)
children-smaller n = rw (children-append n) (
    All-append _ (kind_children n) (state_children n)
      (All-imp (λ c p. omega (arith, node_size-parts n)) (kind_children n) (kind_children-Below n))
      (unfold state_children in
        All-imp (λ c p. omega (arith, node_size-parts n, state_fields-le n))
          (held_in (state_fields n) state_keys) (held-Below (state_fields n) state_keys)))

-- Induction on sub-nodes.
module _ {ℓ} (P : Node → Type ℓ) (step : (n : Node) → All P (children n) → P n) where
  induct_below : (f : ℕ) (n : Node) → node_size n < f → P n
  induct_below zero n h = elim h [ ]
  induct_below (suc f) n h =
      step n (All-imp (λ c p. induct_below f c (omega arith)) (children n) (children-smaller n))

  pub node_induction : (n : Node) → P n
  node_induction n = induct_below (suc (node_size n)) n (omega arith)

node_size-pos : (n : Node) → 0 < node_size n
node_size-pos n = omega (arith, node_size-parts n)

-- A round that looks at its recursive call at the sub-nodes alone.
abbrev pub IsLocal {ℓ} : {A : Type ℓ} → ((Node → A) → Node → A) → Type ℓ
IsLocal step = (g h : Node → _) (n : Node) → All (λ c. g c ≡ h c) (children n) → step g n ≡ step h n

module _ {ℓ} {A : Type ℓ} (step : (Node → A) → Node → A) (d : A) (local : IsLocal step) where
  -- Any fuel from the size upwards gives the same result.
  walk-enough :
      (f g : ℕ) (n : Node) → node_size n ≤ f → node_size n ≤ g → walk step d f n ≡ walk step d g n
  unfolding walk
  walk-enough zero g n h k = absurd (omega (arith, node_size-pos n))
  walk-enough (suc f) zero n h k = absurd (omega (arith, node_size-pos n))
  walk-enough (suc f) (suc g) n h k = local (walk step d f) (walk step d g) n (
      All-imp (λ c p. walk-enough f g c (omega arith) (omega arith)) (children n)
        (children-smaller n))

  -- The equation of the recursive function.
  pub over_lem : (n : Node) → over step d n ≡ step (over step d) n
  unfolding over
  over_lem n = go (node_size n) refl
    where
      go : (f : ℕ) → node_size n ≡ f → walk step d f n ≡ step (λ c. walk step d (node_size c) c) n
      go zero e = absurd (omega (arith, node_size-pos n))
      go (suc f) e =
          local (walk step d f) (λ c. walk step d (node_size c) c) n
            (All-imp (λ c p. walk-enough f (node_size c) c (omega arith) (omega arith)) (children n)
              (children-smaller n))
