-- ===== src/Merge/Fuel.antt =====
-- merge/merge.go: the recursion of merge3 and the walks of the indices end.
use fuaran_go.Prelude.{
  ℕ, zero, suc, ◌≤◌, ◌<◌, String, ◌≡◌, refl, ap, ◌∙◌, List, [], ◌∷◌, Option, none, some, All,
  All-imp, arith, str_eq, Bool-cases, Option-cases, inl, inr,
}
use fuaran_go.Wire.Core.{Core}
use fuaran_go.Wire.Size.{node_size}
use fuaran_go.Wire.Value.{Value, arr, Node, id, kind, fields, get, as_arr, nodes_in, to_list}
use fuaran_go.Ops.Traverse.Walk.{Below, nodes_in-Below, arr-lt, node_size-parts}
use fuaran_go.Merge.Refusal.{Resolution, Merged}
use fuaran_go.Merge.Facets.{children_of, nodes_or_none}
use fuaran_go.Merge.Places.{MoveCtx}
use fuaran_go.Merge.Engine.{
  node_at, recurse_child, merge_children, merge_lists, merge_facets, merge_step, merge3_fuel,
  merge3, variant,
}

children_of-Below : (n : Node) → All (Below (node_size n)) (children_of n)
unfolding children_of
children_of-Below n = go (get "children" (fields (kind n))) refl
  where
    go :
        (r : Option Value)
        → get "children" (fields (kind n)) ≡ r
        → All (Below (node_size n)) (nodes_or_none (as_arr r))
    go none e = tt
    go (some (arr vs)) e =
        All-imp (λ c p. omega (arith, arr-lt "children" (fields (kind n)) vs e, node_size-parts n))
          (nodes_in (to_list vs)) (nodes_in-Below vs)
    go (some _) e = tt

node_at-All :
    (P : Node → Type 0) (i : String) (ns : List Node) (n : Node)
    → All P ns
    → node_at i ns ≡ some n
    → P n
unfolding node_at
node_at-All P i [] n h e = cc
node_at-All P i (m ∷ ns) n (p, h) e = elim (Option-cases (node_at i ns)) [
  | inr (l, later) ↦ node_at-All P i ns n h (later ∙ (rw later at e))
  | inl gone ↦ elim (Bool-cases (str_eq (id m) i)) [ inl same ↦ ground (arith) | inr other ↦ cc ]
]

abbrev held : Option Node → List Node
held none = []
held (some n) = n ∷ []

node_at-held :
    (m : ℕ) (i : String) (ns : List Node) → All (Below m) ns → All (Below m) (held (node_at i ns))
node_at-held m i ns h = elim (Option-cases (node_at i ns)) [
  | inl gone ↦ rw gone tt
  | inr (n, here) ↦ rw here (node_at-All (Below m) i ns n h here, tt)
]

abbrev Rec : Type 0
Rec = Node → Option Node → Option Node → Merged Node

-- the two calls give the same at every node of the size
abbrev SameBelow : ℕ → Rec → Rec → Type 0
SameBelow m go go' = (n : Node) → node_size n < m → (a b : Option Node) → go n a b ≡ go' n a b

module _ (core : Core) (res : Resolution) (mc : MoveCtx) (m : ℕ) (go go' : Rec)
    (same : SameBelow m go go') where
  recurse_child-congr :
      (cid : String) (base a b : Option Node)
      → All (Below m) (held base)
      → recurse_child core res mc go cid base a b ≡ recurse_child core res mc go' cid base a b
  unfolding recurse_child
  recurse_child-congr cid (some n) a b (p, _) = same n p a b
  recurse_child-congr cid none (some ac) (some bc) _ = refl
  recurse_child-congr cid none (some ac) none _ = refl
  recurse_child-congr cid none none b _ = refl

  merge_children-congr :
      (base_kids a_kids b_kids : List Node) (cids : List String)
      → All (Below m) base_kids
      → merge_children core res mc go base_kids a_kids b_kids cids
        ≡ merge_children core res mc go' base_kids a_kids b_kids cids
  unfolding merge_children
  merge_children-congr base_kids a_kids b_kids [] h = refl
  merge_children-congr base_kids a_kids b_kids (cid ∷ cids) h = rw (
    recurse_child-congr cid (node_at cid base_kids) (node_at cid a_kids) (node_at cid b_kids)
        (node_at-held m cid base_kids h),
    merge_children-congr base_kids a_kids b_kids cids h,
  )

  merge_lists-congr :
      (i : String) (base_kids a_kids b_kids : List Node)
      → All (Below m) base_kids
      → merge_lists core res mc go i base_kids a_kids b_kids
        ≡ merge_lists core res mc go' i base_kids a_kids b_kids
  unfolding merge_lists
  merge_lists-congr i base_kids a_kids b_kids h =
      rw (merge_children-congr base_kids a_kids b_kids _ h)

  merge_step-congr :
      (base a b : Node)
      → node_size base ≤ m
      → merge_step core res mc go base a b ≡ merge_step core res mc go' base a b
  unfolding merge_step
  merge_step-congr base a b h =
      let lists =
        merge_lists-congr (id base) (children_of base) (children_of a) (children_of b)
          (All-imp (λ c p. omega arith) (children_of base) (children_of-Below base)) in
      ap (merge_facets core res mc base a b) lists

-- The recursion of merge3 ends: it is at a child of the base each time, so the size of the base is
-- fuel enough, and any more fuel gives the same tree and the same conflicts.
pub merge3_fuel-enough :
    (core : Core) (res : Resolution) (mc : MoveCtx) (f : ℕ) (base : Node) (a b : Option Node)
    → node_size base ≤ f
    → merge3_fuel core res mc f base a b ≡ merge3 core res mc base a b
unfolding merge3
merge3_fuel-enough core res mc f base a b h = go f (node_size base) base a b h (omega arith)
  where
    go :
        (f g : ℕ) (base : Node) (a b : Option Node)
        → node_size base ≤ f
        → node_size base ≤ g
        → merge3_fuel core res mc f base a b ≡ merge3_fuel core res mc g base a b
    go zero g base a b p q = absurd (omega (arith, node_size-parts base))
    go (suc f) zero base a b p q = absurd (omega (arith, node_size-parts base))
    go (suc f) (suc g) base a b p q =
        unfold merge3_fuel in
        merge_step-congr core res mc (node_size base) (merge3_fuel core res mc f)
          (merge3_fuel core res mc g) (λ n lt x y. go f g n x y (omega arith) (omega arith)) base
          (variant base a) (variant base b) (omega arith)
