-- ===== src/Ops/Placement/Nudge.antt =====
-- ops/placement.go: NudgeOp, and what the engine does with the op that it emits.
use fuaran_go.Prelude.{
  ℕ, zero, suc, ◌+◌, ◌<◌, String, ◌≡◌, refl, sym, ap, ◌∙◌, subst, List, [], ◌∷◌, map, Option, none,
  some, str_eq, eq_iff, ltb, ltb→lt, length, get_elem?, arith, Bool-cases, Option-cases, inl, inr,
}
use fuaran_go.Prelude.Int.{ℤ, pos, negsuc, ◌+ℤ◌}
use fuaran_go.Wire.Core.{Core}
use fuaran_go.Wire.Value.{Obj, Node, id}
use fuaran_go.Ops.Traverse.{find_node, all_ids, find_layout_parent, layout_children}
use fuaran_go.Ops.Apply.{applied}
use fuaran_go.Ops.Apply.Structure.{tally}
use fuaran_go.Ops.Apply.Engine.{apply_one}
use fuaran_go.Ops.Laws.Unique.{Unique, Inside-find_node}
use fuaran_go.Ops.Laws.Parent.{find_layout_parent-IsParent}
use fuaran_go.Ops.Laws.Reorder.{same_id_multiset_iff, reorder_under-IsReordered}
use fuaran_go.Ops.Placement.{
  placed, reorder_children_op, last_index, swapped, swap_index, nudge_among, nudge_op,
}
use fuaran_go.Ops.Placement.Emitted.{apply_one-reorder, reorder_under-accepts}
use fuaran_go.Ops.Placement.Swap.{IsSwapped, swapped-IsSwapped, tally-swapped}

get_elem?-length : (xs : List String) (k : ℕ) (x : String) → get_elem? xs k ≡ some x → k < length xs
get_elem?-length [] k x h = cc
get_elem?-length (y ∷ ys) zero x h = omega arith
get_elem?-length (y ∷ ys) (suc k) x h = omega (arith, get_elem?-length ys k x h)

-- an index that is found is the place of the id
record IsPlaceOf (i : String) (from : ℕ) (js : List String) (m : ℕ) : Type 0 where
  steps : ℕ
  whole : m ≡ from + steps
  there : get_elem? js steps ≡ some i

last_index-IsPlaceOf :
    (i : String) (from : ℕ) (js : List String) (m : ℕ)
    → last_index i from js ≡ some m
    → IsPlaceOf i from js m
unfolding last_index
last_index-IsPlaceOf i from [] m h = cc
last_index-IsPlaceOf i from (j ∷ js) m h = elim (Option-cases (last_index i (suc from) js)) [
  | inr (n, later) ↦
      let p = last_index-IsPlaceOf i (suc from) js n later in
      let same : n ≡ m = cc (rw (later, last_index) at h) in
      record { steps = suc p.steps; whole = omega (arith, p.whole, same); there = p.there }
  | inl gone ↦ elim (Bool-cases (str_eq j i)) [
    | inl here ↦
        let same : from ≡ m = cc (rw (gone, here, last_index) at h) in
        record {
          steps = 0;
          whole = omega (arith, same);
          there = ap (λ x. some x) ((eq_iff j i).0 here);
        }
    | inr other ↦ cc (rw (gone, other, last_index) at h)
  ]
]

swap_index-some :
    (m : ℕ) (delta : ℤ) (n k : ℕ)
    → swap_index m delta n ≡ some k
    → (pos m +ℤ delta ≡ pos k) × (k < n)
unfolding swap_index
swap_index-some m delta n k h = go (pos m +ℤ delta) refl
  where
    go : (z : ℤ) → pos m +ℤ delta ≡ z → (pos m +ℤ delta ≡ pos k) × (k < n)
    go (negsuc j) e = cc (rw (e, swap_index) at h)
    go (pos j) e = elim (Bool-cases (ltb j n)) [
      | inl below ↦
          let same : j ≡ k = cc (rw (e, below, swap_index) at h) in
          (e ∙ ap pos same, subst (λ x. x < n) same (ltb→lt j n below))
      | inr past ↦ cc (rw (e, past, swap_index) at h)
    ]

-- what an accepted nudge leaves: the siblings, with the node and the one `delta` places away exchanged
pub record IsNudged (core : Core) (root : Node) (node_id : String) (delta : ℤ) (op : Obj)
    : Type 0 where
  pub old_parent : Node
  pub siblings : List Node
  pub old_found : find_node (id old_parent) root ≡ some old_parent
  pub old_listed : layout_children old_parent ≡ some siblings
  pub from : ℕ
  pub to : ℕ
  pub at_from : get_elem? (map id siblings) from ≡ some node_id
  pub apart : pos from +ℤ delta ≡ pos to
  pub tree : Node
  pub result : apply_one core op root ≡ applied tree
  pub parent : Node
  pub children : List Node
  pub found : find_node (id old_parent) tree ≡ some parent
  pub listed : layout_children parent ≡ some children
  pub exchanged : IsSwapped (map id siblings) from to (map id children)
  pub ids : (i : String) → tally i (all_ids tree) ≡ tally i (all_ids root)

module _ (core : Core) (root : Node) (node_id : String) (delta : ℤ) (op : Obj) (parent : Node)
    (cs : List Node) (u : Unique root) (here : find_node (id parent) root ≡ some parent)
    (k : layout_children parent ≡ some cs) where
  IsNudged-to :
      (m n : ℕ)
      → get_elem? (map id cs) m ≡ some node_id
      → pos m +ℤ delta ≡ pos n
      → n < length (map id cs)
      → reorder_children_op (id parent) (swapped (map id cs) m n) ≡ op
      → IsNudged core root node_id delta op
  IsNudged-to m n at e hn o =
      let is = map id cs in
      let hm = get_elem?-length is m node_id at in
      let order = swapped is m n in
      let (t, r) =
        reorder_under-accepts (id parent) order root parent cs here k
          ((same_id_multiset_iff cs order).1 (tally-swapped is m n hm hn)) in
      let d = reorder_under-IsReordered (id parent) order root t u r in
      record {
        old_parent = parent;
        siblings = cs;
        old_found = here;
        old_listed = k;
        from = m;
        to = n;
        at_from = at;
        apart = e;
        tree = t;
        result =
            subst (λ x. apply_one core x root ≡ applied t) o
              (apply_one-reorder core (id parent) order root ∙ r);
        parent = d.parent;
        children = d.children;
        found = d.found;
        listed = d.listed;
        exchanged = subst (IsSwapped is m n) (sym d.ordered) (swapped-IsSwapped is m n hm hn);
        ids = d.ids;
      }

  nudge_among-IsNudged :
      (o : Option ℕ)
      → last_index node_id 0 (map id cs) ≡ o
      → nudge_among node_id (id parent) delta (map id cs) o ≡ placed op
      → IsNudged core root node_id delta op
  unfolding nudge_among
  nudge_among-IsNudged none s e = cc
  nudge_among-IsNudged (some m) s e =
      elim (Option-cases (swap_index m delta (length (map id cs)))) [
        | inl out ↦ cc (rw (out, nudge_among) at e)
        | inr (n, within) ↦
            let p = last_index-IsPlaceOf node_id 0 (map id cs) m s in
            let (sum, hn) = swap_index-some m delta (length (map id cs)) n within in
            let same : p.steps ≡ m = omega (arith, p.whole) in
            IsNudged-to m n (subst (λ x. get_elem? (map id cs) x ≡ some node_id) same p.there) sum
              hn (cc (rw (within, nudge_among) at e))
      ]

-- The op that NudgeOp emits for a tree without repeated ids is accepted by the engine: among the
-- children of the node's parent the node and the sibling `delta` places away are exchanged, every
-- other sibling keeps its place, and every id of the tree is held as often as before.
pub nudge_op-IsNudged :
    (core : Core) (root : Node) (node_id : String) (delta : ℤ) (op : Obj)
    → Unique root
    → nudge_op root node_id delta ≡ placed op
    → IsNudged core root node_id delta op
unfolding nudge_op
nudge_op-IsNudged core root node_id delta op u e = elim (Bool-cases (str_eq (id root) node_id)) [
  | inl top ↦ cc (rw (top, nudge_op) at e)
  | inr below ↦ elim (Option-cases (find_layout_parent node_id root)) [
    | inl gone ↦ cc (rw (below, gone, nudge_op) at e)
    | inr (parent, above) ↦
        let p = find_layout_parent-IsParent node_id root parent above in
        nudge_among-IsNudged core root node_id delta op parent p.children u
          (Inside-find_node parent root p.inside u) p.listed
          (last_index node_id 0 (map id p.children)) refl
          (rw (below, above, p.listed, nudge_op) at e)
  ]
]
