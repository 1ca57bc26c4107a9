-- ===== src/Ops/Laws/Reorder.antt =====
-- ops/apply.go: ReorderChildren, and its test of the order as a comparison of multisets.
use fuaran_go.Prelude.{
  ◌+◌, ◌≤◌, String, ◌≡◌, refl, sym, ap, ◌∙◌, subst, ◌↔◌, List, [], ◌∷◌, ◌++◌, map, true, some,
  str_eq, lt→ltb, ==_iff, length, length-append, All, arith, Option-cases, Bool-cases, inl, inr,
  eq_refl,
}
use fuaran_go.Wire.Value.{Node, id}
use fuaran_go.Ops.Traverse.{find_node, all_ids, children, layout_children, with_layout_children}
use fuaran_go.Ops.Traverse.Laws.{ids_of, first_in, find_node-here, find_node-deeper, all_ids_lem}
use fuaran_go.Ops.Traverse.Walk.{node_induction}
use fuaran_go.Ops.Apply.Structure.{tally, takes_all, same_id_multiset, reordered, reorder_under}
use fuaran_go.Ops.Apply.{applied}
use fuaran_go.Ops.Laws.Find.{one_at, tally-weigh}
use fuaran_go.Ops.Laws.Unique.{Unique, tally-append}
use fuaran_go.Ops.Laws.Parent.{children-layout_children}
use fuaran_go.Ops.Laws.Relist.{relist, all_ids-layout}
use fuaran_go.Ops.Laws.Multiset.{
  id_of, tally-At, weigh-covered, length-map_id, same_id_multiset-IsReorder, reordered-ids,
  weigh-IsReorder,
}

abbrev pub SameTally : List String → List String → Type 0
SameTally xs ys = (i : String) → tally i xs ≡ tally i ys

SameTally-length : (xs ys : List String) → SameTally xs ys → length xs ≡ length ys
SameTally-length [] [] h = refl
SameTally-length [] (y ∷ ys) h =
    let one : 1 ≤ tally y (y ∷ ys) = (rw (eq_refl y, tally) (omega arith)) in
    absurd (omega (arith, h y))
SameTally-length (x ∷ xs) ys h =
    let one : 1 ≤ tally x (x ∷ xs) = (rw (eq_refl x, tally) (omega arith)) in
    let p = tally-At x ys (omega (arith, h x)) in
    let rest : SameTally xs (p.before ++ p.after) = (λ k. omega (
      arith,
      h k,
      ap (tally k) p.split,
      tally-append k p.before (x ∷ p.after),
      tally-append k p.before p.after,
    )) in
    omega (
      arith,
      SameTally-length xs (p.before ++ p.after) rest,
      ap length p.split,
      length-append {0} p.before (x ∷ p.after),
      length-append {0} p.before p.after,
    )

SameTally-takes_all :
    (held taken is : List String)
    → ((i : String) → tally i is + tally i taken ≤ tally i held)
    → takes_all held taken is ≡ true
SameTally-takes_all held taken [] h = refl
SameTally-takes_all held taken (j ∷ is) h =
    let one : tally j (j ∷ is) ≡ 1 + tally j is = (rw (eq_refl j, tally) refl) in
    rw (lt→ltb (tally j taken) (tally j held) (omega (arith, h j)), takes_all)
      (SameTally-takes_all held (j ∷ taken) is (λ i. omega (arith, h i)))

-- The test of ReorderChildren holds exactly for the orders that list every child id, as often as it
-- is a child's.
pub same_id_multiset_iff :
    (cs : List Node) (order : List String)
    → (same_id_multiset cs order ≡ true) ↔ SameTally order (map id_of cs)
unfolding same_id_multiset
same_id_multiset_iff cs order = (
  λ h i.
      let r = same_id_multiset-IsReorder cs order h in
      omega (
        arith,
        weigh-covered (one_at i) order (map id_of cs) r.long r.covered,
        tally-weigh i order,
        tally-weigh i (map id_of cs),
      ),
  λ h.
      let long : length cs ≡ length order =
        (sym (length-map_id cs) ∙ sym (SameTally-length order (map id_of cs) h)) in
      rw ((==_iff (length cs) (length order)).1 long)
        (SameTally-takes_all (map id_of cs) [] order (λ i. omega (arith, h i))),
)

abbrev Bounded : String → String → Node → Type 0
Bounded t i n = (m : Node) → find_node t n ≡ some m → tally i (all_ids m) ≤ tally i (all_ids n)

first_in-Bounded :
    (t i : String) (cs : List Node)
    → All (Bounded t i) cs
    → (m : Node) → first_in (find_node t) cs ≡ some m
    → tally i (all_ids m) ≤ tally i (ids_of cs)
first_in-Bounded t i [] _ m h = cc
first_in-Bounded t i (c ∷ cs) (b, bs) m h = elim (Option-cases (find_node t c)) [
  | inl gone ↦ omega (
    arith,
    first_in-Bounded t i cs bs m (rw (gone, first_in) at h),
    tally-append i (all_ids c) (ids_of cs),
  )
  | inr (d, here) ↦
      omega (arith, b m (here ∙ rw (here, first_in) at h), tally-append i (all_ids c) (ids_of cs))
]

-- The found subtree holds no id more often than the tree.
find_node-Bounded : (t i : String) (n : Node) → Bounded t i n
find_node-Bounded t i = node_induction (Bounded t i) λ n ih m h.
    elim (Bool-cases (str_eq (id n) t)) [
      | inl same ↦
          let e : n ≡ m = cc (find_node-here t n same) in
          omega (arith, ap (λ x. tally i (all_ids x)) e)
      | inr other ↦ omega (
        arith,
        first_in-Bounded t i (children n) ih m (sym (find_node-deeper t n other) ∙ h),
        ap (tally i) (all_ids_lem n),
      )
    ]

-- the ids of the children are among the ids of their subtrees
tally-map_id : (i : String) (cs : List Node) → tally i (map id_of cs) ≤ tally i (ids_of cs)
tally-map_id i [] = omega arith
tally-map_id i (c ∷ cs) =
    omega (
      arith,
      tally-map_id i cs,
      tally-append i (all_ids c) (ids_of cs),
      ap (tally i) (all_ids_lem c),
    )

-- Without repeated ids in the tree, no child list has one.
pub children-Unique :
    (parent_id : String) (root parent : Node) (cs : List Node) (i : String)
    → Unique root
    → find_node parent_id root ≡ some parent
    → layout_children parent ≡ some cs
    → tally i (map id_of cs) ≤ 1
children-Unique parent_id root parent cs i u here k = omega (
  arith,
  u i,
  find_node-Bounded parent_id i root parent here,
  tally-map_id i cs,
  all_ids-layout parent cs i (children-layout_children parent cs k),
)

-- `t` is `root` with the children of its node `parent_id` in the order
pub record IsReordered (parent_id : String) (order : List String) (root t : Node) : Type 0 where
  pub parent : Node
  pub children : List Node
  pub found : find_node parent_id t ≡ some parent
  pub listed : layout_children parent ≡ some children
  pub ordered : map id_of children ≡ order
  pub ids : (i : String) → tally i (all_ids t) ≡ tally i (all_ids root)

-- A ReorderChildren that is accepted on a tree without repeated ids gives the parent its children in
-- the order that was asked for, and every id is held as often as before.
pub reorder_under-IsReordered :
    (parent_id : String) (order : List String) (root t : Node)
    → Unique root
    → reorder_under parent_id order root ≡ applied t
    → IsReordered parent_id order root t
unfolding reorder_under
reorder_under-IsReordered parent_id order root t u h =
    elim (Option-cases (find_node parent_id root)) [
      | inl gone ↦ cc (rw (gone, reorder_under) at h)
      | inr (parent, here) ↦ elim (Option-cases (layout_children parent)) [
        | inl bare ↦ cc (rw (here, bare, reorder_under) at h)
        | inr (cs, k) ↦ elim (Bool-cases (same_id_multiset cs order)) [
          | inr bad ↦ cc (rw (here, k, bad, reorder_under) at h)
          | inl good ↦
              let r = same_id_multiset-IsReorder cs order good in
              let (t', e) = relist parent_id root parent cs (reordered cs order) here k in
              let same : t' ≡ t = cc (sym e.result ∙ rw (here, k, good, reorder_under) at h) in
              let different : (i : String) → tally i (map id_of cs) ≤ 1 =
                (λ i. children-Unique parent_id root parent cs i u here k) in
              let kept : (i : String)
                  → tally i (ids_of (reordered cs order)) ≡ tally i (ids_of cs) =
                (λ i. omega (
                  arith,
                  weigh-IsReorder (one_at i) cs order r different,
                  tally-weigh i (ids_of (reordered cs order)),
                  tally-weigh i (ids_of cs),
                )) in
              record {
                parent = with_layout_children parent (reordered cs order);
                children = reordered cs order;
                found =
                    subst
                      (λ x.
                        find_node parent_id x
                        ≡ some (with_layout_children parent (reordered cs order)))
                      same e.found;
                listed = e.listed;
                ordered = reordered-ids cs order r.covered;
                ids = λ i. omega (arith, e.ids i, kept i, ap (λ x. tally i (all_ids x)) same);
              }
        ]
      ]
    ]
