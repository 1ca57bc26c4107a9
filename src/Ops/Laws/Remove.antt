-- ===== src/Ops/Laws/Remove.antt =====
-- ops/apply.go: RemoveNode, on a tree without repeated ids.
use fuaran_go.Prelude.{
  ◌+◌, ◌≤◌, String, ◌≡◌, refl, sym, ap, ◌∙◌, subst, List, [], ◌∷◌, ◌++◌, true, false, none, some,
  str_eq, arith, Option-cases, Bool-cases, inl, inr, eq_iff,
}
use fuaran_go.Wire.Value.{Node, id}
use fuaran_go.Ops.Traverse.{
  find_node, all_ids, layout_children, with_layout_children, find_layout_parent,
}
use fuaran_go.Ops.Traverse.Laws.{ids_of}
use fuaran_go.Ops.Traverse.Edit.{ids_of-append}
use fuaran_go.Ops.Apply.Structure.{tally, without_id, remove_target}
use fuaran_go.Ops.Apply.{applied}
use fuaran_go.Ops.Laws.Unique.{
  Unique, tally-append, tally-middle, tally-root, Inside-tally, Inside-find_node, find_node-absent,
}
use fuaran_go.Ops.Laws.Parent.{
  find_layout_parent-IsParent, Inside-child, Inside-trans, children-layout_children,
}
use fuaran_go.Ops.Laws.Relist.{relist, all_ids-layout}

without_id-absent : (t : String) (cs : List Node) → tally t (ids_of cs) ≡ 0 → without_id t cs ≡ cs
without_id-absent t [] h = refl
without_id-absent t (c ∷ cs) h =
    let split = tally-append t (all_ids c) (ids_of cs) in
    elim (Bool-cases (str_eq (id c) t)) [
      | inl same ↦ absurd (omega (arith, tally-root t c same))
      | inr other ↦ rw (other, without_id) (ap (λ l. c ∷ l) (without_id-absent t cs (omega arith)))
    ]

without_id-append :
    (t : String) (xs ys : List Node) → without_id t (xs ++ ys) ≡ without_id t xs ++ without_id t ys
without_id-append t [] ys = refl
without_id-append t (x ∷ xs) ys = elim (Bool-cases (str_eq (id x) t)) [
  | inl same ↦ rw (same, without_id) (without_id-append t xs ys)
  | inr other ↦ rw (other, without_id) (ap (λ l. x ∷ l) (without_id-append t xs ys))
]

-- the one child of the id leaves
without_id-middle :
    (t : String) (before : List Node) (c : Node) (after : List Node)
    → str_eq (id c) t ≡ true
    → tally t (ids_of (before ++ c ∷ after)) ≤ 1
    → without_id t (before ++ c ∷ after) ≡ before ++ after
without_id-middle t before c after same u =
    let split = tally-middle t before c after in
    let here = tally-root t c same in
    let front = without_id-absent t before (omega arith) in
    let back = without_id-absent t after (omega arith) in
    let drop_c : without_id t (c ∷ after) ≡ without_id t after = (rw (same, without_id) refl) in
    cc (without_id-append t before (c ∷ after))

-- `t` is `root` without its node `child`, which stood in the child list of the node `parent`
pub record IsRemoved (target : String) (root t : Node) : Type 0 where
  pub parent : Node
  pub before : List Node
  pub child : Node
  pub after : List Node
  pub listed : layout_children parent ≡ some (before ++ child ∷ after)
  pub named : find_node target root ≡ some child
  pub result : remove_target target root ≡ applied t
  pub found : find_node (id parent) t ≡ some (with_layout_children parent (before ++ after))
  pub left :
      layout_children (with_layout_children parent (before ++ after)) ≡ some (before ++ after)
  pub gone : find_node target t ≡ none
  pub ids : (i : String) → tally i (all_ids t) + tally i (all_ids child) ≡ tally i (all_ids root)

pub remove_target-IsRemoved :
    (target : String) (root parent : Node)
    → Unique root
    → str_eq (id root) target ≡ false
    → find_layout_parent target root ≡ some parent
    → (t : Node) × IsRemoved target root t
unfolding remove_target
remove_target-IsRemoved target root parent u below h =
    let p = find_layout_parent-IsParent target root parent h in
    let at = p.holds in
    let cs = p.children in
    let found_parent = Inside-find_node parent root p.inside u in
    let child_inside = Inside-child parent cs at.before at.child at.after p.listed at.split in
    let named = Inside-find_node at.child root (Inside-trans child_inside p.inside) u in
    let once : tally target (ids_of cs) ≤ 1 =
      (omega (
        arith,
        u target,
        Inside-tally parent root p.inside target,
        all_ids-layout parent cs target (children-layout_children parent cs p.listed),
      )) in
    let kept : without_id target cs ≡ at.before ++ at.after =
      (ap (without_id target) at.split
        ∙ without_id-middle target at.before at.child at.after at.named
            (subst (λ l. tally target (ids_of l) ≤ 1) at.split once)) in
    let (t, r) = relist (id parent) root parent cs (at.before ++ at.after) found_parent p.listed in
    let ids : (i : String)
        → tally i (all_ids t) + tally i (all_ids at.child) ≡ tally i (all_ids root) =
      (λ i. omega (
        arith,
        r.ids i,
        ap (λ l. tally i (ids_of l)) at.split,
        tally-middle i at.before at.child at.after,
        ap (tally i) (ids_of-append at.before at.after),
        tally-append i (ids_of at.before) (ids_of at.after),
      )) in
    (
      t,
      record {
        parent = parent;
        before = at.before;
        child = at.child;
        after = at.after;
        listed = p.listed ∙ ap some at.split;
        named =
            subst (λ i. find_node i root ≡ some at.child) ((eq_iff (id at.child) target).0 at.named)
              named;
        result = rw (below, remove_target) (rw h (rw p.listed (rw kept r.result)));
        found = r.found;
        left = r.listed;
        gone =
            find_node-absent target t
              (omega (arith, u target, ids target, tally-root target at.child at.named));
        ids = ids;
      },
    )

-- A RemoveNode that is accepted on a tree without repeated ids returns one of this kind.
pub remove_target-applied :
    (target : String) (root t : Node)
    → Unique root
    → remove_target target root ≡ applied t
    → IsRemoved target root t
unfolding remove_target
remove_target-applied target root t u h = elim (Bool-cases (str_eq (id root) target)) [
  | inl same ↦ cc (rw (same, remove_target) at h)
  | inr below ↦ elim (Option-cases (find_layout_parent target root)) [
    | inl gone ↦ cc (rw (below, gone, remove_target) at h)
    | inr (parent, here) ↦
        let (t', r) = remove_target-IsRemoved target root parent u below here in
        let same : t' ≡ t = cc (sym r.result ∙ h) in subst (IsRemoved target root) same r
  ]
]
