-- ===== src/Ops/Laws/Guard.antt =====
-- The guards that Apply puts round one op.
use fuaran_go.Prelude.{
  refl, str_eq, ◌⊎◌, subst, eq_iff, inr, inl, Bool-cases, ◌≤◌, String, ◌≡◌, ap, List, [], ◌∷◌, true,
  false, none, All, arith,
}
use fuaran_go.Wire.Core.{Core}
use fuaran_go.Wire.Value.{Obj, Node}
use fuaran_go.Ops.Traverse.{all_ids}
use fuaran_go.Ops.Apply.{ErrorCode, applied, refused}
use fuaran_go.Ops.Apply.Engine.{apply_one}
use fuaran_go.Ops.Apply.Structure.{tally}
use fuaran_go.Ops.Laws.Unique.{Unique}
use fuaran_go.Ops.Limits.{
  apply, can_apply, succeeds, op_can_grow, inserted_nodes, check_tree_limits, check_installed_ids,
  tree_metrics, max_node_depth, max_nodes, any_repeated, installed_repeat,
}

-- A refused op leaves the tree as it was, whatever was done before the refusal.
pub apply-refused :
    (core : Core) (op : Obj) (tree t : Node) (e : ErrorCode)
    → apply core op tree ≡ refused t e
    → t ≡ tree
unfolding apply check_tree_limits
apply-refused core op tree t e h = ground arith

check_tree_limits-none :
    (t : Node)
    → check_tree_limits t ≡ none
    → ((tree_metrics t).depth ≤ max_node_depth) × ((tree_metrics t).count ≤ max_nodes)
unfolding check_tree_limits
check_tree_limits-none t h = ground arith

any_repeated-false :
    (is ids : List String) → any_repeated is ids ≡ false → All (λ i. tally i ids ≤ 1) is
any_repeated-false [] ids h = tt
any_repeated-false (i ∷ is) ids h = (ground arith, any_repeated-false is ids (ground arith))

installed_repeat-false :
    (ns : List Node) (ids : List String)
    → installed_repeat ns ids ≡ false
    → All (λ n. All (λ i. tally i ids ≤ 1) (all_ids n)) ns
installed_repeat-false [] ids h = tt
installed_repeat-false (n ∷ ns) ids h = (
  any_repeated-false (all_ids n) ids (ground arith),
  installed_repeat-false ns ids (ground arith),
)

check_installed_ids-none :
    (ns : List Node) (t : Node)
    → check_installed_ids ns t ≡ none
    → All (λ n. All (λ i. tally i (all_ids t) ≤ 1) (all_ids n)) ns
unfolding check_installed_ids
check_installed_ids-none [] t h = tt
check_installed_ids-none (n ∷ ns) t h = installed_repeat-false (n ∷ ns) (all_ids t) (ground arith)

-- What Apply promises of a tree that it returns
pub record IsGuarded (core : Core) (op : Obj) (tree t : Node) : Type 0 where
  pub engine : apply_one core op tree ≡ applied t
  pub within :
      (op_can_grow op ≡ false)
      ⊎ (((tree_metrics t).depth ≤ max_node_depth) × ((tree_metrics t).count ≤ max_nodes))
  pub unique : All (λ n. All (λ i. tally i (all_ids t) ≤ 1) (all_ids n)) (inserted_nodes op)

-- A tree that Apply returns is the engine's, is within the limits if the op can grow a tree, and
-- holds each id that the op put in once.
pub apply-IsGuarded :
    (core : Core) (op : Obj) (tree t : Node)
    → apply core op tree ≡ applied t
    → IsGuarded core op tree t
unfolding apply
apply-IsGuarded core op tree t h = record {
  engine = ground arith;
  within = elim (Bool-cases (op_can_grow op)) [
    | inl grows ↦ inr (check_tree_limits-none t (ground arith))
    | inr fixed ↦ inl fixed
  ];
  unique = check_installed_ids-none (inserted_nodes op) t (ground arith);
}

-- Whatever Apply accepts, the dry run accepts.
pub apply-can_apply :
    (core : Core) (op : Obj) (tree t : Node)
    → apply core op tree ≡ applied t
    → can_apply core op tree ≡ true
unfolding can_apply
apply-can_apply core op tree t h = ap succeeds ((apply-IsGuarded core op tree t h).engine)

any_repeated-tally :
    (i : String) (is ids : List String)
    → any_repeated is ids ≡ false
    → (tally i is ≡ 0) ⊎ (tally i ids ≤ 1)
any_repeated-tally i [] ids h = inl refl
any_repeated-tally i (j ∷ is) ids h = elim (Bool-cases (str_eq j i)) [
  | inl same ↦ inr (subst (λ x. tally x ids ≤ 1) ((eq_iff j i).0 same) (ground arith))
  | inr other ↦ elim (any_repeated-tally i is ids (ground arith)) [
    | inl absent ↦ inl (rw (other, tally) (omega arith))
    | inr once ↦ inr once
  ]
]

-- the test for repeated ids, on a whole tree
pub any_repeated-Unique : (n : Node) → any_repeated (all_ids n) (all_ids n) ≡ false → Unique n
any_repeated-Unique n h i = elim (any_repeated-tally i (all_ids n) (all_ids n) h) [
  | inl absent ↦ omega arith
  | inr once ↦ once
]
