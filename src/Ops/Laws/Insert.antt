-- ===== src/Ops/Laws/Insert.antt =====
-- ops/apply.go: InsertChild.
use fuaran_go.Prelude.{
  ◌+◌, String, ◌≡◌, refl, sym, ◌∙◌, subst, ◌⊎◌, List, [], ◌∷◌, ◌++◌, false, some, str_eq, arith,
  Option-cases, Bool-cases, inl, inr, eq_iff,
}
use fuaran_go.Wire.Value.{Node}
use fuaran_go.Ops.Traverse.{find_node, all_ids, contains_id, layout_children, with_layout_children}
use fuaran_go.Ops.Apply.Structure.{tally, shares_id, insert_under}
use fuaran_go.Ops.Apply.{applied}
use fuaran_go.Ops.Laws.Unique.{Unique, tally-middle}
use fuaran_go.Ops.Laws.Relist.{relist}

-- `t` is `root` with the child behind the children `cs` of its node `parent`
pub record IsInserted (parent_id : String) (child root parent : Node) (cs : List Node) (t : Node)
    : Type 0 where
  pub result : insert_under parent_id child root ≡ applied t
  pub found : find_node parent_id t ≡ some (with_layout_children parent (cs ++ child ∷ []))
  pub listed :
      layout_children (with_layout_children parent (cs ++ child ∷ [])) ≡ some (cs ++ child ∷ [])
  pub ids : (i : String) → tally i (all_ids t) ≡ tally i (all_ids root) + tally i (all_ids child)

-- Inserting a child that shares no id with the tree, under a node with an ordered child list, returns
-- a tree: there the node has the child behind its old children, and every id is held as often as in
-- the old tree and the child together.
pub insert_under-IsInserted :
    (parent_id : String) (child root parent : Node) (cs : List Node)
    → find_node parent_id root ≡ some parent
    → layout_children parent ≡ some cs
    → shares_id (all_ids child) (all_ids root) ≡ false
    → (t : Node) × IsInserted parent_id child root parent cs t
unfolding insert_under
insert_under-IsInserted parent_id child root parent cs h k s =
    let (t, r) = relist parent_id root parent cs (cs ++ child ∷ []) h k in
    (
      t,
      record {
        result = rw (h, insert_under) (rw k (rw s r.result));
        found = r.found;
        listed = r.listed;
        ids = λ i. omega (arith, r.ids i, tally-middle i cs child []);
      },
    )

tally-absent : (i : String) (js : List String) → contains_id i js ≡ false → tally i js ≡ 0
tally-absent i [] h = refl
tally-absent i (j ∷ js) h = elim (Bool-cases (str_eq j i)) [
  | inl same ↦ cc (rw (same, contains_id) at h)
  | inr other ↦ rw (other, tally) (omega (arith, tally-absent i js (rw (other, contains_id) at h)))
]

-- no id is in both lists
shares_id-false :
    (i : String) (is js : List String)
    → shares_id is js ≡ false
    → (tally i is ≡ 0) ⊎ (tally i js ≡ 0)
shares_id-false i [] js h = inl refl
shares_id-false i (j ∷ is) js h = elim (Bool-cases (contains_id j js)) [
  | inl here ↦ cc (rw (here, shares_id) at h)
  | inr gone ↦ elim (Bool-cases (str_eq j i)) [
    | inl same ↦
        inr (tally-absent i js (subst (λ x. contains_id x js ≡ false) ((eq_iff j i).0 same) gone))
    | inr other ↦ elim (shares_id-false i is js (rw (gone, shares_id) at h)) [
      | inl none_here ↦ inl (rw (other, tally) (omega arith))
      | inr none_there ↦ inr none_there
    ]
  ]
]

-- An InsertChild that is accepted keeps a tree without repeated ids so, when the child has none.
pub insert_under-Unique :
    (parent_id : String) (child root t : Node)
    → Unique root
    → Unique child
    → insert_under parent_id child root ≡ applied t
    → Unique t
unfolding insert_under
insert_under-Unique parent_id child root t u v h i =
    elim (Option-cases (find_node parent_id root)) [
      | inl gone ↦ cc (rw (gone, insert_under) at h)
      | inr (parent, here) ↦ elim (Option-cases (layout_children parent)) [
        | inl bare ↦ cc (rw (here, bare, insert_under) at h)
        | inr (cs, k) ↦ elim (Bool-cases (shares_id (all_ids child) (all_ids root))) [
          | inl both ↦ cc (rw (here, k, both, insert_under) at h)
          | inr s ↦
              let (t', r) = insert_under-IsInserted parent_id child root parent cs here k s in
              let same : t' ≡ t = cc (sym r.result ∙ h) in
              let e : tally i (all_ids t) ≡ tally i (all_ids root) + tally i (all_ids child) =
                (subst (λ x. tally i (all_ids x) ≡ tally i (all_ids root) + tally i (all_ids child))
                  same (r.ids i)) in
              elim (shares_id-false i (all_ids child) (all_ids root) s) [
                | inl fresh ↦ omega (arith, u i)
                | inr fresh ↦ omega (arith, v i)
              ]
        ]
      ]
    ]
