-- ===== src/Ops/Laws/Move.antt =====
-- ops/apply.go: MoveNode, on a tree without repeated ids.
use fuaran_go.Prelude.{
  ◌+◌, String, ◌≡◌, refl, sym, ap, ◌∙◌, subst, List, [], ◌∷◌, ◌++◌, some, str_eq, arith,
  Option-cases, Bool-cases, inl, inr,
}
use fuaran_go.Wire.Value.{Node}
use fuaran_go.Ops.Traverse.{find_node, all_ids, layout_children, with_layout_children, is_ancestor}
use fuaran_go.Ops.Apply.Structure.{
  tally, insert_after, insert_under, remove_target, move_under, shares_id,
}
use fuaran_go.Ops.Apply.{Outcome, applied, refused, panicked}
use fuaran_go.Ops.Laws.Unique.{Unique}
use fuaran_go.Ops.Laws.Insert.{insert_under-IsInserted}
use fuaran_go.Ops.Laws.Remove.{remove_target-applied}

-- the two halves of a move that is accepted: the removal, then the insertion of what was there
record IsHalved (target new_parent_id : String) (root moving t : Node) : Type 0 where
  between : Node
  removed : remove_target target root ≡ applied between
  inserted : insert_under new_parent_id moving between ≡ applied t

insert_after-applied :
    (target new_parent_id : String) (root moving t : Node) (o : Outcome)
    → remove_target target root ≡ o
    → insert_after root o (insert_under new_parent_id moving) ≡ applied t
    → IsHalved target new_parent_id root moving t
insert_after-applied target new_parent_id root moving t (applied b) e h = record {
  between = b;
  removed = e;
  inserted = h;
}
insert_after-applied target new_parent_id root moving t (refused b c) e h = cc
insert_after-applied target new_parent_id root moving t panicked e h = cc

move_under-IsHalved :
    (target new_parent_id : String) (root t : Node)
    → move_under target new_parent_id root ≡ applied t
    → (moving : Node) × (find_node target root ≡ some moving)
      × IsHalved target new_parent_id root moving t
unfolding move_under
move_under-IsHalved target new_parent_id root t h =
    elim (Bool-cases (str_eq target new_parent_id)) [
      | inl same ↦ cc (rw (same, move_under) at h)
      | inr other ↦ elim (Bool-cases (is_ancestor target new_parent_id root)) [
        | inl above ↦ cc (rw (other, above, move_under) at h)
        | inr free ↦ elim (Option-cases (find_node target root)) [
          | inl gone ↦ cc (rw (other, free, gone, move_under) at h)
          | inr (moving, here) ↦ elim (Option-cases (find_node new_parent_id root)) [
            | inl gone ↦ cc (rw (other, free, here, gone, move_under) at h)
            | inr (new_parent, there) ↦ elim (Option-cases (layout_children new_parent)) [
              | inl bare ↦ cc (rw (other, free, here, there, bare, move_under) at h)
              | inr (cs, k) ↦ (
                moving,
                here,
                insert_after-applied target new_parent_id root moving t (remove_target target root)
                    refl (rw (other, free, here, there, k, move_under) at h),
              )
            ]
          ]
        ]
      ]
    ]

insert_under-applied :
    (parent_id : String) (child root t : Node)
    → insert_under parent_id child root ≡ applied t
    → (parent : Node) × (cs : List Node) × (find_node parent_id t
        ≡ some (with_layout_children parent (cs ++ child ∷ [])))
      × (layout_children (with_layout_children parent (cs ++ child ∷ [])) ≡ some (cs ++ child ∷ []))
      × ((i : String) → tally i (all_ids t) ≡ tally i (all_ids root) + tally i (all_ids child))
unfolding insert_under
insert_under-applied parent_id child root t h = elim (Option-cases (find_node parent_id root)) [
  | inl gone ↦ cc (rw (gone, insert_under) at h)
  | inr (parent, here) ↦ elim (Option-cases (layout_children parent)) [
    | inl bare ↦ cc (rw (here, bare, insert_under) at h)
    | inr (cs, k) ↦ elim (Bool-cases (shares_id (all_ids child) (all_ids root))) [
      | inl both ↦ cc (rw (here, k, both, insert_under) at h)
      | inr s ↦
          let (t', r) = insert_under-IsInserted parent_id child root parent cs here k s in
          let same : t' ≡ t = cc (sym r.result ∙ h) in
          (
            parent,
            cs,
            subst
                (λ x. find_node parent_id x ≡ some (with_layout_children parent (cs ++ child ∷ [])))
                same r.found,
            r.listed,
            subst
                (λ x.
                  (i : String)
                  → tally i (all_ids x) ≡ tally i (all_ids root) + tally i (all_ids child))
                same r.ids,
          )
    ]
  ]
]

-- the moved node, and where it is now
pub record IsMoved (target new_parent_id : String) (root t : Node) : Type 0 where
  pub moving : Node
  pub named : find_node target root ≡ some moving
  pub parent : Node
  pub others : List Node
  pub found : find_node new_parent_id t ≡ some parent
  pub last : layout_children parent ≡ some (others ++ moving ∷ [])
  pub ids : (i : String) → tally i (all_ids t) ≡ tally i (all_ids root)

-- A MoveNode that is accepted on a tree without repeated ids puts the node, with its whole subtree,
-- behind the other children of the new parent, and every id is held as often as before.
pub move_under-IsMoved :
    (target new_parent_id : String) (root t : Node)
    → Unique root
    → move_under target new_parent_id root ≡ applied t
    → IsMoved target new_parent_id root t
move_under-IsMoved target new_parent_id root t u h =
    let (moving, here, half) = move_under-IsHalved target new_parent_id root t h in
    let r = remove_target-applied target root half.between u half.removed in
    let (parent, cs, found, last, ids) =
      insert_under-applied new_parent_id moving half.between t half.inserted in
    let same : r.child ≡ moving = cc (sym r.named ∙ here) in
    record {
      moving = moving;
      named = here;
      parent = with_layout_children parent (cs ++ moving ∷ []);
      others = cs;
      found = found;
      last = last;
      ids = λ i. omega (arith, ids i, r.ids i, ap (λ c. tally i (all_ids c)) same);
    }
