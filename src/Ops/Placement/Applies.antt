-- ===== src/Ops/Placement/Applies.antt =====
-- ops/placement.go: an insertion that PlaceOp emits is accepted by the engine, and lands at its place.
use fuaran_go.Prelude.{
  ◌+◌, String, ◌≡◌, refl, sym, ap, ◌∙◌, subst, List, [], ◌∷◌, ◌++◌, map, map-append, false, Option,
  none, some, str_eq, eq_refl, ids_eq, ids_eq→eq, arith, Bool-cases, if◌then◌else◌, Option-cases,
  inl, inr,
}
use fuaran_go.Wire.Core.{Core}
use fuaran_go.Wire.Value.{Obj, Node, id}
use fuaran_go.Ops.Traverse.{find_node, all_ids, layout_children, with_layout_children, contains_id}
use fuaran_go.Ops.Apply.{applied}
use fuaran_go.Ops.Apply.Structure.{tally, shares_id}
use fuaran_go.Ops.Apply.Engine.{apply_one}
use fuaran_go.Ops.Placement.Emitted.{
  apply_one-insert, apply_one-reorder, apply_one-two, reorder_under-accepts,
}
use fuaran_go.Ops.Laws.Unique.{Unique, tally-append}
use fuaran_go.Ops.Laws.Insert.{insert_under-IsInserted, insert_under-Unique}
use fuaran_go.Ops.Laws.Multiset.{id_of}
use fuaran_go.Ops.Laws.Reorder.{
  SameTally, same_id_multiset_iff, children-Unique, reorder_under-IsReordered,
}
use fuaran_go.Ops.Placement.{
  Placement, Target, Placed, placed, denied, without, reposition, insert_child_op,
  reorder_children_op, batch_op, first_in, first_shared_id, with_order, place_under, place_op,
  container_children, ◌>>=◌,
}
use fuaran_go.Ops.Placement.Reposition.{IsAmong, IsAnswer, reposition-IsAnswer}

-- what an accepted insertion leaves: the child is at its place among the old children
pub record IsPlaced (core : Core) (root child : Node) (target : Target) (op : Obj) : Type 0 where
  pub tree : Node
  pub result : apply_one core op root ≡ applied tree
  pub old_parent : Node
  pub siblings : List Node
  pub old_found : find_node target.parent_id root ≡ some old_parent
  pub old_listed : layout_children old_parent ≡ some siblings
  pub parent : Node
  pub children : List Node
  pub found : find_node target.parent_id tree ≡ some parent
  pub listed : layout_children parent ≡ some children
  pub at : IsAmong (id child) target.placement (map id siblings) (map id children)
  pub ids : (i : String) → tally i (all_ids tree) ≡ tally i (all_ids root) + tally i (all_ids child)

without-absent : (i : String) (js : List String) → tally i js ≡ 0 → without i (js ++ i ∷ []) ≡ js
without-absent i [] h = rw (eq_refl i, without) refl
without-absent i (j ∷ js) h = elim (Bool-cases (str_eq j i)) [
  | inl same ↦ absurd (let h' : 1 + tally i js ≡ 0 = (rw (same, tally) at h) in omega arith)
  | inr other ↦
      let h' : 0 + tally i js ≡ 0 = (rw (other, tally) at h) in
      rw other (ap (λ l. j ∷ l) (without-absent i js (omega arith)))
]

first_in-none :
    (existing is : List String) → first_in existing is ≡ none → shares_id is existing ≡ false
first_in-none existing [] h = refl
first_in-none existing (i ∷ is) h = elim (Bool-cases (contains_id i existing)) [
  | inl here ↦ cc (rw (here, first_in) at h)
  | inr gone ↦ rw (gone, shares_id) (first_in-none existing is (rw (gone, first_in) at h))
]

IsAmong-tally :
    (moved : String) (p : Placement) (others out : List String)
    → IsAmong moved p others out
    → (i : String) → tally i out ≡ tally i (others ++ moved ∷ [])
IsAmong-tally moved p others out h i =
    let one : tally i (moved ∷ []) ≡ (if str_eq moved i then 1 else 0) + 0 = refl in
    let more : tally i (moved ∷ h.post) ≡ (if str_eq moved i then 1 else 0) + tally i h.post =
      refl in
    omega (
      arith,
      ap (tally i) h.whole,
      ap (tally i) h.split,
      tally-append i h.pre (moved ∷ h.post),
      tally-append i h.pre h.post,
      tally-append i others (moved ∷ []),
    )

abbrev appended : Node → List Node → List String
appended child cs = map id cs ++ id child ∷ []

module _ (core : Core) (root child : Node) (target : Target) (parent : Node) (cs : List Node)
    (u : Unique root) (v : Unique child) (here : find_node target.parent_id root ≡ some parent)
    (k : layout_children parent ≡ some cs)
    (fresh : shares_id (all_ids child) (all_ids root) ≡ false) where
  new_child : tally (id child) (map id cs) ≡ 0
  new_child =
      let (t, r) = insert_under-IsInserted target.parent_id child root parent cs here k fresh in
      let u' = insert_under-Unique target.parent_id child root t u v r.result in
      let one : tally (id child) (id child ∷ []) ≡ 1 = (rw (eq_refl (id child), tally) refl) in
      omega (
        arith,
        children-Unique target.parent_id t (with_layout_children parent (cs ++ child ∷ []))
            (cs ++ child ∷ []) (id child) u' r.found r.listed,
        ap (tally (id child)) (map-append id cs (child ∷ [])),
        tally-append (id child) (map id cs) (id child ∷ []),
      )

  IsPlaced-alone :
      IsAmong (id child) target.placement (map id cs) (appended child cs)
      → IsPlaced core root child target (insert_child_op target.parent_id child)
  IsPlaced-alone h =
      let (t, r) = insert_under-IsInserted target.parent_id child root parent cs here k fresh in
      record {
        tree = t;
        result = apply_one-insert core target.parent_id child root ∙ r.result;
        old_parent = parent;
        siblings = cs;
        old_found = here;
        old_listed = k;
        parent = with_layout_children parent (cs ++ child ∷ []);
        children = cs ++ child ∷ [];
        found = r.found;
        listed = r.listed;
        at = rw (map-append id cs (child ∷ [])) h;
        ids = r.ids;
      }

  IsPlaced-ordered :
      (wanted : List String)
      → IsAmong (id child) target.placement (map id cs) wanted
      → IsPlaced core root child target (
          batch_op (
            insert_child_op target.parent_id child
            ∷ reorder_children_op target.parent_id wanted
            ∷ []))
  IsPlaced-ordered wanted h =
      let (t, r) = insert_under-IsInserted target.parent_id child root parent cs here k fresh in
      let u' = insert_under-Unique target.parent_id child root t u v r.result in
      let new_parent = with_layout_children parent (cs ++ child ∷ []) in
      let same : SameTally wanted (map id_of (cs ++ child ∷ [])) = (λ i.
        IsAmong-tally (id child) target.placement (map id cs) wanted h i
        ∙ ap (tally i) (sym (map-append id cs (child ∷ [])))) in
      let (t', e) =
        reorder_under-accepts target.parent_id wanted t new_parent (cs ++ child ∷ []) r.found
          r.listed ((same_id_multiset_iff (cs ++ child ∷ []) wanted).1 same) in
      let o = reorder_under-IsReordered target.parent_id wanted t t' u' e in
      record {
        tree = t';
        result =
            apply_one-two core (insert_child_op target.parent_id child)
              (reorder_children_op target.parent_id wanted) root t t'
              (apply_one-insert core target.parent_id child root ∙ r.result)
              (apply_one-reorder core target.parent_id wanted t ∙ e);
        old_parent = parent;
        siblings = cs;
        old_found = here;
        old_listed = k;
        parent = o.parent;
        children = o.children;
        found = o.found;
        listed = o.listed;
        at = subst (IsAmong (id child) target.placement (map id cs)) (sym o.ordered) h;
        ids = λ i. o.ids i ∙ r.ids i;
      }

  IsPlaced-among :
      (wanted : List String) (op : Obj)
      → IsAmong (id child) target.placement (map id cs) wanted
      → with_order
          (insert_child_op target.parent_id child)
          target.parent_id
          wanted
          (appended child cs)
        ≡ op
      → IsPlaced core root child target op
  unfolding with_order
  IsPlaced-among wanted op h e = elim (Bool-cases (ids_eq wanted (appended child cs))) [
    | inl same ↦ subst (IsPlaced core root child target) (rw (same, with_order) at e) (
        IsPlaced-alone (
          subst (IsAmong (id child) target.placement (map id cs))
            (ids_eq→eq wanted (appended child cs) same) h))
    | inr other ↦
        subst (IsPlaced core root child target) (rw (other, with_order) at e)
          (IsPlaced-ordered wanted h)
  ]

bind-placed :
    {A B : Type 0} (m : Placed A) (f : A → Placed B) (b : B)
    → (m >>= f) ≡ placed b
    → (a : A) × (m ≡ placed a) × (f a ≡ placed b)
bind-placed (placed a) f b h = (a, refl, h)
bind-placed (denied e) f b h = cc

record IsContainer (root : Node) (parent_id : String) (is : List String) : Type 0 where
  parent : Node
  children : List Node
  here : find_node parent_id root ≡ some parent
  listed : layout_children parent ≡ some children
  names : map id children ≡ is

container_children-IsContainer :
    (root : Node) (parent_id : String) (is : List String)
    → container_children root parent_id ≡ placed is
    → IsContainer root parent_id is
unfolding container_children
container_children-IsContainer root parent_id is h =
    elim (Option-cases (find_node parent_id root)) [
      | inl gone ↦ cc (rw (gone, container_children) at h)
      | inr (parent, here) ↦ elim (Option-cases (layout_children parent)) [
        | inl bare ↦ cc (rw (here, bare, container_children) at h)
        | inr (cs, k) ↦ record {
          parent = parent;
          children = cs;
          here = here;
          listed = k;
          names = cc (rw (here, k, container_children) at h);
        }
      ]
    ]

module _ (core : Core) (root child : Node) (target : Target) (parent : Node) (cs : List Node)
    (u : Unique root) (v : Unique child) (here : find_node target.parent_id root ≡ some parent)
    (k : layout_children parent ≡ some cs) where
  place_under-IsPlaced :
      (op : Obj) (shared : Option String)
      → first_shared_id root child ≡ shared
      → place_under root child target (map id cs) shared ≡ placed op
      → IsPlaced core root child target op
  unfolding place_under first_shared_id
  place_under-IsPlaced op (some dup) s e = cc
  place_under-IsPlaced op none s e =
      let fresh = first_in-none (all_ids root) (all_ids child) s in
      let new = new_child core root child target parent cs u v here k fresh in
      let (wanted, w, o) =
        bind-placed (reposition (appended child cs) (id child) target.parent_id target.placement)
          (λ wanted. placed (
            with_order (insert_child_op target.parent_id child) target.parent_id wanted
              (appended child cs)))
          op e in
      let answer : IsAnswer (id child) target.parent_id target.placement
          (without (id child) (appended child cs)) (placed wanted) =
        (subst
          (IsAnswer (id child) target.parent_id target.placement
            (without (id child) (appended child cs)))
          w
          (reposition-IsAnswer (appended child cs) (id child) target.parent_id target.placement)) in
      IsPlaced-among core root child target parent cs u v here k fresh wanted op
        (subst (λ l. IsAmong (id child) target.placement l wanted)
          (without-absent (id child) (map id cs) new) answer)
        (cc o)

-- The op that PlaceOp emits for a tree and a child without repeated ids is accepted by the engine:
-- then the child stands at the asked place among the old children of the target, and every id is
-- held as often as in the old tree and the child together.
pub place_op-IsPlaced :
    (core : Core) (root child : Node) (target : Target) (op : Obj)
    → Unique root
    → Unique child
    → place_op root child target ≡ placed op
    → IsPlaced core root child target op
unfolding place_op
place_op-IsPlaced core root child target op u v e =
    let (is, c, rest) =
      bind-placed (container_children root target.parent_id)
        (λ is. place_under root child target is (first_shared_id root child)) op e in
    let parent = container_children-IsContainer root target.parent_id is c in
    place_under-IsPlaced core root child target parent.parent parent.children u v parent.here
      parent.listed op (first_shared_id root child) refl
      (subst (λ l. place_under root child target l (first_shared_id root child) ≡ placed op)
        (sym parent.names) rest)
