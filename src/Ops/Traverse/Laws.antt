-- ===== src/Ops/Traverse/Laws.antt =====
-- The equations of the walks, over the list of sub-nodes.
use fuaran_go.Prelude.{
  String, ◌≡◌, refl, ap, ◌∙◌, List, [], ◌∷◌, ◌++◌, map, true, false, Option, none, some, str_eq,
  if◌then◌else◌, All,
}
use fuaran_go.Wire.Value.{Node, id}
use fuaran_go.Ops.Traverse.{
  ChildSlot, child_slots, children, first_found, find_step, find_node, first_mapped, map_step,
  map_node, gather, ids_step, all_ids, is_layout_parent, parent_step, find_layout_parent,
}
use fuaran_go.Ops.Traverse.Slots.{child_of}
use fuaran_go.Ops.Traverse.Walk.{over_lem}

-- the first node for which the call succeeds
abbrev pub first_in {ℓ} : {A : Type ℓ} → (Node → Option A) → List Node → Option A
first_in go [] = none
first_in go (c ∷ cs) = elim (go c) [ some a ↦ some a | none ↦ first_in go cs ]

abbrev pub ids_of : List Node → List String
ids_of [] = []
ids_of (c ∷ cs) = all_ids c ++ ids_of cs

first_found-congr {ℓ} :
    {A : Type ℓ} (g h : Node → Option A) (ss : List ChildSlot)
    → All (λ c. g c ≡ h c) (map child_of ss)
    → first_found g ss ≡ first_found h ss
first_found-congr g h [] _ = refl
first_found-congr g h (s ∷ ss) (e, es) =
    λ i. elim (e i) [ some a ↦ some a | none ↦ first_found-congr g h ss es i ]

first_found-children {ℓ} :
    {A : Type ℓ} (g : Node → Option A) (ss : List ChildSlot)
    → first_found g ss ≡ first_in g (map child_of ss)
first_found-children g [] = refl
first_found-children g (s ∷ ss) =
    λ i. elim (g s.child) [ some a ↦ some a | none ↦ first_found-children g ss i ]

first_mapped-congr :
    (g h : Node → Option Node) (ss : List ChildSlot)
    → All (λ c. g c ≡ h c) (map child_of ss)
    → first_mapped g ss ≡ first_mapped h ss
first_mapped-congr g h [] _ = refl
first_mapped-congr g h (s ∷ ss) (e, es) =
    λ i. elim (e i) [ some c ↦ some (s.rebuild c) | none ↦ first_mapped-congr g h ss es i ]

gather-congr :
    (g h : Node → List String) (ss : List ChildSlot)
    → All (λ c. g c ≡ h c) (map child_of ss)
    → gather g ss ≡ gather h ss
gather-congr g h [] _ = refl
gather-congr g h (s ∷ ss) (e, es) = cc (e, gather-congr g h ss es)

gather-children : (ss : List ChildSlot) → gather all_ids ss ≡ ids_of (map child_of ss)
gather-children [] = refl
gather-children (s ∷ ss) = ap (λ l. all_ids s.child ++ l) (gather-children ss)

pub find_node_lem :
    (t : String) (n : Node)
    → find_node t n ≡ (if str_eq (id n) t then some n else first_in (find_node t) (children n))
unfolding find_node children
find_node_lem t n =
    over_lem (find_step t) none
      (λ g h m e.
        ap (λ r. if str_eq (id m) t then some m else r) (first_found-congr g h (child_slots m) e))
      n
    ∙ ap (λ r. if str_eq (id n) t then some n else r)
        (first_found-children (find_node t) (child_slots n))

pub map_node_lem :
    (t : String) (f : Node → Node) (n : Node)
    → map_node t f n
      ≡ (if str_eq (id n) t then some (f n) else first_mapped (map_node t f) (child_slots n))
unfolding map_node children
map_node_lem t f n =
    over_lem (map_step t f) none
      (λ g h m e.
        ap (λ r. if str_eq (id m) t then some (f m) else r)
          (first_mapped-congr g h (child_slots m) e))
      n

pub all_ids_lem : (n : Node) → all_ids n ≡ id n ∷ ids_of (children n)
unfolding all_ids children
all_ids_lem n =
    over_lem ids_step [] (λ g h m e. ap (λ r. id m ∷ r) (gather-congr g h (child_slots m) e)) n
    ∙ ap (λ r. id n ∷ r) (gather-children (child_slots n))

pub find_layout_parent_lem :
    (t : String) (n : Node)
    → find_layout_parent t n
      ≡ (if is_layout_parent t n then some n else first_in (find_layout_parent t) (children n))
unfolding find_layout_parent children
find_layout_parent_lem t n =
    over_lem (parent_step t) none
      (λ g h m e.
        ap (λ r. if is_layout_parent t m then some m else r)
          (first_found-congr g h (child_slots m) e))
      n
    ∙ ap (λ r. if is_layout_parent t n then some n else r)
        (first_found-children (find_layout_parent t) (child_slots n))

module _ (t : String) (n : Node) where
  pub find_node-here : str_eq (id n) t ≡ true → find_node t n ≡ some n
  find_node-here h = find_node_lem t n ∙ rw h

  pub find_node-deeper :
      str_eq (id n) t ≡ false → find_node t n ≡ first_in (find_node t) (children n)
  find_node-deeper h = find_node_lem t n ∙ rw h

  module _ (f : Node → Node) where
    pub map_node-here : str_eq (id n) t ≡ true → map_node t f n ≡ some (f n)
    map_node-here h = map_node_lem t f n ∙ rw h

    pub map_node-deeper :
        str_eq (id n) t ≡ false → map_node t f n ≡ first_mapped (map_node t f) (child_slots n)
    map_node-deeper h = map_node_lem t f n ∙ rw h

pub ids_of-children : (n : Node) → ids_of (map child_of (child_slots n)) ≡ ids_of (children n)
unfolding children
ids_of-children n = refl
