-- ===== src/Ops/Laws/Unique.antt =====
-- Trees in which no id is repeated: there `find_node` finds each node that stands in the tree.
use fuaran_go.Prelude.{
  ◌+◌, ◌≤◌, String, ◌≡◌, refl, sym, ap, ◌∙◌, List, [], ◌∷◌, ◌++◌, true, none, some, str_eq, arith,
  Option-cases, Bool-cases, inl, inr, eq_refl,
}
use fuaran_go.Wire.Value.{Node, id}
use fuaran_go.Ops.Traverse.{children, find_node, all_ids, contains_id}
use fuaran_go.Ops.Traverse.Laws.{first_in, ids_of, find_node-here, find_node-deeper, all_ids_lem}
use fuaran_go.Ops.Traverse.Edit.{ids_of-append}
use fuaran_go.Ops.Apply.Structure.{tally}
use fuaran_go.Ops.Laws.Find.{is_some, find_node-contains_id}

abbrev pub Unique : Node → Type 0
Unique n = (i : String) → tally i (all_ids n) ≤ 1

-- `m` is `n` or stands below it
pub data Inside (m : Node) : Node → Type 0 where
  at_root : Inside m m
  deeper :
      {n : Node} (before : List Node) (c : Node) (after : List Node)
      → children n ≡ before ++ c ∷ after
      → Inside m c
      → Inside m n

pub tally-append : (i : String) (xs ys : List String) → tally i (xs ++ ys) ≡ tally i xs + tally i ys
tally-append i [] ys = omega arith
tally-append i (x ∷ xs) ys = omega (arith, tally-append i xs ys)

pub contains_id-tally : (i : String) (js : List String) → contains_id i js ≡ true → 1 ≤ tally i js
contains_id-tally i [] h = cc
contains_id-tally i (j ∷ js) h = elim (Bool-cases (str_eq j i)) [
  | inl same ↦ rw (same, tally) (omega arith)
  | inr other ↦
      rw (other, tally) (omega (arith, contains_id-tally i js (rw (other, contains_id) at h)))
]

pub tally-contains_id : (i : String) (js : List String) → 1 ≤ tally i js → contains_id i js ≡ true
tally-contains_id i [] h = absurd (omega arith)
tally-contains_id i (j ∷ js) h = elim (Bool-cases (str_eq j i)) [
  | inl same ↦ rw (same, contains_id) refl
  | inr other ↦
      rw (other, contains_id)
        (tally-contains_id i js
          (let h' : 1 ≤ 0 + tally i js = (rw (other, tally) at h) in omega arith))
]

pub tally-middle :
    (i : String) (before : List Node) (c : Node) (after : List Node)
    → tally i (ids_of (before ++ c ∷ after))
      ≡ tally i (ids_of before) + tally i (all_ids c) + tally i (ids_of after)
tally-middle i before c after = omega (
  arith,
  ap (tally i) (ids_of-append before (c ∷ after)),
  tally-append i (ids_of before) (ids_of (c ∷ after)),
  tally-append i (all_ids c) (ids_of after),
)

-- an id that is found is counted
pub found-tally : (i : String) (n m : Node) → find_node i n ≡ some m → 1 ≤ tally i (all_ids n)
found-tally i n m h =
    contains_id-tally i (all_ids n) (sym (find_node-contains_id i n) ∙ ap is_some h)

-- an id that is not counted is not found
pub find_node-absent : (i : String) (n : Node) → tally i (all_ids n) ≡ 0 → find_node i n ≡ none
find_node-absent i n h = elim (Option-cases (find_node i n)) [
  | inl gone ↦ gone
  | inr (m, here) ↦ absurd (omega (arith, found-tally i n m here))
]

-- a node that is counted nowhere in front is found at its place
first_in-place :
    (i : String) (before : List Node) (c : Node) (after : List Node) (m : Node)
    → tally i (ids_of before) ≡ 0
    → find_node i c ≡ some m
    → first_in (find_node i) (before ++ c ∷ after) ≡ some m
first_in-place i [] c after m h here = rw (here, first_in) refl
first_in-place i (b ∷ before) c after m h here =
    let split = tally-append i (all_ids b) (ids_of before) in
    rw (find_node-absent i b (omega arith), first_in)
      (first_in-place i before c after m (omega arith) here)

tally-children :
    (i : String) (n : Node) → tally i (all_ids n) ≡ tally i (id n ∷ ids_of (children n))
tally-children i n = ap (tally i) (all_ids_lem n)

-- In a tree without repeated ids, each node that stands in it is found by its id.
pub Inside-find_node : (m n : Node) → Inside m n → Unique n → find_node (id m) n ≡ some m
Inside-find_node m n at_root u = find_node-here (id m) m (eq_refl (id m))
Inside-find_node m n (deeper before c after e below) u =
    let i = id m in
    let total = tally-children i n in
    let parts = ap (λ l. tally i (ids_of l)) e ∙ tally-middle i before c after in
    let unique_below : Unique c = (λ j. omega (
      arith,
      u j,
      tally-children j n,
      ap (λ l. tally j (ids_of l)) e,
      tally-middle j before c after,
    )) in
    let here = Inside-find_node m c below unique_below in
    let counted = found-tally i c m here in
    elim (Bool-cases (str_eq (id n) i)) [
      | inl same ↦
          let t : tally i (id n ∷ ids_of (children n)) ≡ 1 + tally i (ids_of (children n)) =
            rw (same, tally) refl in
          absurd (omega (arith, u i))
      | inr other ↦
          let t : tally i (id n ∷ ids_of (children n)) ≡ 0 + tally i (ids_of (children n)) =
            rw (other, tally) refl in
          find_node-deeper i n other
          ∙ ap (first_in (find_node i)) e
          ∙ first_in-place i before c after m (omega (arith, u i)) here
    ]

-- What stands in a tree holds no id more often than the tree.
pub Inside-tally :
    (m n : Node) → Inside m n → (i : String) → tally i (all_ids m) ≤ tally i (all_ids n)
Inside-tally m n at_root i = omega arith
Inside-tally m n (deeper before c after e below) i = omega (
  arith,
  Inside-tally m c below i,
  tally-children i n,
  ap (λ l. tally i (ids_of l)) e,
  tally-middle i before c after,
)

-- a node's own id is among its ids
pub tally-root : (t : String) (n : Node) → str_eq (id n) t ≡ true → 1 ≤ tally t (all_ids n)
tally-root t n h = found-tally t n n (find_node-here t n h)
