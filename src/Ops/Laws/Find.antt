-- ===== src/Ops/Laws/Find.antt =====
-- `find_node` and `all_ids` of ops/traverse.go agree: a node is found exactly for the ids of the tree.
use fuaran_go.Prelude.{
  ℕ, ◌+◌, String, ◌≡◌, refl, sym, ap, ◌∙◌, List, [], ◌∷◌, ◌++◌, Bool, true, false, ◌||◌, Option,
  none, some, str_eq, if◌then◌else◌, All, arith, Option-cases, Bool-cases, inl, inr,
}
use fuaran_go.Wire.Value.{Node, id}
use fuaran_go.Ops.Traverse.{children, find_node, all_ids, contains_id}
use fuaran_go.Ops.Traverse.Walk.{node_induction}
use fuaran_go.Ops.Traverse.Laws.{first_in, ids_of, find_node-here, find_node-deeper, all_ids_lem}
use fuaran_go.Ops.Traverse.Edit.{weigh}
use fuaran_go.Ops.Apply.Structure.{tally}

pub contains_id-append :
    (i : String) (xs ys : List String)
    → contains_id i (xs ++ ys) ≡ contains_id i xs || contains_id i ys
contains_id-append i [] ys = refl
contains_id-append i (x ∷ xs) ys = ground (arith, contains_id-append i xs ys)

-- a node holds the target's id
abbrev Found : String → Node → Type 0
Found t n = (m : Node) → find_node t n ≡ some m → str_eq (id m) t ≡ true

first_in-Found :
    (t : String) (cs : List Node)
    → All (Found t) cs
    → (m : Node) → first_in (find_node t) cs ≡ some m
    → str_eq (id m) t ≡ true
first_in-Found t [] _ m h = cc
first_in-Found t (c ∷ cs) (f, fs) m h = elim (Option-cases (find_node t c)) [
  | inl gone ↦ first_in-Found t cs fs m (rw (gone, first_in) at h)
  | inr (d, here) ↦ f m (here ∙ rw (here, first_in) at h)
]

-- What `find_node` finds has the id that was asked for.
pub find_node-id : (t : String) (n m : Node) → find_node t n ≡ some m → str_eq (id m) t ≡ true
find_node-id t = node_induction (Found t) λ n ih m h. elim (Bool-cases (str_eq (id n) t)) [
  | inl same ↦ let e : n ≡ m = cc (find_node-here t n same) in rw (← e) same
  | inr other ↦ first_in-Found t (children n) ih m (sym (find_node-deeper t n other) ∙ h)
]

abbrev pub is_some : Option Node → Bool
is_some none = false
is_some (some n) = true

abbrev Agrees : String → Node → Type 0
Agrees t n = is_some (find_node t n) ≡ contains_id t (all_ids n)

first_in-Agrees :
    (t : String) (cs : List Node)
    → All (Agrees t) cs
    → is_some (first_in (find_node t) cs) ≡ contains_id t (ids_of cs)
first_in-Agrees t [] _ = refl
first_in-Agrees t (c ∷ cs) (a, rest) = elim (Option-cases (find_node t c)) [
  | inl gone ↦
      rw (gone, first_in)
        (first_in-Agrees t cs rest
          ∙ ap (λ b. b || contains_id t (ids_of cs)) (sym (ap is_some gone) ∙ a)
          ∙ sym (contains_id-append t (all_ids c) (ids_of cs)))
  | inr (d, here) ↦
      rw (here, first_in)
        (ap (λ b. b || contains_id t (ids_of cs)) (sym (ap is_some here) ∙ a)
          ∙ sym (contains_id-append t (all_ids c) (ids_of cs)))
]

-- `find_node` finds a node exactly for the ids that `all_ids` lists.
pub find_node-contains_id :
    (t : String) (n : Node) → is_some (find_node t n) ≡ contains_id t (all_ids n)
find_node-contains_id t = node_induction (Agrees t) λ n ih. elim (Bool-cases (str_eq (id n) t)) [
  | inl same ↦
      ap is_some (find_node-here t n same) ∙ sym (ap (contains_id t) (all_ids_lem n) ∙ rw same)
  | inr other ↦
      ap is_some (find_node-deeper t n other)
      ∙ first_in-Agrees t (children n) ih
      ∙ sym (ap (contains_id t) (all_ids_lem n) ∙ rw other)
]

-- the count of an id is a weight
abbrev pub one_at : String → String → ℕ
one_at i j = if str_eq j i then 1 else 0

pub tally-weigh : (i : String) (js : List String) → tally i js ≡ weigh (one_at i) js
tally-weigh i [] = refl
tally-weigh i (j ∷ js) = ap (λ (k : ℕ). one_at i j + k) (tally-weigh i js)
