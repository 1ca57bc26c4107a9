-- ===== src/Ops/Laws/Parent.antt =====
-- `find_layout_parent` of ops/traverse.go: what it finds stands in the tree and holds the target.
use fuaran_go.Prelude.{
  String, ◌≡◌, refl, sym, ap, ◌∙◌, subst, List, [], ◌∷◌, ◌++◌, true, some, str_eq, All,
  append_assoc, Option-cases, Bool-cases, inl, inr,
}
use fuaran_go.Wire.Value.{Node, id}
use fuaran_go.Ops.Traverse.{children, layout_children, any_id, is_layout_parent, find_layout_parent}
use fuaran_go.Ops.Traverse.Slots.{children-append, kind_children, state_children}
use fuaran_go.Ops.Traverse.Walk.{node_induction}
use fuaran_go.Ops.Traverse.Laws.{first_in, find_layout_parent_lem}
use fuaran_go.Ops.Laws.Unique.{Inside, at_root, deeper}

-- the place of a child with the target's id
pub record Holds (t : String) (cs : List Node) : Type 0 where
  pub before : List Node
  pub child : Node
  pub after : List Node
  pub split : cs ≡ before ++ child ∷ after
  pub named : str_eq (id child) t ≡ true

pub any_id-Holds : (t : String) (cs : List Node) → any_id t cs ≡ true → Holds t cs
any_id-Holds t [] h = cc
any_id-Holds t (c ∷ cs) h = elim (Bool-cases (str_eq (id c) t)) [
  | inl same ↦ record { before = []; child = c; after = cs; split = refl; named = same }
  | inr other ↦
      let rest = any_id-Holds t cs (rw (other, any_id) at h) in
      record {
        before = c ∷ rest.before;
        child = rest.child;
        after = rest.after;
        split = ap (λ l. c ∷ l) rest.split;
        named = rest.named;
      }
]

-- What stands in a sub-node stands in the node.
pub Inside-trans : {m n r : Node} → Inside m n → Inside n r → Inside m r
Inside-trans p at_root = p
Inside-trans p (deeper before c after e below) = deeper before c after e (Inside-trans p below)

pub kind_children-layout_children :
    (n : Node) (cs : List Node) → layout_children n ≡ some cs → kind_children n ≡ cs
unfolding kind_children
kind_children-layout_children n cs h = rw (h, kind_children) refl

-- the sub-nodes of a layout node: its children, then those of its state block
pub children-layout_children :
    (n : Node) (cs : List Node) → layout_children n ≡ some cs → children n ≡ cs ++ state_children n
children-layout_children n cs h =
    children-append n ∙ ap (λ l. l ++ state_children n) (kind_children-layout_children n cs h)

-- the found parent, its children, and the place of the target among them
pub record IsParent (t : String) (n m : Node) : Type 0 where
  pub inside : Inside m n
  pub children : List Node
  pub listed : layout_children m ≡ some children
  pub holds : Holds t children

-- some node of the list has what is found inside
record IsIn (m : Node) (cs : List Node) (t : String) : Type 0 where
  before : List Node
  child : Node
  after : List Node
  split : cs ≡ before ++ child ∷ after
  found : IsParent t child m

abbrev Finds : String → Node → Type 0
Finds t n = (m : Node) → find_layout_parent t n ≡ some m → IsParent t n m

first_in-IsIn :
    (t : String) (cs : List Node)
    → All (Finds t) cs
    → (m : Node) → first_in (find_layout_parent t) cs ≡ some m
    → IsIn m cs t
first_in-IsIn t [] _ m h = cc
first_in-IsIn t (c ∷ cs) (f, fs) m h = elim (Option-cases (find_layout_parent t c)) [
  | inl gone ↦
      let rest = first_in-IsIn t cs fs m (rw (gone, first_in) at h) in
      record {
        before = c ∷ rest.before;
        child = rest.child;
        after = rest.after;
        split = ap (λ l. c ∷ l) rest.split;
        found = rest.found;
      }
  | inr (d, here) ↦ record {
    before = [];
    child = c;
    after = cs;
    split = refl;
    found = f m (here ∙ rw (here, first_in) at h);
  }
]

direct-IsParent : (t : String) (n : Node) → is_layout_parent t n ≡ true → IsParent t n n
direct-IsParent t n h = elim (Option-cases (layout_children n)) [
  | inl gone ↦ cc (rw (gone, is_layout_parent) at h)
  | inr (cs, e) ↦ record {
    inside = at_root;
    children = cs;
    listed = e;
    holds = any_id-Holds t cs (rw (e, is_layout_parent) at h);
  }
]

-- The parent that is found is a layout node of the tree, with a child of the target's id.
pub find_layout_parent-IsParent :
    (t : String) (n m : Node) → find_layout_parent t n ≡ some m → IsParent t n m
find_layout_parent-IsParent t = node_induction (Finds t) λ n ih m h.
    let e = sym (find_layout_parent_lem t n) ∙ h in
    elim (Bool-cases (is_layout_parent t n)) [
      | inl here ↦
          let same : n ≡ m = cc (rw here at e) in
          subst (IsParent t n) same (direct-IsParent t n here)
      | inr other ↦
          let p = first_in-IsIn t (children n) ih m (rw other at e) in
          let found = p.found in
          record {
            inside = deeper p.before p.child p.after p.split found.inside;
            children = found.children;
            listed = found.listed;
            holds = found.holds;
          }
    ]

-- A child of a layout node stands in it.
pub Inside-child :
    (n : Node) (cs before : List Node) (c : Node) (after : List Node)
    → layout_children n ≡ some cs
    → cs ≡ before ++ c ∷ after
    → Inside c n
Inside-child n cs before c after h e =
    deeper before c (after ++ state_children n)
      (children-layout_children n cs h
        ∙ ap (λ l. l ++ state_children n) e
        ∙ append_assoc before (c ∷ after) (state_children n))
      at_root
