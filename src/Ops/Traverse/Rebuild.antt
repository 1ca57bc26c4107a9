-- ===== src/Ops/Traverse/Rebuild.antt =====
-- A slot's rebuild puts another sub-node in its place, and changes no other.
pub mod Keys
pub mod Arms
pub mod Cases
pub mod Whole
use fuaran_go.Prelude.{
  ℕ, zero, suc, ◌+◌, String, ◌≡◌, refl, sym, ap, ◌∙◌, subst, List, [], ◌∷◌, ◌++◌, map, Bool, true,
  false, not, ◌&&◌, Option, none, some, str_eq, if◌then◌else◌, set as set_elem, set-append, length,
  length-append, arith, Option-cases, Bool-cases, inl, inr, append_assoc, append-nil, map-append,
  eq_iff, &&-true, eq_refl,
}
use fuaran_go.Wire.Value.{
  Value, arr, obj, node, tagged, Fields, end, Node, envelope, tag, fields, id, kind, extras, get,
  set, as_arr, as_obj, as_node, get-set, get-set_self, from_list, to_list, to_list-from_list,
}
use fuaran_go.Idl.Lookup.{ordered_children, node_arms}
use fuaran_go.Idl.Facts.{contains, distinct, node_arms-distinct, ordered_children-excludes}
use fuaran_go.Ops.Traverse.{
  held_in, ChildSlot, layout_children, layout_slots, key_slots, case_child, case_slots,
  switch_cases, kind_slots, fields_or_end, state_fields, state_keys, state_slots, child_slots,
  children, set_kind_field, set_extra, set_state_child, with_layout_children, with_case_child,
}
use fuaran_go.Ops.Traverse.Slots.{
  child_of, case_children, kind_children, state_children, children-append, kind_children-congr,
  layout_children-with, layout_children-slot, layout_slots-children, kind_slots-children,
  state_slots-children, key_slots-children, case_slots-children,
}

-- The slots stand for consecutive sub-nodes of `n`, with `before` in front and `after` behind.
abbrev pub Rebuilds : Node → List Node → List ChildSlot → List Node → Type 0
Rebuilds n before [] after = Unit
Rebuilds n before (s ∷ rest) after =
    ((c : Node)
      → (id (s.rebuild c) ≡ id n)
        × (children (s.rebuild c) ≡ before ++ c ∷ (map child_of rest ++ after)))
    × Rebuilds n (before ++ s.child ∷ []) rest after

pub Rebuilds-append :
    (n : Node) (before : List Node) (xs ys : List ChildSlot) (after : List Node)
    → Rebuilds n before xs (map child_of ys ++ after)
    → Rebuilds n (before ++ map child_of xs) ys after
    → Rebuilds n before (xs ++ ys) after
Rebuilds-append n before [] ys after h k = rw append-nil at k
Rebuilds-append n before (s ∷ xs) ys after (here, h) k = (
  λ c. (
    (here c).0,
    (here c).1
        ∙ ap (λ l. before ++ c ∷ l)
            (sym (append_assoc (map child_of xs) (map child_of ys) after)
              ∙ ap (λ l. l ++ after) (sym (map-append child_of xs ys))),
  ),
  Rebuilds-append n (before ++ s.child ∷ []) xs ys after h (
      subst (λ l. Rebuilds n l ys after)
        (sym (append_assoc before (s.child ∷ []) (map child_of xs))) k),
)

-- The ordered child list.
state_children-with :
    (n : Node) (cs : List Node) → state_children (with_layout_children n cs) ≡ state_children n
unfolding state_children with_layout_children
state_children-with n cs = refl

kind_children-layout :
    (n : Node) (cs : List Node) → layout_children n ≡ some cs → kind_children n ≡ cs
unfolding kind_children
kind_children-layout n cs h = rw (h, kind_children)

pub children-with_layout :
    (n : Node) (slot : String) (cs : List Node)
    → ordered_children (tag (kind n)) ≡ some slot
    → children (with_layout_children n cs) ≡ cs ++ state_children n
children-with_layout n slot cs h = cc (
  children-append (with_layout_children n cs),
  state_children-with n cs,
  kind_children-layout (with_layout_children n cs) cs (layout_children-with n slot cs h),
)

pub layout-Rebuilds :
    (n : Node) (slot : String) (cs : List Node) (i : ℕ) (done rest : List Node)
    → ordered_children (tag (kind n)) ≡ some slot
    → cs ≡ done ++ rest
    → i ≡ length done
    → Rebuilds n done (layout_slots n cs i rest) (state_children n)
unfolding layout_slots
layout-Rebuilds n slot cs i done [] has h e = tt
layout-Rebuilds n slot cs i done (c ∷ rest) has h e = (
  λ c'. (
    unfold with_layout_children in refl,
    children-with_layout n slot _ has
        ∙ ap (λ l. l ++ state_children n) (rw (h, e) (set-append done c rest c'))
        ∙ append_assoc done (c' ∷ rest) (state_children n)
        ∙ ap (λ l. done ++ c' ∷ (l ++ state_children n))
            (sym (layout_slots-children n cs (suc i) rest)),
  ),
  layout-Rebuilds n slot cs (suc i) (done ++ c ∷ []) rest has
      (h ∙ sym (append_assoc done (c ∷ []) rest)) (omega (arith, length-append {0} done (c ∷ []))),
)
