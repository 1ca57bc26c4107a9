-- ===== src/Ops/Traverse/Rebuild/Cases.antt =====
-- Slots in the cases of a Switch.
use fuaran_go.Prelude.{
  ℕ, suc, String, ◌≡◌, refl, sym, ap, ◌∙◌, subst, List, [], ◌∷◌, ◌++◌, true, none, some, str_eq,
  set as set_elem, set-append, length, length-append, arith, Option-cases, inl, inr, append_assoc,
  append-nil,
}
use fuaran_go.Wire.Value.{
  Value, arr, obj, node, tagged, Node, envelope, tag, fields, kind, as_node, get-set_self,
  from_list, to_list-from_list,
}
use fuaran_go.Idl.Lookup.{ordered_children, node_arms}
use fuaran_go.Idl.Facts.{ordered_children-excludes}
use fuaran_go.Ops.Traverse.{
  held_in, case_child, case_slots, switch_cases, children, set_kind_field, with_case_child,
}
use fuaran_go.Ops.Traverse.Slots.{
  case_children, state_children, children-append, case_slots-children,
}
use fuaran_go.Ops.Traverse.Rebuild.{Rebuilds}
use fuaran_go.Ops.Traverse.Rebuild.Keys.{held-set_ne}
use fuaran_go.Ops.Traverse.Rebuild.Arms.{state_children-set, cases-not_arm, kind_children-set}

-- The cases of a Switch.
case_child-with :
    (v : Value) (c d : Node) → case_child v ≡ some d → case_child (with_case_child v c) ≡ some c
case_child-with (obj (tagged t fs)) c d h = ap as_node (get-set_self "child" (node c) fs)
case_child-with _ c d h = cc

case_children-append :
    (xs ys : List Value) → case_children (xs ++ ys) ≡ case_children xs ++ case_children ys
case_children-append [] ys = refl
case_children-append (v ∷ xs) ys = ground (arith, case_children-append xs ys)

case_children-cons :
    (v : Value) (vs : List Value) (c : Node)
    → case_child v ≡ some c
    → case_children (v ∷ vs) ≡ c ∷ case_children vs
case_children-cons v vs c h = rw (h, case_children)

case_children-skip :
    (v : Value) (vs : List Value) → case_child v ≡ none → case_children (v ∷ vs) ≡ case_children vs
case_children-skip v vs h = rw (h, case_children)

switch_cases-set :
    (n : Node) (vs : List Value)
    → str_eq (tag (kind n)) "Switch" ≡ true
    → switch_cases (set_kind_field n "cases" (arr (from_list vs))) ≡ vs
unfolding switch_cases set_kind_field
switch_cases-set n vs h = rw (h, get-set_self) (to_list-from_list vs)

no_slot_of_switch : (t : String) → str_eq t "Switch" ≡ true → ordered_children t ≡ none
no_slot_of_switch t h = elim (Option-cases (ordered_children t)) [
  | inl e ↦ e
  | inr (slot, e) ↦ cc ((ordered_children-excludes t slot e).1, h)
]

children-set_cases :
    (n : Node) (vs : List Value)
    → str_eq (tag (kind n)) "Switch" ≡ true
    → children (set_kind_field n "cases" (arr (from_list vs)))
      ≡ held_in (fields (kind n)) (node_arms (tag (kind n))) ++ case_children vs ++ state_children n
children-set_cases (envelope i (tagged t fs) x) vs h =
    let n = envelope i (tagged t fs) x in
    let m = set_kind_field n "cases" (arr (from_list vs)) in
    cc (
      children-append m,
      state_children-set n "cases" (arr (from_list vs)),
      kind_children-set n "cases" (arr (from_list vs)) (no_slot_of_switch t h),
      switch_cases-set n vs h,
      held-set_ne fs "cases" (arr (from_list vs)) (node_arms t) (cases-not_arm t),
    )

module _ (n : Node) (cs : List Value) (is_switch : str_eq (tag (kind n)) "Switch" ≡ true) where
  abbrev arms_held : List Node
  arms_held = held_in (fields (kind n)) (node_arms (tag (kind n)))

  pub case-Rebuilds :
      (i : ℕ) (done rest : List Value)
      → cs ≡ done ++ rest
      → i ≡ length done
      → Rebuilds n (arms_held ++ case_children done) (case_slots n cs i rest) (state_children n)
  unfolding case_slots
  case-Rebuilds i done [] e j = tt
  case-Rebuilds i done (v ∷ rest) e j =
      let next =
        case-Rebuilds (suc i) (done ++ v ∷ []) rest (e ∙ sym (append_assoc done (v ∷ []) rest))
          (omega (arith, length-append {0} done (v ∷ []))) in
      elim (Option-cases (case_child v)) [
        | inl gone ↦
            rw (gone, case_slots)
              (subst
                (λ l. Rebuilds n (arms_held ++ l) (case_slots n cs (suc i) rest) (state_children n))
                (case_children-append done (v ∷ [])
                  ∙ ap (λ l. case_children done ++ l) (case_children-skip v [] gone)
                  ∙ append-nil (case_children done))
                next)
        | inr (c, here) ↦
            rw (here, case_slots)
              (
                (λ c'. (
                  unfold set_kind_field in refl,
                  children-set_cases n (set_elem cs i (with_case_child v c')) is_switch
                      ∙ ap (λ l. arms_held ++ case_children l ++ state_children n)
                          {x = set_elem cs i (with_case_child v c')}
                          {y = done ++ with_case_child v c' ∷ rest}
                          (rw (e, j) (set-append done v rest (with_case_child v c')))
                      ∙ ap (λ l. arms_held ++ l ++ state_children n)
                          (case_children-append done (with_case_child v c' ∷ rest)
                            ∙ ap (λ l. case_children done ++ l)
                                (case_children-cons (with_case_child v c') rest c'
                                  (case_child-with v c' c here)))
                      ∙ cc (
                        append_assoc arms_held (case_children done) (c' ∷ case_children rest),
                        append_assoc (arms_held ++ case_children done) (c' ∷ case_children rest)
                            (state_children n),
                        case_slots-children n cs (suc i) rest,
                      ),
                )),
                subst (λ l. Rebuilds n l (case_slots n cs (suc i) rest) (state_children n))
                    (ap (λ l. arms_held ++ l)
                        (case_children-append done (v ∷ [])
                          ∙ ap (λ l. case_children done ++ l) (case_children-cons v [] c here))
                      ∙ sym (append_assoc arms_held (case_children done) (c ∷ [])))
                    next,
              )
      ]
