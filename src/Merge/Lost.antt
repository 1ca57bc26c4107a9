-- ===== src/Merge/Lost.antt =====
-- merge/merge.go: the members of a node that are no facets.
use fuaran_go.Prelude.{
  ℕ, zero, suc, String, ◌≡◌, refl, ◌∙◌, true, false, List, [], ◌∷◌, Option, none, some, arith,
  str_eq, eq_iff, Bool-cases, inl, inr,
}
use fuaran_go.Wire.Core.{Core}
use fuaran_go.Wire.Size.{node_size}
use fuaran_go.Wire.Value.{Value, Fields, end, field, Node, Obj, extras, get, get-set}
use fuaran_go.Merge.Refusal.{Resolution, Conflict, agnostic}
use fuaran_go.Merge.Facets.{is_facet_extra, non_facet, make_node, set_present}
use fuaran_go.Merge.Places.{MoveCtx, new_move_ctx}
use fuaran_go.Merge.Engine.{
  merge_step, merge3_fuel, merge3, merge_whole, merge_3way, conclude, merged,
}

get-non_facet :
    (k : String) (fs : Fields) → is_facet_extra k ≡ false → get k (non_facet fs) ≡ get k fs
unfolding get non_facet
get-non_facet k end h = refl
get-non_facet k (field j v fs) h = elim (Bool-cases (is_facet_extra j)) [
  | inl e ↦ rw e (elim (Bool-cases (str_eq j k)) [
    | inl same ↦ cc ((eq_iff j k).0 same)
    | inr other ↦ rw other (get-non_facet k fs h)
  ])
  | inr e ↦ rw e (ground (arith, get-non_facet k fs h))
]

get-set_present :
    (k j : String) (v : Option Value) (fs : Fields)
    → str_eq j k ≡ false
    → get k (set_present j v fs) ≡ get k fs
get-set_present k j none fs h = refl
get-set_present k j (some v) fs h = rw (get-set j k v fs, h) refl

-- what the test for a facet says of each name
names_apart :
    (k : String)
    → is_facet_extra k ≡ false
    → (str_eq "style" k ≡ false)
      × (str_eq "state" k ≡ false)
      × (str_eq "accessibility" k ≡ false)
      × (str_eq "tooltip" k ≡ false)
names_apart k h =
    (apart "style" refl, apart "state" refl, apart "accessibility" refl, apart "tooltip" refl)
  where
    apart : (s : String) → is_facet_extra s ≡ true → str_eq s k ≡ false
    apart s e = elim (Bool-cases (str_eq s k)) [
      | inl same ↦ cc ((eq_iff s k).0 same)
      | inr other ↦ other
    ]

get-make_node :
    (k : String) (src : Node) (o : Obj) (style state acc tip : Option Value)
    → is_facet_extra k ≡ false
    → get k (extras (make_node src o style state acc tip)) ≡ get k (extras src)
unfolding make_node
get-make_node k src o style state acc tip h =
    let (p, q, r, s) = names_apart k h in
    get-set_present k "tooltip" tip _ s
    ∙ get-set_present k "accessibility" acc _ r
    ∙ get-set_present k "state" state _ q
    ∙ get-set_present k "style" style _ p
    ∙ get-non_facet k (extras src) h

merge3_fuel-keeps :
    (core : Core) (res : Resolution) (mc : MoveCtx) (f : ℕ) (base : Node) (a b : Option Node)
    (k : String)
    → is_facet_extra k ≡ false
    → get k (extras (merge3_fuel core res mc f base a b).1) ≡ get k (extras base)
unfolding merge3_fuel merge_step
merge3_fuel-keeps core res mc zero base a b k h = refl
merge3_fuel-keeps core res mc (suc f) base a b k h = get-make_node k base _ _ _ _ _ h

conclude-merged :
    (cs : List Conflict) (u t : Node) (rs : List Conflict)
    → conclude cs (merged u []) ≡ merged t rs
    → u ≡ t
unfolding conclude
conclude-merged [] u t rs h = cc
conclude-merged (c ∷ cs) u t rs h = cc

-- A member of the root's envelope that is no facet, such as its motion, has the value of the base in
-- every tree that the merge gives, also where a branch has changed it: the edit is dropped, and the
-- merge says that it is clean.
pub merge_3way-drops :
    (core : Core) (base a b t : Node) (rs : List Conflict) (k : String)
    → merge_3way core base a b ≡ merged t rs
    → is_facet_extra k ≡ false
    → get k (extras t) ≡ get k (extras base)
unfolding merge_3way merge_whole merge3
merge_3way-drops core base a b t rs k h p =
    let same : (merge_whole core agnostic base a b).1 ≡ t = conclude-merged _ _ t rs h in
    rw (← same) (
      merge3_fuel-keeps core agnostic (new_move_ctx base a b) (node_size base) base (some a)
        (some b) k p)
