-- ===== src/Ops/Laws/Relist.antt =====
-- ops/apply.go: the rewrite that the structural ops share, a layout node with another child list.
use fuaran_go.Prelude.{◌+◌, String, ◌≡◌, refl, ap, ◌∙◌, List, [], ◌∷◌, ◌++◌, some, str_eq, arith}
use fuaran_go.Wire.Value.{Node, id}
use fuaran_go.Ops.Traverse.{
  children, find_node, all_ids, map_node, layout_children, with_layout_children,
}
use fuaran_go.Ops.Traverse.Slots.{state_children, layout_children-with, layout_children-slot}
use fuaran_go.Ops.Traverse.Rebuild.{children-with_layout}
use fuaran_go.Ops.Traverse.Laws.{ids_of, all_ids_lem}
use fuaran_go.Ops.Traverse.Edit.{ids_of-append, edits}
use fuaran_go.Ops.Apply.Structure.{tally}
use fuaran_go.Ops.Apply.{tree_or_zero, applied}
use fuaran_go.Ops.Laws.Find.{one_at, tally-weigh, find_node-id}
use fuaran_go.Ops.Laws.Unique.{tally-append}
use fuaran_go.Ops.Laws.Parent.{children-layout_children}

id-with_layout_children : (n : Node) (cs : List Node) → id (with_layout_children n cs) ≡ id n
unfolding with_layout_children
id-with_layout_children n cs = refl

pub all_ids-layout :
    (n : Node) (cs : List Node) (i : String)
    → children n ≡ cs ++ state_children n
    → tally i (all_ids n)
      ≡ tally i (id n ∷ []) + tally i (ids_of cs) + tally i (ids_of (state_children n))
all_ids-layout n cs i e = omega (
  arith,
  ap (tally i) (all_ids_lem n),
  ap (λ l. tally i (ids_of l)) e,
  ap (tally i) (ids_of-append cs (state_children n)),
  tally-append i (ids_of cs) (ids_of (state_children n)),
)

-- Another child list: the ids of the old children leave and those of the new ones come.
pub tally-with_layout_children :
    (n : Node) (cs new : List Node) (i : String)
    → layout_children n ≡ some cs
    → tally i (all_ids (with_layout_children n new)) + tally i (ids_of cs)
      ≡ tally i (all_ids n) + tally i (ids_of new)
tally-with_layout_children n cs new i h =
    let (slot, s) = layout_children-slot n h in
    let m = with_layout_children n new in
    let e : children m ≡ new ++ state_children n = children-with_layout n slot new s in
    omega (
      arith,
      all_ids-layout n cs i (children-layout_children n cs h),
      ap (tally i) (all_ids_lem m),
      ap (λ l. tally i (ids_of l)) e,
      ap (tally i) (ids_of-append new (state_children n)),
      tally-append i (ids_of new) (ids_of (state_children n)),
      ap (λ j. tally i (j ∷ [])) (id-with_layout_children n new),
    )

-- `n` becomes `t` when its layout node `m`, with the children `cs`, is given the children `new`
pub record IsRelisted (target : String) (n m : Node) (cs new : List Node) (t : Node) : Type 0 where
  pub result : tree_or_zero (map_node target (λ x. with_layout_children x new) n) ≡ applied t
  pub found : find_node target t ≡ some (with_layout_children m new)
  pub listed : layout_children (with_layout_children m new) ≡ some new
  pub ids :
      (i : String)
      → tally i (all_ids t) + tally i (ids_of cs) ≡ tally i (all_ids n) + tally i (ids_of new)

pub relist :
    (target : String) (n m : Node) (cs new : List Node)
    → find_node target n ≡ some m
    → layout_children m ≡ some cs
    → (t : Node) × IsRelisted target n m cs new t
relist target n m cs new h k =
    let (slot, s) = layout_children-slot m k in
    let (t, e) = edits target (λ x. with_layout_children x new) n m h in
    (
      t,
      record {
        result = ap tree_or_zero e.mapped;
        found =
            e.finds (
              ap (λ i. str_eq i target) (id-with_layout_children m new)
              ∙ find_node-id target n m h);
        listed = layout_children-with m slot new s;
        ids = λ i. omega (
          arith,
          e.weight (one_at i),
          tally-weigh i (all_ids t),
          tally-weigh i (all_ids n),
          tally-weigh i (all_ids m),
          tally-weigh i (all_ids (with_layout_children m new)),
          tally-with_layout_children m cs new i k,
        );
      },
    )
