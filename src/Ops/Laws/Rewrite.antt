-- ===== src/Ops/Laws/Rewrite.antt =====
-- ops/apply.go: the ops that rewrite one node in its place (EditNode, UpdateState, UpdateStyle,
-- PatchStyle, UpdateAccessibility, UpdateTooltip).
use fuaran_go.Prelude.{
  inr, inl, Option-cases, ◌+◌, String, ◌≡◌, refl, sym, ap, ◌∙◌, ◌++◌, false, Option, none, some,
  str_eq, arith,
}
use fuaran_go.Wire.Value.{
  Value, obj, Obj, tagged, Fields, end, field, Node, envelope, id, kind, extras, get, set, set_all,
  delete, get-set, get-delete, as_str, as_obj,
}
use fuaran_go.Ops.Traverse.{
  find_node, map_node, all_ids, children, set_extra, drop_extra, fields_or_end, held_in, state_keys,
}
use fuaran_go.Ops.Traverse.Slots.{
  children-append, kind_children, kind_children-congr, state_children,
}
use fuaran_go.Ops.Traverse.Laws.{all_ids_lem}
use fuaran_go.Ops.Traverse.Edit.{edits, map_node-none}
use fuaran_go.Ops.Apply.Structure.{tally}
use fuaran_go.Ops.Apply.{Outcome, applied, refused, node_not_found, or_not_found}
use fuaran_go.Ops.Apply.Rewrite.{
  with_kind, store_style, store_kept, fields_of, kept_members, patch_style, with_accessibility,
  with_tooltip, edit_node, update_state,
}
use fuaran_go.Ops.Laws.Find.{one_at, tally-weigh, find_node-id}

-- What rewriting the target by `f` gives: a refusal with the tree as it was where the node is absent,
-- else a tree in which the target is the rewritten node and all other ids are as they were.
pub data Rewrites (o : Outcome) (target : String) (f : Node → Node) (root : Node) : Type 0 where
  absent : find_node target root ≡ none → o ≡ refused root node_not_found → Rewrites o target f root
  rewritten :
      (m t : Node)
      → find_node target root ≡ some m
      → o ≡ applied t
      → find_node target t ≡ some (f m)
      → ((i : String)
          → tally i (all_ids t) + tally i (all_ids m)
            ≡ tally i (all_ids root) + tally i (all_ids (f m)))
      → Rewrites o target f root

rewrites :
    (target : String) (f : Node → Node) (root : Node)
    → ((n : Node) → id (f n) ≡ id n)
    → Rewrites (or_not_found root (map_node target f root)) target f root
rewrites target f root same = elim (Option-cases (find_node target root)) [
  | inl gone ↦ absent gone (ap (or_not_found root) (map_node-none target f root gone))
  | inr (m, here) ↦
      let (t, e) = edits target f root m here in
      rewritten m t here (ap (or_not_found root) e.mapped)
        (e.finds (ap (λ i. str_eq i target) (same m) ∙ find_node-id target root m here))
        (λ i. omega (
          arith,
          e.weight (one_at i),
          tally-weigh i (all_ids t),
          tally-weigh i (all_ids root),
          tally-weigh i (all_ids m),
          tally-weigh i (all_ids (f m)),
        ))
]

-- An EditNode with a kind and a target replaces the kind of the target.
pub edit_node-Rewrites :
    (fs : Fields) (root : Node) (k : Obj) (target : String)
    → as_obj (get "newKind" fs) ≡ some k
    → as_str (get "target" fs) ≡ some target
    → Rewrites (edit_node fs root) target (with_kind k) root
unfolding edit_node
edit_node-Rewrites fs root k target h j =
    rw (h, edit_node) (rw j (rewrites target (with_kind k) root (λ n. refl)))

-- An UpdateState with a target replaces the state block of the target.
pub update_state-Rewrites :
    (fs : Fields) (root : Node) (v : Value) (target : String)
    → get "state" fs ≡ some v
    → as_str (get "target" fs) ≡ some target
    → Rewrites (update_state fs root) target (λ n. set_extra n "state" v) root
unfolding update_state set_extra
update_state-Rewrites fs root v target h j =
    rw (j, update_state) (rw h (rewrites target (λ n. set_extra n "state" v) root (λ n. refl)))

-- a rewrite that leaves the id and the sub-nodes
pub record Keeps (f : Node → Node) : Type 0 where
  pub same_id : (n : Node) → id (f n) ≡ id n
  pub same_children : (n : Node) → children (f n) ≡ children n

Keeps-all_ids : (f : Node → Node) → Keeps f → (n : Node) → all_ids (f n) ≡ all_ids n
Keeps-all_ids f k n = cc (all_ids_lem (f n), all_ids_lem n, k.same_id n, k.same_children n)

state_children-extras :
    (i : String) (k : Obj) (x y : Fields)
    → get "state" x ≡ get "state" y
    → state_children (envelope i k x) ≡ state_children (envelope i k y)
unfolding state_children
state_children-extras i k x y h = ap (λ o. held_in (fields_or_end (as_obj o)) state_keys) h

children-extras :
    (n : Node) (x : Fields)
    → get "state" x ≡ get "state" (extras n)
    → children (envelope (id n) (kind n) x) ≡ children n
children-extras (envelope i k y) x h =
    children-append (envelope i k x)
    ∙ ap (λ l. l ++ state_children (envelope i k x)) (kind_children-congr i i k x y)
    ∙ ap (λ l. kind_children (envelope i k y) ++ l) (state_children-extras i k x y h)
    ∙ sym (children-append (envelope i k y))

set_extra-children :
    (n : Node) (key : String) (v : Value)
    → str_eq key "state" ≡ false
    → children (set_extra n key v) ≡ children n
unfolding set_extra
set_extra-children n key v h =
    children-extras n (set key v (extras n)) (get-set key "state" v (extras n) ∙ rw h refl)

drop_extra-children :
    (n : Node) (key : String)
    → str_eq key "state" ≡ false
    → children (drop_extra n key) ≡ children n
unfolding drop_extra
drop_extra-children n key h =
    children-extras n (delete key (extras n)) (get-delete key "state" (extras n) ∙ rw h refl)

set_extra-id : (n : Node) (key : String) (v : Value) → id (set_extra n key v) ≡ id n
unfolding set_extra
set_extra-id n key v = refl

drop_extra-id : (n : Node) (key : String) → id (drop_extra n key) ≡ id n
unfolding drop_extra
drop_extra-id n key = refl

store_kept-Keeps : (fs : Fields) → Keeps (λ n. store_kept n fs)
store_kept-Keeps end = record {
  same_id = λ n. drop_extra-id n "style";
  same_children = λ n. drop_extra-children n "style" refl;
}
store_kept-Keeps (field k v fs) = record {
  same_id = λ n. set_extra-id n "style" (obj (tagged "" (field k v fs)));
  same_children = λ n. set_extra-children n "style" (obj (tagged "" (field k v fs))) refl;
}

pub store_style-Keeps : (fs : Fields) → Keeps (λ n. store_style n fs)
unfolding store_style
store_style-Keeps fs = store_kept-Keeps (kept_members fs)

pub patch_style-Keeps : (delta : Fields) → Keeps (patch_style delta)
unfolding patch_style
patch_style-Keeps delta = record {
  same_id = λ n.
      (store_style-Keeps (set_all (fields_of (as_obj (get "style" (extras n)))) delta)).same_id n;
  same_children = λ n.
      (store_style-Keeps
          (set_all (fields_of (as_obj (get "style" (extras n)))) delta)).same_children
        n;
}

pub with_accessibility-Keeps : (a : Obj) → Keeps (with_accessibility a)
with_accessibility-Keeps (tagged t end) = record {
  same_id = λ n. drop_extra-id n "accessibility";
  same_children = λ n. drop_extra-children n "accessibility" refl;
}
with_accessibility-Keeps (tagged t (field k v fs)) = record {
  same_id = λ n. set_extra-id n "accessibility" (obj (tagged t (field k v fs)));
  same_children = λ n. set_extra-children n "accessibility" (obj (tagged t (field k v fs))) refl;
}

pub with_tooltip-Keeps : (o : Option Value) → Keeps (with_tooltip o)
with_tooltip-Keeps none = record {
  same_id = λ n. drop_extra-id n "tooltip";
  same_children = λ n. drop_extra-children n "tooltip" refl;
}
with_tooltip-Keeps (some v) = record {
  same_id = λ n. set_extra-id n "tooltip" v;
  same_children = λ n. set_extra-children n "tooltip" v refl;
}

-- As `Rewrites`, and every id is held as often as before.
pub data Restyles (o : Outcome) (target : String) (f : Node → Node) (root : Node) : Type 0 where
  unknown :
      find_node target root ≡ none → o ≡ refused root node_not_found → Restyles o target f root
  restyled :
      (m t : Node)
      → find_node target root ≡ some m
      → o ≡ applied t
      → find_node target t ≡ some (f m)
      → ((i : String) → tally i (all_ids t) ≡ tally i (all_ids root))
      → Restyles o target f root

from_Rewrites :
    (o : Outcome) (target : String) (f : Node → Node) (root : Node)
    → Keeps f
    → Rewrites o target f root
    → Restyles o target f root
from_Rewrites o target f root k (absent gone e) = unknown gone e
from_Rewrites o target f root k (rewritten m t here e found ids) =
    restyled m t here e found (λ i. omega (arith, ids i, ap (tally i) (Keeps-all_ids f k m)))

pub restyles :
    (target : String) (f : Node → Node) (root : Node)
    → Keeps f
    → Restyles (or_not_found root (map_node target f root)) target f root
restyles target f root k = from_Rewrites _ target f root k (rewrites target f root k.same_id)
