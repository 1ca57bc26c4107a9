-- ===== src/Idl/Facts.antt =====
-- What the generated tables give the tree walk: a kind with an ordered child list has no
-- single-node arm and is no Switch, and the arms of a kind are distinct and none is `cases`.
use fuaran_go.Prelude.{
  String, ◌≡◌, refl, List, [], ◌∷◌, Bool, true, false, not, ◌&&◌, ◌||◌, Option, none, some, str_eq,
  arith, Bool-cases, Option-cases, inl, inr, eq_iff, &&-true,
}
use fuaran_go.Idl.Types.{Kind}
use fuaran_go.Idl.Kinds.{kinds}
use fuaran_go.Idl.Lookup.{
  find_kind, kind_by_tag, node_list_slot, ordered_children, node_slots, node_arms,
}

abbrev pub contains : String → List String → Bool
contains k [] = false
contains k (j ∷ js) = str_eq j k || contains k js

-- no name is in the list twice
abbrev pub distinct : List String → Bool
distinct [] = true
distinct (k ∷ ks) = not (contains k ks) && distinct ks

abbrev is_empty : List String → Bool
is_empty [] = true
is_empty (k ∷ ks) = false

abbrev no_slot : Option String → Bool
no_slot none = true
no_slot (some s) = false

abbrev kind_ok : Kind → Bool
kind_ok k =
    distinct ("cases" ∷ node_slots k.fields)
    && (no_slot (node_list_slot k.fields)
        || (is_empty (node_slots k.fields) && not (str_eq k.tag "Switch")))

abbrev all_ok : List Kind → Bool
all_ok [] = true
all_ok (k ∷ ks) = kind_ok k && all_ok ks

kinds_ok : all_ok kinds ≡ true
unfolding kinds node_slots node_list_slot
kinds_ok = refl

find_kind-ok :
    (t : String) (ks : List Kind) (k : Kind)
    → all_ok ks ≡ true
    → find_kind t ks ≡ some k
    → (kind_ok k ≡ true) × (str_eq k.tag t ≡ true)
unfolding find_kind
find_kind-ok t [] k h e = cc
find_kind-ok t (j ∷ ks) k h e = elim (Bool-cases (str_eq j.tag t)) [
  | inl same ↦ ground arith
  | inr other ↦ find_kind-ok t ks k (ground arith) (rw other at e)
]

kind_by_tag-ok :
    (t : String) (k : Kind) → kind_by_tag t ≡ some k → (kind_ok k ≡ true) × (str_eq k.tag t ≡ true)
unfolding kind_by_tag
kind_by_tag-ok t k e = find_kind-ok t kinds k kinds_ok e

-- The arms of any kind are distinct, and none is `cases`.
pub node_arms-distinct : (t : String) → distinct ("cases" ∷ node_arms t) ≡ true
unfolding node_arms
node_arms-distinct t = elim (Option-cases (kind_by_tag t)) [
  | inl e ↦ rw e
  | inr (k, e) ↦ rw e (&&-true _ _ (kind_by_tag-ok t k e).0).0
]

-- A kind with an ordered child list holds no other node slot.
pub ordered_children-excludes :
    (t : String) (slot : String)
    → ordered_children t ≡ some slot
    → (node_arms t ≡ []) × (str_eq t "Switch" ≡ false)
unfolding ordered_children node_arms
ordered_children-excludes t slot h = elim (Option-cases (kind_by_tag t)) [
  | inl e ↦ cc (rw e at h)
  | inr (k, e) ↦ rw e (excludes k (kind_by_tag-ok t k e).0 (kind_by_tag-ok t k e).1 (rw e at h))
]
  where
    excludes :
        (k : Kind)
        → kind_ok k ≡ true
        → str_eq k.tag t ≡ true
        → node_list_slot k.fields ≡ some slot
        → (node_slots k.fields ≡ []) × (str_eq t "Switch" ≡ false)
    excludes k good same found = ground (arith, eq_iff k.tag t)
