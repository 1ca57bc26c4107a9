-- ===== src/ServerDriven/Fuel.antt =====
-- serverdriven/driver.go: the walks of the driver end, since a sub-node is smaller than its node.
use fuaran_go.Prelude.{
  ℕ, suc, ◌+◌, ◌≤◌, ◌<◌, String, ◌≡◌, refl, sym, ap, ◌∙◌, subst, List, [], ◌∷◌, ◌++◌, false, Option,
  none, some, str_eq, All, All-append, All-imp, arith, Option-cases, Bool-cases, inl, inr, eq_iff,
}
use fuaran_go.Wire.Size.{value_size, values_size, obj_size, fields_size, node_size, get-lt}
use fuaran_go.Wire.Value.{
  Value, str, int, float, bool, null, arr, obj, node, Values, nil, cons, Obj, tagged, Fields, end,
  field, Node, envelope, fields, kind, get, delete, get-delete, as_str, as_arr, as_obj, to_list,
}
use fuaran_go.Ops.Traverse.{elements, state_fields, contains_id}
use fuaran_go.Ops.Traverse.Walk.{node_size-parts, state_fields-le}
use fuaran_go.ServerDriven.Nodes.{
  members, trait_keys, raw_node, as_envelope, envelopes, envelope_at, envelopes_at, case_envelope,
  case_envelopes, sub_nodes,
}

delete-le : (k : String) (fs : Fields) → fields_size (delete k fs) ≤ fields_size fs
unfolding delete value_size
delete-le k end = omega arith
delete-le k (field j w fs) = elim (Bool-cases (str_eq j k)) [
  | inl same ↦ rw (same, delete) (omega (arith, delete-le k fs))
  | inr other ↦ rw (other, delete) (omega (arith, delete-le k fs))
]

-- a member and the rest
delete-lt :
    (k : String) (fs : Fields) (v : Value)
    → get k fs ≡ some v
    → suc (value_size v + fields_size (delete k fs)) ≤ fields_size fs
unfolding get delete value_size
delete-lt k end v h = cc
delete-lt k (field j w fs) v h = elim (Bool-cases (str_eq j k)) [
  | inl same ↦
      let e : w ≡ v = cc (rw same at h) in
      rw (same, delete) (omega (arith, delete-le k fs, ap value_size e))
  | inr other ↦ rw (other, delete) (omega (arith, delete-lt k fs v (rw other at h)))
]

members-delete :
    (k : String) (fs : Fields) (ks : List String)
    → contains_id k ks ≡ false
    → members (delete k fs) ks ≡ members fs ks
members-delete k fs [] h = refl
members-delete k fs (j ∷ ks) h = elim (Bool-cases (str_eq j k)) [
  | inl same ↦ cc (rw (same, contains_id) at h)
  | inr other ↦
      let apart : str_eq k j ≡ false = ground (arith, eq_iff k j, eq_iff j k) in
      let e : get j (delete k fs) ≡ get j fs = get-delete k j fs ∙ rw apart refl in
      let rest = members-delete k fs ks (rw (other, contains_id) at h) in
      λ i. elim (e i) [ none ↦ rest i | some v ↦ field j v (rest i) ]
]

abbrev Apart : List String → Type 0
Apart [] = Unit
Apart (k ∷ ks) = (contains_id k ks ≡ false) × Apart ks

-- different members of an object are no larger than it
members-le :
    (ks : List String) (fs : Fields) → Apart ks → fields_size (members fs ks) ≤ fields_size fs
unfolding value_size
members-le [] end a = omega arith
members-le [] (field k v fs) a = omega arith
members-le (k ∷ ks) fs (new, a) = elim (Option-cases (get k fs)) [
  | inl gone ↦ rw (gone, members) (members-le ks fs a)
  | inr (v, here) ↦
      rw (here, members)
        (omega (
          arith,
          delete-lt k fs v here,
          members-le ks (delete k fs) a,
          ap fields_size (members-delete k fs ks new),
        ))
]

raw_node-le :
    (t : String) (fs : Fields) (i : Option String) (k : Option Obj) (n : Node)
    → as_obj (get "kind" fs) ≡ k
    → raw_node i k fs ≡ some n
    → node_size n ≤ value_size (obj (tagged t fs))
unfolding value_size
raw_node-le t fs none k n e h = cc
raw_node-le t fs (some i) none n e h = cc
raw_node-le t fs (some i) (some k) n e h =
    let same : envelope i k (members fs trait_keys) ≡ n = cc in
    let (v, here, size) = held_kind (get "kind" fs) refl in
    let all = members-le ("kind" ∷ trait_keys) fs (refl, (refl, (refl, (refl, tt)))) in
    omega (arith, ap node_size same, size, all, ap fields_size here)
  where
    held_kind :
        (o : Option Value)
        → get "kind" fs ≡ o
        → (v : Value) × (members fs ("kind" ∷ trait_keys) ≡ field "kind" v (members fs trait_keys))
          × (value_size v ≡ suc (obj_size k))
    held_kind none g = cc (ap as_obj (sym g) ∙ e)
    held_kind (some (obj o)) g =
        let oo : o ≡ k = cc (ap as_obj (sym g) ∙ e) in
        (obj o, rw (g, members) refl, ap (λ x. suc (obj_size x)) oo)
    held_kind (some (str x)) g = cc (ap as_obj (sym g) ∙ e)
    held_kind (some (int x)) g = cc (ap as_obj (sym g) ∙ e)
    held_kind (some (float x)) g = cc (ap as_obj (sym g) ∙ e)
    held_kind (some (bool x)) g = cc (ap as_obj (sym g) ∙ e)
    held_kind (some null) g = cc (ap as_obj (sym g) ∙ e)
    held_kind (some (arr x)) g = cc (ap as_obj (sym g) ∙ e)
    held_kind (some (node x)) g = cc (ap as_obj (sym g) ∙ e)

as_envelope-le : (v : Value) (n : Node) → as_envelope v ≡ some n → node_size n ≤ value_size v
unfolding value_size
as_envelope-le (node m) n h = let e : m ≡ n = cc in omega (arith, ap node_size e)
as_envelope-le (obj (tagged t fs)) n h =
    raw_node-le t fs (as_str (get "id" fs)) (as_obj (get "kind" fs)) n refl h
as_envelope-le (str x) n h = cc
as_envelope-le (int x) n h = cc
as_envelope-le (float x) n h = cc
as_envelope-le (bool x) n h = cc
as_envelope-le null n h = cc
as_envelope-le (arr x) n h = cc

abbrev Below : ℕ → List Node → Type 0
Below b = All (λ n. node_size n < b)

Below-le : (a b : ℕ) (ns : List Node) → a ≤ b → Below a ns → Below b ns
Below-le a b ns h = All-imp (λ n p. omega arith) ns

envelope-Below : (v : Value) (b : ℕ) → value_size v < b → Below b (envelopes (v ∷ []))
envelope-Below v b h = elim (Option-cases (as_envelope v)) [
  | inl gone ↦ rw (gone, envelopes) tt
  | inr (n, here) ↦ rw (here, envelopes) ((omega (arith, as_envelope-le v n here), tt))
]

envelope_at-Below : (k : String) (fs : Fields) → Below (fields_size fs) (envelope_at (get k fs))
envelope_at-Below k fs = elim (Option-cases (get k fs)) [
  | inl gone ↦ rw (gone, envelope_at) tt
  | inr (v, here) ↦ rw (here, envelope_at) (envelope-Below v (fields_size fs) (get-lt k fs v here))
]

envelopes_at-Below : (ks : List String) (fs : Fields) → Below (fields_size fs) (envelopes_at fs ks)
envelopes_at-Below [] fs = tt
envelopes_at-Below (k ∷ ks) fs =
    All-append _ (envelope_at (get k fs)) (envelopes_at fs ks) (envelope_at-Below k fs)
      (envelopes_at-Below ks fs)

envelopes-Below : (vs : Values) → Below (values_size vs) (envelopes (to_list vs))
unfolding value_size
envelopes-Below nil = tt
envelopes-Below (cons v vs) =
    let rest =
      Below-le (values_size vs) (suc (value_size v + values_size vs)) (envelopes (to_list vs))
        (omega arith) (envelopes-Below vs) in
    elim (Option-cases (as_envelope v)) [
      | inl gone ↦ rw (gone, envelopes) rest
      | inr (n, here) ↦ rw (here, envelopes) ((omega (arith, as_envelope-le v n here), rest))
    ]

case_envelope-Below : (v : Value) → Below (value_size v) (case_envelope v)
unfolding value_size
case_envelope-Below (obj (tagged t fs)) =
    Below-le (fields_size fs) (suc (suc (fields_size fs))) (envelope_at (get "child" fs))
      (omega arith) (envelope_at-Below "child" fs)
case_envelope-Below (str x) = tt
case_envelope-Below (int x) = tt
case_envelope-Below (float x) = tt
case_envelope-Below (bool x) = tt
case_envelope-Below null = tt
case_envelope-Below (arr x) = tt
case_envelope-Below (node x) = tt

case_envelopes-Below : (vs : Values) → Below (values_size vs) (case_envelopes (to_list vs))
unfolding value_size
case_envelopes-Below nil = tt
case_envelopes-Below (cons v vs) =
    All-append _ (case_envelope v) (case_envelopes (to_list vs))
      (Below-le (value_size v) (suc (value_size v + values_size vs)) (case_envelope v) (omega arith)
        (case_envelope-Below v))
      (Below-le (values_size vs) (suc (value_size v + values_size vs)) (case_envelopes (to_list vs))
        (omega arith) (case_envelopes-Below vs))

-- what is read off an array of an object
in_array :
    (read : List Value → List Node)
    → (read [] ≡ [])
    → ((vs : Values) → Below (values_size vs) (read (to_list vs)))
    → (k : String) (fs : Fields) → Below (fields_size fs) (read (elements (as_arr (get k fs))))
in_array read empty each k fs = at_value (get k fs) refl
  where
    nothing : Below (fields_size fs) (read [])
    nothing = subst (Below (fields_size fs)) (sym empty) tt

    at_value :
        (o : Option Value) → get k fs ≡ o → Below (fields_size fs) (read (elements (as_arr o)))
    at_value none e = nothing
    at_value (some (arr vs)) e =
        let lt = get-lt k fs (arr vs) e in
        Below-le (values_size vs) (fields_size fs) (read (to_list vs))
          (unfold value_size in omega arith) (each vs)
    at_value (some (str x)) e = nothing
    at_value (some (int x)) e = nothing
    at_value (some (float x)) e = nothing
    at_value (some (bool x)) e = nothing
    at_value (some null) e = nothing
    at_value (some (obj x)) e = nothing
    at_value (some (node x)) e = nothing

-- Every sub-node that the driver sees is smaller than its node.
pub sub_nodes-smaller : (n : Node) → All (λ c. node_size c < node_size n) (sub_nodes n)
unfolding sub_nodes
sub_nodes-smaller n =
    let fs = fields (kind n) in
    let parts = node_size-parts n in
    let state = state_fields-le n in
    let keys : List String = "child" ∷ "fallback" ∷ "default" ∷ "body" ∷ [] in
    let cs = envelopes (elements (as_arr (get "children" fs))) in
    let arms = envelopes_at fs keys in
    let cases = case_envelopes (elements (as_arr (get "cases" fs))) in
    let states = envelopes_at (state_fields n) ("onLoading" ∷ "onEmpty" ∷ []) in
    let small = fields_size fs in
    let first =
      All-append _ cs arms
        (Below-le small (node_size n) cs (omega arith)
          (in_array envelopes refl envelopes-Below "children" fs))
        (Below-le small (node_size n) arms (omega arith) (envelopes_at-Below keys fs)) in
    let second = All-append _ (cs ++ arms) cases first (
      Below-le small (node_size n) cases (omega arith)
        (in_array case_envelopes refl case_envelopes-Below "cases" fs)) in
    All-append _ (cs ++ arms ++ cases) states second (
      Below-le (fields_size (state_fields n)) (node_size n) states (omega arith)
        (envelopes_at-Below ("onLoading" ∷ "onEmpty" ∷ []) (state_fields n)))
