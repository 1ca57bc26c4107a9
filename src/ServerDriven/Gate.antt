-- ===== src/ServerDriven/Gate.antt =====
-- serverdriven/gate.go: the capability gate. A set of strings is a list.
use Prim.Native.String.{compare}
use Prim.Native.Nat.{Ordering}
use fuaran_go.Prelude.{
  ℕ, zero, suc, String, List, [], ◌∷◌, ◌++◌, Bool, Option, none, some, str_eq, if◌then◌else◌,
}
use fuaran_go.Wire.Size.{obj_size}
use fuaran_go.Wire.Value.{Value, str, obj, Obj, tagged, Node, fields, id, kind, tag, get, as_arr}
use fuaran_go.Ops.Traverse.{contains_id, elements}
use fuaran_go.ServerDriven.Nodes.{as_envelope, walk_nodes}

pub record CapabilityGate : Type 0 where
  pub grants : List String

abbrev pub new_capability_gate : List String → CapabilityGate
new_capability_gate capabilities = record { grants = capabilities }

abbrev pub grant : String → CapabilityGate → CapabilityGate
grant capability g = record { grants = capability ∷ g.grants }

abbrev pub allows : CapabilityGate → String → Bool
allows g capability = contains_id capability g.grants

-- sort.Strings
abbrev pub insert_string : String → List String → List String
insert_string x [] = x ∷ []
insert_string x (y ∷ ys) =
    let rest = insert_string x ys in elim (compare x y) [ Ordering.gt ↦ y ∷ rest | _ ↦ x ∷ y ∷ ys ]

abbrev pub sort_strings : List String → List String
sort_strings [] = []
sort_strings (x ∷ xs) = insert_string x (sort_strings xs)

-- the elements of a list as a set
abbrev pub once_each : List String → List String
once_each [] = []
once_each (x ∷ xs) = let rest = once_each xs in if contains_id x rest then rest else x ∷ rest

-- the ungranted strings of a list, each once; `seen` is what was found before
abbrev pub missing_in : CapabilityGate → List String → List Value → List String
missing_in g seen [] = []
missing_in g seen (str i ∷ vs) =
    let skipped = missing_in g seen vs in
    let taken = missing_in g (i ∷ seen) vs in
    if allows g i then skipped else if contains_id i seen then skipped else i ∷ taken
missing_in g seen (v ∷ vs) = missing_in g seen vs

unfoldable pub missing_from : CapabilityGate → Option Value → List String
missing_from g v = sort_strings (missing_in g [] (elements (as_arr v)))

unfoldable pub decide_mount : CapabilityGate → Obj → List String
unfolding missing_from
decide_mount g mount = missing_from g (get "capabilities" (fields mount))

pub record MountDecision : Type 0 where
  pub node_id : String
  pub missing : List String

abbrev pub decisions : CapabilityGate → List Node → List MountDecision
decisions g [] = []
decisions g (n ∷ ns) =
    let rest = decisions g ns in
    if str_eq (tag (kind n)) "Mount"
    then record { node_id = id n; missing = decide_mount g (kind n) } ∷ rest
    else rest

unfoldable pub audit_mounts : CapabilityGate → Node → List MountDecision
audit_mounts g tree = decisions g (walk_nodes tree)

abbrev pub withheld : List MountDecision → List String
withheld [] = []
withheld (d ∷ ds) = d.missing ++ withheld ds

abbrev pub mounts_of : CapabilityGate → Option Node → List String
mounts_of g none = []
mounts_of g (some n) = withheld (decisions g (walk_nodes n))

abbrev pub collect : CapabilityGate → Option Value → List String
collect g none = []
collect g (some v) = mounts_of g (as_envelope v)

abbrev pub missing_of_all : (Obj → List String) → List Value → List String
missing_of_all go [] = []
missing_of_all go (obj o ∷ vs) = go o ++ missing_of_all go vs
missing_of_all go (v ∷ vs) = missing_of_all go vs

-- what the nodes that an op introduces ask for; a batch nests smaller ops
unfoldable pub op_missing_fuel : CapabilityGate → ℕ → Obj → List String
op_missing_fuel g zero op = []
op_missing_fuel g (suc f) (tagged t fs) =
    if str_eq t "Batch"
    then missing_of_all (op_missing_fuel g f) (elements (as_arr (get "ops" fs)))
    else collect g (get "child" fs) ++ collect g (get "node" fs)

unfoldable pub op_missing_capabilities : CapabilityGate → Obj → List String
unfolding op_missing_fuel
op_missing_capabilities g op = sort_strings (once_each (op_missing_fuel g (obj_size op) op))
