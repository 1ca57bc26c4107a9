-- ===== src/ServerDriven/Nodes.antt =====
-- serverdriven/driver.go: the sub-nodes that the driver sees, typed or as raw objects.
use fuaran_go.Prelude.{String, List, [], ◌∷◌, ◌++◌, Option, none, some, str_eq, if◌then◌else◌}
use fuaran_go.Wire.Value.{
  Value, obj, node, Obj, tagged, Fields, end, field, Node, envelope, fields, id, kind, get, as_str,
  as_arr, as_obj,
}
use fuaran_go.Ops.Traverse.{elements, state_fields, over}

-- the members of an object under the keys, in their order
abbrev pub members : Fields → List String → Fields
members fs [] = end
members fs (k ∷ ks) = elim (get k fs) [ none ↦ members fs ks | some v ↦ field k v (members fs ks) ]

abbrev pub trait_keys : List String
trait_keys = "state" ∷ "style" ∷ "accessibility" ∷ []

abbrev pub raw_node : Option String → Option Obj → Fields → Option Node
raw_node (some i) (some k) fs = some (envelope i k (members fs trait_keys))
raw_node _ _ fs = none

-- asNode
abbrev pub as_envelope : Value → Option Node
as_envelope (node n) = some n
as_envelope (obj (tagged t fs)) = raw_node (as_str (get "id" fs)) (as_obj (get "kind" fs)) fs
as_envelope _ = none

abbrev pub envelopes : List Value → List Node
envelopes [] = []
envelopes (v ∷ vs) = elim (as_envelope v) [ none ↦ envelopes vs | some n ↦ n ∷ envelopes vs ]

abbrev pub envelope_at : Option Value → List Node
envelope_at none = []
envelope_at (some v) = envelopes (v ∷ [])

abbrev pub envelopes_at : Fields → List String → List Node
envelopes_at fs [] = []
envelopes_at fs (k ∷ ks) = envelope_at (get k fs) ++ envelopes_at fs ks

abbrev pub case_envelope : Value → List Node
case_envelope (obj (tagged t fs)) = envelope_at (get "child" fs)
case_envelope _ = []

abbrev pub case_envelopes : List Value → List Node
case_envelopes [] = []
case_envelopes (v ∷ vs) = case_envelope v ++ case_envelopes vs

unfoldable pub sub_nodes : Node → List Node
sub_nodes n =
    envelopes (elements (as_arr (get "children" (fields (kind n)))))
    ++ envelopes_at (fields (kind n)) ("child" ∷ "fallback" ∷ "default" ∷ "body" ∷ [])
    ++ case_envelopes (elements (as_arr (get "cases" (fields (kind n)))))
    ++ envelopes_at (state_fields n) ("onLoading" ∷ "onEmpty" ∷ [])

abbrev pub first_of : (Node → Option Node) → List Node → Option Node
first_of go [] = none
first_of go (n ∷ ns) = elim (go n) [ some m ↦ some m | none ↦ first_of go ns ]

abbrev pub locate_step : String → (Node → Option Node) → Node → Option Node
locate_step target go n = if str_eq (id n) target then some n else first_of go (sub_nodes n)

-- findNode of the driver
unfoldable pub locate : String → Node → Option Node
unfolding over
locate target = over (locate_step target) none

abbrev pub all_of : (Node → List Node) → List Node → List Node
all_of go [] = []
all_of go (n ∷ ns) = go n ++ all_of go ns

abbrev pub visit_step : (Node → List Node) → Node → List Node
visit_step go n = n ∷ all_of go (sub_nodes n)

-- walkNodes: the visited nodes, in document order
unfoldable pub walk_nodes : Node → List Node
unfolding over
walk_nodes = over visit_step []
