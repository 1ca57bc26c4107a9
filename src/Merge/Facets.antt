-- ===== src/Merge/Facets.antt =====
-- merge/merge.go: the facets of a node and the projections by which they are compared.
use fuaran_go.Prelude.{String, Bool, ◌||◌, List, [], Option, none, some, str_eq, map, if◌then◌else◌}
use fuaran_go.Wire.Core.{Core}
use fuaran_go.Wire.Value.{
  Value, str, arr, obj, node, Obj, tagged, Fields, end, field, Node, envelope, tag, fields, id,
  kind, extras, from_list, get, set, as_arr, as_obj, as_str, nodes_in,
}
use fuaran_go.Wire.Encode.{Encoded, encode_node}
use fuaran_go.Merge.Refusal.{Merged, Resolution, pick_field, ◌>>=◌}

abbrev pub is_facet_extra : String → Bool
is_facet_extra k =
    str_eq k "style" || str_eq k "state" || str_eq k "accessibility" || str_eq k "tooltip"

-- the members that this merge does not control
unfoldable pub non_facet : Fields → Fields
non_facet end = end
non_facet (field k v fs) =
    let rest = non_facet fs in if is_facet_extra k then rest else field k v rest

abbrev non_facet_extras : Node → Fields
non_facet_extras n = non_facet (extras n)

abbrev pub nodes_or_none : Option (List Value) → List Node
nodes_or_none none = []
nodes_or_none (some vs) = nodes_in vs

unfoldable pub children_of : Node → List Node
children_of n = nodes_or_none (as_arr (get "children" (fields (kind n))))

unfoldable pub with_kind_children : Obj → List Node → Obj
with_kind_children k children = elim (as_arr (get "children" (fields k))) [
  | none ↦ k
  | some vs ↦ tagged (tag k) (set "children" (arr (from_list (map node children))) (fields k))
]

unfoldable pub childless_kind : Obj → Obj
unfolding with_kind_children
childless_kind k = with_kind_children k []

abbrev pub set_present : String → Option Value → Fields → Fields
set_present k none fs = fs
set_present k (some v) fs = set k v fs

unfoldable pub make_node :
    Node → Obj → Option Value → Option Value → Option Value → Option Value → Node
make_node src k style state acc tip = envelope (id src) k (
    set_present "tooltip" tip (
      set_present "accessibility" acc
        (set_present "state" state (set_present "style" style (non_facet_extras src)))))

-- the projections whose canonical bytes are compared
module _ (core : Core) where
  unfoldable pub kind_canonical : Node → Encoded
  unfolding make_node
  kind_canonical n = encode_node core (make_node n (childless_kind (kind n)) none none none none)

  unfoldable pub state_canonical : Obj → Node → Encoded
  unfolding make_node
  state_canonical shell n =
      encode_node core (make_node n shell none (get "state" (extras n)) none none)

  unfoldable pub accessibility_canonical : Obj → Node → Encoded
  unfolding make_node
  accessibility_canonical shell n =
      encode_node core (make_node n shell none none (get "accessibility" (extras n)) none)

  unfoldable pub tooltip_canonical : Obj → Node → Encoded
  unfolding make_node
  tooltip_canonical shell n =
      encode_node core (make_node n shell none none none (get "tooltip" (extras n)))

abbrev style_default : String → Option String
style_default name =
    if str_eq name "emphasis"
    then some "Normal"
    else if str_eq name "tone"
    then some "Default"
    else if str_eq name "weight"
    then some "Standard"
    else none

abbrev style_member : Option Obj → String → Option String
style_member none name = none
style_member (some o) name = as_str (get name (fields o))

abbrev or_else : Option String → Option String → Option String
or_else none d = d
or_else (some s) d = some s

unfoldable pub style_field : Node → String → Option String
style_field n name =
    or_else (style_member (as_obj (get "style" (extras n))) name) (style_default name)

unfoldable pub style_field_or : Node → String → String → Option String
unfolding style_field
style_field_or n name d = or_else (style_field n name) (some d)

-- a member is written only where it is not its default; an empty text stands for an absent one
abbrev put_named : String → Option String → String → Fields → Fields
put_named name none d fs = fs
put_named name (some s) d fs = if str_eq s "" || str_eq s d then fs else set name (str s) fs

abbrev put_pointed : String → Option String → String → Fields → Fields
put_pointed name none d fs = fs
put_pointed name (some s) d fs = if str_eq s d then fs else set name (str s) fs

unfoldable pub style_of_fields : Fields → Option Value
style_of_fields end = none
style_of_fields (field k v fs) = some (obj (tagged "" (field k v fs)))

module _ (res : Resolution) (node_id : String) (base a b : Node) where
  unfoldable pub merge_member : String → String → Merged (Option String)
  unfolding style_field
  merge_member facet name =
      pick_field res node_id facet (style_field base name) (style_field a name) (style_field b name)

  unfoldable pub merge_direction : Merged (Option String)
  unfolding style_field_or
  merge_direction =
      pick_field res node_id "style.direction" (style_field_or base "direction" "auto")
        (style_field_or a "direction" "auto") (style_field_or b "direction" "auto")

  unfoldable pub merge_style : Merged (Option Value)
  unfolding merge_member merge_direction style_of_fields
  merge_style = do
    tone ← merge_member "style.tone" "tone"
    weight ← merge_member "style.weight" "weight"
    emphasis ← merge_member "style.emphasis" "emphasis"
    role ← merge_member "style.role" "role"
    voice ← merge_member "style.voice" "voice"
    direction ← merge_direction
    (
      [],
      style_of_fields (
          put_pointed "direction" direction "auto" (
            put_pointed "voice" voice "Default" (
              put_pointed "role" role "None" (
                put_named "weight" weight "Standard" (
                  put_named "tone" tone "Default" (put_named "emphasis" emphasis "Normal" end)))))),
    )
