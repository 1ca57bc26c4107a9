-- ===== src/Ops/Apply/Rewrite.antt =====
-- ops/apply.go: the ops that rewrite one node in its place.
use fuaran_go.Prelude.{String, Bool, false, Option, none, some, str_eq, if◌then◌else◌}
use fuaran_go.Wire.Core.{Core}
use fuaran_go.Wire.Value.{
  Value, str, obj, Obj, tagged, Fields, end, field, Node, envelope, fields, id, kind, extras, get,
  set_all, as_str, as_obj,
}
use fuaran_go.Ops.Traverse.{set_extra, drop_extra, find_node, map_node}
use fuaran_go.Ops.Prop.Store.{replace_binding_slot}
use fuaran_go.Ops.Apply.{
  Outcome, refused, or_not_found, tree_or_zero, node_not_found, slot_not_found, kind_mismatch,
}

abbrev pub with_kind : Obj → Node → Node
with_kind k n = envelope (id n) k (extras n)

-- wire/decode.go StyleIdentity: the identity token of each style member
abbrev pub style_identity : String → String
style_identity k =
    if str_eq k "emphasis"
    then "Normal"
    else if str_eq k "tone"
    then "Default"
    else if str_eq k "weight"
    then "Standard"
    else if str_eq k "role"
    then "None"
    else if str_eq k "voice"
    then "Default"
    else if str_eq k "direction"
    then "auto"
    else ""

abbrev pub is_identity : String → Value → Bool
is_identity k (str s) = str_eq s (style_identity k)
is_identity k _ = false

-- the members that are not at their identity
unfoldable pub kept_members : Fields → Fields
kept_members end = end
kept_members (field k v fs) =
    let rest = kept_members fs in if is_identity k v then rest else field k v rest

abbrev pub store_kept : Node → Fields → Node
store_kept n end = drop_extra n "style"
store_kept n (field k v fs) = set_extra n "style" (obj (tagged "" (field k v fs)))

unfoldable pub store_style : Node → Fields → Node
unfolding kept_members
store_style n members = store_kept n (kept_members members)

abbrev pub fields_of : Option Obj → Fields
fields_of none = end
fields_of (some o) = fields o

unfoldable pub patch_style : Fields → Node → Node
unfolding store_style
patch_style delta n = store_style n (set_all (fields_of (as_obj (get "style" (extras n)))) delta)

unfoldable pub edit_node : Fields → Node → Outcome
edit_node fs root = elim (as_obj (get "newKind" fs)) [
  | none ↦ refused root kind_mismatch
  | some k ↦ elim (as_str (get "target" fs)) [
    | none ↦ refused root kind_mismatch
    | some target ↦ or_not_found root (map_node target (with_kind k) root)
  ]
]

unfoldable pub replace_binding : Core → Fields → Node → Outcome
replace_binding core fs root = elim (as_str (get "target" fs)) [
  | none ↦ refused root kind_mismatch
  | some target ↦ elim (as_str (get "slot" fs)) [
    | none ↦ refused root kind_mismatch
    | some slot ↦ elim (get "binding" fs) [
      | none ↦ refused root kind_mismatch
      | some binding ↦ elim (find_node target root) [
        | none ↦ refused root node_not_found
        | some n ↦ elim (replace_binding_slot core slot binding (kind n)) [
          | none ↦ refused root slot_not_found
          | some k ↦ tree_or_zero (map_node target (with_kind k) root)
        ]
      ]
    ]
  ]
]

unfoldable pub update_style : Fields → Node → Outcome
update_style fs root = elim (as_str (get "target" fs)) [
  | none ↦ refused root kind_mismatch
  | some target ↦ elim (as_obj (get "style" fs)) [
    | none ↦ refused root kind_mismatch
    | some style ↦ or_not_found root (map_node target (λ n. store_style n (fields style)) root)
  ]
]

unfoldable pub patch_style_op : Fields → Node → Outcome
patch_style_op fs root = elim (as_str (get "target" fs)) [
  | none ↦ refused root kind_mismatch
  | some target ↦ elim (as_obj (get "style" fs)) [
    | none ↦ refused root kind_mismatch
    | some delta ↦ or_not_found root (map_node target (patch_style (fields delta)) root)
  ]
]

unfoldable pub update_state : Fields → Node → Outcome
update_state fs root = elim (as_str (get "target" fs)) [
  | none ↦ refused root kind_mismatch
  | some target ↦ elim (get "state" fs) [
    | none ↦ refused root kind_mismatch
    | some state ↦ or_not_found root (map_node target (λ n. set_extra n "state" state) root)
  ]
]

abbrev pub with_accessibility : Obj → Node → Node
with_accessibility (tagged t end) n = drop_extra n "accessibility"
with_accessibility (tagged t (field k v fs)) n =
    set_extra n "accessibility" (obj (tagged t (field k v fs)))

unfoldable pub update_accessibility : Fields → Node → Outcome
update_accessibility fs root = elim (as_str (get "target" fs)) [
  | none ↦ refused root kind_mismatch
  | some target ↦ elim (as_obj (get "accessibility" fs)) [
    | none ↦ refused root kind_mismatch
    | some a ↦ or_not_found root (map_node target (with_accessibility a) root)
  ]
]

abbrev pub with_tooltip : Option Value → Node → Node
with_tooltip none n = drop_extra n "tooltip"
with_tooltip (some v) n = set_extra n "tooltip" v

unfoldable pub update_tooltip : Fields → Node → Outcome
update_tooltip fs root = elim (as_str (get "target" fs)) [
  | none ↦ refused root kind_mismatch
  | some target ↦ or_not_found root (map_node target (with_tooltip (get "tooltip" fs)) root)
]
