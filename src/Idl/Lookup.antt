-- ===== src/Idl/Lookup.antt =====
-- wire/idl/lookup.go: the lookups over the generated rows.
use fuaran_go.Prelude.{String, List, [], ◌∷◌, not, ◌&&◌, Option, none, some, str_eq, if◌then◌else◌}
use fuaran_go.Idl.Types.{Field, Kind, Record, is_node, is_node_list, is_host_only}
use fuaran_go.Idl.Kinds.{kinds}
use fuaran_go.Idl.Records.{
  record_column_erased, record_form_field, record_semantic_style, record_tab_header,
}

unfoldable pub find_kind : String → List Kind → Option Kind
find_kind t [] = none
find_kind t (k ∷ ks) = if str_eq k.tag t then some k else find_kind t ks

unfoldable pub kind_by_tag : String → Option Kind
kind_by_tag t = find_kind t kinds

unfoldable pub field_in : List Field → String → Option Field
field_in [] n = none
field_in (f ∷ fs) n = if str_eq f.name n then some f else field_in fs n

find_record : String → List Record → Option Record
find_record n [] = none
find_record n (r ∷ rs) = if str_eq r.name n then some r else find_record n rs

-- the rows that an applied edit reads
unfoldable pub record_by_name : String → Option Record
unfolding find_record
record_by_name n =
    find_record n
      (record_column_erased ∷ record_form_field ∷ record_semantic_style ∷ record_tab_header ∷ [])

-- the first list-of-nodes slot of a field table
unfoldable pub node_list_slot : List Field → Option String
node_list_slot [] = none
node_list_slot (f ∷ fs) =
    if not (is_host_only f.optionality) && is_node_list f.type
    then some f.name
    else node_list_slot fs

abbrev pub kind_slot : Option Kind → Option String
kind_slot none = none
kind_slot (some k) = node_list_slot k.fields

unfoldable pub ordered_children : String → Option String
ordered_children t = kind_slot (kind_by_tag t)

-- the single-node slots of a field table, in order
unfoldable pub node_slots : List Field → List String
node_slots [] = []
node_slots (f ∷ fs) =
    let rest = node_slots fs in
    if not (is_host_only f.optionality) && is_node f.type then f.name ∷ rest else rest

abbrev pub kind_arms : Option Kind → List String
kind_arms none = []
kind_arms (some k) = node_slots k.fields

unfoldable pub node_arms : String → List String
node_arms t = kind_arms (kind_by_tag t)
