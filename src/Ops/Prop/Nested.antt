-- ===== src/Ops/Prop/Nested.antt =====
-- ops/prop.go: the nested legs of an UpdateProp path.
use fuaran_go.Prelude.{
  ℕ, String, List, [], ◌∷◌, Bool, false, not, ◌||◌, Option, none, some, str_eq, ltb, if◌then◌else◌,
  length, get_elem?, set as set_elem,
}
use fuaran_go.Prelude.Int.{ℤ, pos, negsuc}
use fuaran_go.Wire.Core.{Core, Bytes, codes, bytes_eq}
use fuaran_go.Wire.Value.{Value, arr, obj, Obj, tagged, tag, fields, get, from_list, as_arr, as_obj}
use fuaran_go.Idl.Types.{Field, IdlType, idl_type, t_list, t_record, elem}
use fuaran_go.Idl.Lookup.{kind_by_tag, field_in, record_by_name}
use fuaran_go.Ops.Traverse.{elements}
use fuaran_go.Ops.Prop.Tables.{
  Coercer, text, cell_format, column_width, text_source, binding_bool, boolean,
}
use fuaran_go.Ops.Prop.Coerce.{coerce}
use fuaran_go.Ops.Prop.Store.{kind_row, store_member, with_kind_field}
use fuaran_go.Ops.Prop.Path.{PathSeg}

-- `index_panic` is Go's run-time panic for an index outside the slice.
pub data NestedOutcome : Type 0 where
  updated : Obj → NestedOutcome
  field_not_found missing_index index_out_of_range not_supported type_mismatch : NestedOutcome
  index_panic : NestedOutcome

pub record NestedLeaf : Type 0 where
  pub name : String
  pub wire_key : String
  pub coercer : Coercer

pub record NestedList : Type 0 where
  pub name : String
  pub wire_key : String
  pub leaves : List NestedLeaf
  pub closure_leaves : List String

abbrev leaf : String → String → Coercer → NestedLeaf
leaf n k c = record { name = n; wire_key = k; coercer = c }

abbrev pub nested_lists : String → Option NestedList
nested_lists t =
    if str_eq t "DataGrid"
    then some (record {
      name = "Columns";
      wire_key = "columns";
      leaves =
          leaf "Label" "label" text
          ∷ leaf "Format" "format" cell_format
          ∷ leaf "Width" "width" column_width
          ∷ [];
      closure_leaves = "Value" ∷ "Kind" ∷ [];
    })
    else if str_eq t "Tabs"
    then some (record {
      name = "TabHeaders";
      wire_key = "tabHeaders";
      leaves =
          leaf "Label" "label" text_source
          ∷ leaf "Icon" "icon" text
          ∷ leaf "Disabled" "disabled" binding_bool
          ∷ [];
      closure_leaves = [];
    })
    else if str_eq t "Form"
    then some (record {
      name = "Fields";
      wire_key = "fields";
      leaves =
          leaf "Label" "label" text_source
          ∷ leaf "Required" "required" boolean
          ∷ leaf "Help" "help" text_source
          ∷ [];
      closure_leaves = "Id" ∷ "Kind" ∷ [];
    })
    else none

-- the record that a list holds, if it holds one
abbrev record_in : IdlType → Option String
record_in (idl_type t_list n a (elem (idl_type t_record r b e w)) v) = some r
record_in _ = none

abbrev element_record : Option Field → Option String
element_record none = none
element_record (some f) = record_in f.type

abbrev nested_leaf_row : String → String → String → Option Field
nested_leaf_row kind_tag list_key leaf_key =
    elim (element_record (kind_row (kind_by_tag kind_tag) list_key)) [
      | none ↦ none
      | some r ↦ elim (record_by_name r) [ none ↦ none | some rec ↦ field_in rec.fields leaf_key ]
    ]

abbrev pub names_field : Bytes → String → Bool
names_field f name = bytes_eq f (codes name)

abbrev pub is_closure_leaf : Bytes → List String → Bool
is_closure_leaf f [] = false
is_closure_leaf f (c ∷ cs) = names_field f c || is_closure_leaf f cs

abbrev pub find_leaf : Bytes → List NestedLeaf → Option NestedLeaf
find_leaf f [] = none
find_leaf f (l ∷ ls) = if names_field f l.name then some l else find_leaf f ls

-- `index >= len(items)` for a signed index
abbrev pub out_of_range : ℤ → ℕ → Bool
out_of_range (pos i) n = not (ltb i n)
out_of_range (negsuc i) n = false

-- `items[index]`
abbrev pub element_at : ℤ → List Value → Option Value
element_at (pos i) items = get_elem? items i
element_at (negsuc i) items = none

abbrev pub with_element : ℤ → Value → List Value → List Value
with_element (pos i) v items = set_elem items i v
with_element (negsuc i) v items = items

module _ (core : Core) where
  abbrev pub coerced_or : Option Value → (Value → NestedOutcome) → NestedOutcome
  coerced_or none put = type_mismatch
  coerced_or (some v) put = put v

  -- a write through an index outside the slice panics
  abbrev pub write_element : Obj → String → ℤ → List Value → Value → NestedOutcome
  write_element kind key i items v = elim (element_at i items) [
    | none ↦ index_panic
    | some old ↦ updated (with_kind_field core kind key (arr (from_list (with_element i v items))))
  ]

  abbrev pub chart_write : PathSeg → List PathSeg → List Value → Value → Obj → NestedOutcome
  chart_write head [] items v kind =
      coerced_or (coerce core text v) (write_element kind "yFields" head.index items)
  chart_write head (s ∷ ss) items v kind = not_supported

  unfoldable pub chart_leg : PathSeg → List PathSeg → Value → Obj → NestedOutcome
  chart_leg head rest v kind =
      let items = elements (as_arr (get "yFields" (fields kind))) in
      if not (names_field head.field "YFields")
      then field_not_found
      else if not head.has_index
      then missing_index
      else if out_of_range head.index (length items)
      then index_out_of_range
      else chart_write head rest items v kind

  unfoldable pub record_write :
      NestedList → NestedLeaf → PathSeg → List Value → Value → Obj → NestedOutcome
  record_write entry l head items v kind = elim (element_at head.index items) [
    | none ↦ index_panic
    | some old ↦ elim (as_obj (some old)) [
      | none ↦ not_supported
      | some o ↦ write_element kind entry.wire_key head.index items (
          obj (
            tagged (tag o) (
              store_member core (fields o) l.wire_key v
                (nested_leaf_row (tag kind) entry.wire_key l.wire_key))))
    ]
  ]

  unfoldable pub leaf_leg :
      NestedList → PathSeg → List PathSeg → List Value → Value → Obj → NestedOutcome
  unfolding record_write
  leaf_leg entry head (s ∷ []) items v kind =
      if s.has_index
      then not_supported
      else if is_closure_leaf s.field entry.closure_leaves
      then not_supported
      else elim (find_leaf s.field entry.leaves) [
        | none ↦ field_not_found
        | some l ↦
            coerced_or (coerce core l.coercer v) (λ w. record_write entry l head items w kind)
      ]
  leaf_leg entry head _ items v kind = not_supported

  unfoldable pub record_leg : NestedList → PathSeg → List PathSeg → Value → Obj → NestedOutcome
  unfolding leaf_leg
  record_leg entry head rest v kind =
      let items = elements (as_arr (get entry.wire_key (fields kind))) in
      if not (names_field head.field entry.name)
      then field_not_found
      else if not head.has_index
      then missing_index
      else if out_of_range head.index (length items)
      then index_out_of_range
      else leaf_leg entry head rest items v kind

  unfoldable pub update_nested : PathSeg → List PathSeg → Value → Obj → NestedOutcome
  unfolding chart_leg record_leg
  update_nested head rest v kind =
      if str_eq (tag kind) "Chart"
      then chart_leg head rest v kind
      else elim (nested_lists (tag kind)) [
        | none ↦ not_supported
        | some entry ↦ record_leg entry head rest v kind
      ]
