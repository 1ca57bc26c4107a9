-- ===== src/Ops/Prop/Store.antt =====
-- ops/prop.go: storing a member in canonical form, and the update of a member of a kind.
use fuaran_go.Prelude.{
  String, List, [], ◌∷◌, Bool, false, ◌&&◌, ◌||◌, Option, none, some, str_eq, if◌then◌else◌,
}
use fuaran_go.Wire.Core.{Core, codes, bytes_eq}
use fuaran_go.Wire.Encode.{Encoded, ok, refused, encode_value}
use fuaran_go.Wire.Value.{
  Value, obj, Obj, tagged, Fields, end, tag, fields, get, set, delete, as_obj,
}
use fuaran_go.Idl.Types.{
  Field, Kind, is_omit_default, row, plain, named, required, optional, omit_default, t_enum, t_bool,
  t_int, t_str,
}
use fuaran_go.Idl.Lookup.{kind_by_tag, field_in}
use fuaran_go.Ops.Prop.Tables.{
  FieldEntry, settable, not_supported, Table, prop_fields, text_source, orientation, boolean,
  integer, text,
}
use fuaran_go.Ops.Prop.Coerce.{coerce}

pub data FieldOutcome : Type 0 where
  updated : Obj → FieldOutcome
  unknown_field unsupported type_mismatch : FieldOutcome

abbrev pub kind_row : Option Kind → String → Option Field
kind_row none key = none
kind_row (some k) key = field_in k.fields key

abbrev find_entry : String → Table → Option FieldEntry
find_entry f [] = none
find_entry f ((g, e) ∷ es) = if str_eq g f then some e else find_entry f es

abbrev find_table : String → List (String × Table) → Option Table
find_table t [] = none
find_table t ((k, es) ∷ ts) = if str_eq k t then some es else find_table t ts

-- the rows of the BoxLayout union, by case
abbrev box_layout_fields : String → List Field
box_layout_fields t =
    if str_eq t "Flex"
    then row "direction" required "" (named t_enum "Orientation")
      ∷ row "wrap" omit_default "false" (plain t_bool)
      ∷ row "gap" optional "" (plain t_int)
      ∷ []
    else if str_eq t "Grid"
    then row "cols" required "" (plain t_int)
      ∷ row "templateColumns" optional "" (plain t_str)
      ∷ row "gap" optional "" (plain t_int)
      ∷ []
    else if str_eq t "Masonry"
    then row "cols" required "" (plain t_int) ∷ row "gap" optional "" (plain t_int) ∷ []
    else []

abbrev obj_or_empty : Option Obj → Obj
obj_or_empty none = tagged "" end
obj_or_empty (some o) = o

module _ (core : Core) where
  abbrev is_default : Encoded → String → Bool
  is_default (ok b) d = bytes_eq b (codes d)
  is_default (refused r) d = false

  -- a member at its default is stored as the absent member
  unfoldable pub store_member : Fields → String → Value → Option Field → Fields
  store_member fs key v none = set key v fs
  store_member fs key v (some r) =
      if is_omit_default r.optionality && is_default (encode_value core v) r.default
      then delete key fs
      else set key v fs

  unfoldable pub with_kind_field : Obj → String → Value → Obj
  with_kind_field k key v =
      tagged (tag k) (store_member (fields k) key v (kind_row (kind_by_tag (tag k)) key))

  with_layout_field : Obj → Obj → String → Value → FieldOutcome
  with_layout_field kind layout camel v = updated (
      with_kind_field kind "layout" (
        obj (
          tagged (tag layout) (
            store_member (fields layout) camel v
              (field_in (box_layout_fields (tag layout)) camel)))))

  abbrev with_coerced : Option Value → (Value → FieldOutcome) → FieldOutcome
  with_coerced none put = type_mismatch
  with_coerced (some v) put = put v

  update_box : String → Value → Obj → FieldOutcome
  unfolding with_layout_field
  update_box f v kind =
      let layout = obj_or_empty (as_obj (get "layout" (fields kind))) in
      let mode = tag layout in
      if str_eq f "Heading"
      then with_coerced (coerce core text_source v)
          (λ c. updated (with_kind_field kind "heading" c))
      else if str_eq f "Orientation" && str_eq mode "Flex"
      then with_coerced (coerce core orientation v) (with_layout_field kind layout "direction")
      else if str_eq f "Wrap" && str_eq mode "Flex"
      then with_coerced (coerce core boolean v) (with_layout_field kind layout "wrap")
      else if str_eq f "Cols" && (str_eq mode "Grid" || str_eq mode "Masonry")
      then with_coerced (coerce core integer v) (with_layout_field kind layout "cols")
      else if str_eq f "TemplateColumns" && str_eq mode "Grid"
      then with_coerced (coerce core text v) (with_layout_field kind layout "templateColumns")
      else if str_eq f "Children"
      then unsupported
      else unknown_field

  abbrev update_entry : Option FieldEntry → Value → Obj → FieldOutcome
  update_entry none v kind = unknown_field
  update_entry (some (not_supported key)) v kind = unsupported
  update_entry (some (settable key c)) v kind =
      with_coerced (coerce core c v) (λ w. updated (with_kind_field kind key w))

  unfoldable pub update_field : String → Value → Obj → FieldOutcome
  unfolding update_box
  update_field f v kind =
      if str_eq (tag kind) "Box"
      then update_box f v kind
      else elim (find_table (tag kind) prop_fields) [
        | none ↦ unsupported
        | some table ↦ update_entry (find_entry f table) v kind
      ]

-- ops/prop.go: the binding slots that ReplaceBinding reaches
abbrev binding_slots : List (String × String × String)
binding_slots =
    ("Metric", "Value", "value")
    ∷ ("Metric", "Source", "value")
    ∷ ("Metric", "Trend", "trend")
    ∷ ("Sparkline", "Source", "source")
    ∷ ("Progress", "Fraction", "fraction")
    ∷ ("LabelValueRow", "Value", "value")
    ∷ ("LabelValueRow", "Source", "value")
    ∷ ("Stepper", "ActiveStep", "activeStep")
    ∷ ("Button", "Disabled", "disabled")
    ∷ ("Select", "Disabled", "disabled")
    ∷ ("Form", "Disabled", "disabled")
    ∷ ("FileUpload", "Disabled", "disabled")
    ∷ ("DataGrid", "Source", "source")
    ∷ ("Chart", "Source", "source")
    ∷ ("Map", "Source", "source")
    ∷ []

slot_key : String → String → List (String × String × String) → Option String
slot_key t slot [] = none
slot_key t slot ((k, s, key) ∷ rest) =
    if str_eq k t && str_eq s slot then some key else slot_key t slot rest

unfoldable pub replace_binding_slot : Core → String → Value → Obj → Option Obj
unfolding slot_key
replace_binding_slot core slot binding kind = elim (slot_key (tag kind) slot binding_slots) [
  | none ↦ none
  | some key ↦ some (with_kind_field core kind key binding)
]
