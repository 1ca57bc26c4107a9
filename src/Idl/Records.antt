-- ===== src/Idl/Records.antt =====
-- wire/idl/idl_gen.go: the record rows that an applied edit reads.
use fuaran_go.Prelude.{[], ◌∷◌}
use fuaran_go.Idl.Types.{
  Record, row, plain, named, wired, applied, no_args, arg, required, optional, omit_default, t_str,
  t_bool, t_enum, t_union, t_record, t_fn,
}

abbrev pub record_column_erased : Record
record_column_erased = record {
  name = "ColumnErased";
  fields =
      (row "field" optional "" (plain t_str))
      ∷ (row "sortable" optional "" (plain t_bool))
      ∷ (row "editable" optional "" (plain t_bool))
      ∷ (row "format" omit_default "{\"$type\":\"None\"}" (named t_union "CellFormat"))
      ∷ (row "kind" required "" (named t_union "CellKindErased"))
      ∷ (row "label" required "" (plain t_str))
      ∷ (row "value" optional "" (wired t_fn "<closure>"))
      ∷ (row "width" omit_default "{\"$type\":\"Auto\"}" (named t_union "ColumnWidth"))
      ∷ [];
}

abbrev pub record_form_field : Record
record_form_field = record {
  name = "FormField";
  fields =
      (row "id" required "" (plain t_str))
      ∷ (row "kind" required "" (named t_union "FormFieldKind"))
      ∷ (row "label" required "" (named t_union "TextSource"))
      ∷ (row "required" omit_default "false" (plain t_bool))
      ∷ (row "help" optional "" (named t_union "TextSource"))
      ∷ (row "rule" optional "" (named t_record "FieldRule"))
      ∷ (row "affordance" optional "" (named t_record "Affordance"))
      ∷ [];
}

abbrev pub record_semantic_style : Record
record_semantic_style = record {
  name = "SemanticStyle";
  fields =
      (row "direction" omit_default "\"auto\"" (named t_enum "TextDirection"))
      ∷ (row "emphasis" omit_default "\"Normal\"" (named t_enum "Emphasis"))
      ∷ (row "role" omit_default "\"None\"" (named t_enum "StyleRole"))
      ∷ (row "tone" omit_default "\"Default\"" (named t_enum "ToneVariant"))
      ∷ (row "voice" omit_default "\"Default\"" (named t_enum "FontVoice"))
      ∷ (row "weight" omit_default "\"Standard\"" (named t_enum "StyleWeight"))
      ∷ [];
}

abbrev pub record_tab_header : Record
record_tab_header = record {
  name = "TabHeader";
  fields =
      (row "label" required "" (named t_union "TextSource"))
      ∷ (row "icon" optional "" (plain t_str))
      ∷ (row "disabled" optional "" (applied t_union "Binding" (arg (plain t_bool) no_args)))
      ∷ [];
}
