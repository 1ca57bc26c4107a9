-- ===== src/Idl/Kinds/BadgeToDisclosure.antt =====
-- wire/idl/idl_gen.go: the node-kind rows of this range.
use fuaran_go.Prelude.{[], ◌∷◌}
use fuaran_go.Idl.Types.{
  Kind, row, plain, named, wired, list_of, applied, idl_type, no_args, arg, elem, required,
  optional, omit_default, host_only, t_str, t_bool, t_int, t_json, t_node, t_map, t_enum, t_union,
  t_record, t_fn, t_hosted,
}

abbrev pub kind_badge : Kind
kind_badge = record {
  tag = "Badge";
  category = "Display";
  fields =
      (row "label" required "" (named t_union "TextSource"))
      ∷ (row "variant" omit_default "\"Neutral\"" (named t_enum "BadgeVariant"))
      ∷ [];
}

abbrev pub kind_box : Kind
kind_box = record {
  tag = "Box";
  category = "Layout";
  fields =
      (row "children" required "" (list_of (plain t_node)))
      ∷ (row "heading" optional "" (named t_union "TextSource"))
      ∷ (row "layout" required "" (named t_union "BoxLayout"))
      ∷ (row "role" required "" (named t_enum "BoxRole"))
      ∷ (row "keepTogether" omit_default "false" (plain t_bool))
      ∷ (row "breakBefore" omit_default "false" (plain t_bool))
      ∷ [];
}

abbrev pub kind_button : Kind
kind_button = record {
  tag = "Button";
  category = "Input";
  fields =
      (row "label" required "" (named t_union "TextSource"))
      ∷ (row "onClick" required "" (named t_union "Action"))
      ∷ (row "variant" omit_default "\"Secondary\"" (named t_enum "ButtonVariant"))
      ∷ (row "icon" optional "" (plain t_str))
      ∷ (row "tooltip" host_only "" (wired t_fn "<closure>"))
      ∷ (row "disabled" optional "" (applied t_union "Binding" (arg (plain t_bool) no_args)))
      ∷ (row "affordance" optional "" (named t_record "Affordance"))
      ∷ [];
}

abbrev pub kind_callout : Kind
kind_callout = record {
  tag = "Callout";
  category = "Display";
  fields =
      (row "body" required "" (named t_union "TextSource"))
      ∷ (row "dismissable" omit_default "false" (plain t_bool))
      ∷ (row "tone" omit_default "\"Default\"" (named t_enum "ToneVariant"))
      ∷ (row "heading" optional "" (named t_union "TextSource"))
      ∷ (row "icon" optional "" (plain t_str))
      ∷ [];
}

abbrev pub kind_chart : Kind
kind_chart = record {
  tag = "Chart";
  category = "Visualisation";
  fields =
      (row "kind" required "" (named t_enum "ChartKind"))
      ∷ (row "source" required "" (applied t_union "Binding" (arg (wired t_hosted "json") no_args)))
      ∷ (row "stacked" omit_default "false" (plain t_bool))
      ∷ (row "xField" required "" (plain t_str))
      ∷ (row "yFields" required "" (list_of (plain t_str)))
      ∷ (row "title" optional "" (named t_union "TextSource"))
      ∷ (row "valueFormat" optional "" (named t_union "Format"))
      ∷ (row "xTitle" optional "" (named t_union "TextSource"))
      ∷ (row "yTitle" optional "" (named t_union "TextSource"))
      ∷ (row "subtitle" optional "" (named t_union "TextSource"))
      ∷ (row "legendPosition" optional "" (named t_enum "ChartLegendPosition"))
      ∷ (row "dataLabels" optional "" (named t_enum "ChartDataLabels"))
      ∷ (row "xScale" optional "" (named t_enum "ChartXScale"))
      ∷ (row "annotations" optional "" (list_of (named t_union "ChartAnnotation")))
      ∷ (row "onPointClick" optional "" (wired t_fn "<closure>"))
      ∷ [];
}

abbrev pub kind_code_block : Kind
kind_code_block = record {
  tag = "CodeBlock";
  category = "Display";
  fields =
      (row "code" required "" (plain t_str))
      ∷ (row "copyable" omit_default "true" (plain t_bool))
      ∷ (row "highlightLines" omit_default "[]" (list_of (plain t_int)))
      ∷ (row "language" required "" (plain t_str))
      ∷ (row "lineNumbers" omit_default "false" (plain t_bool))
      ∷ [];
}

abbrev pub kind_custom : Kind
kind_custom = record {
  tag = "Custom";
  category = "Meta";
  fields =
      (row "moduleId" required "" (plain t_str))
      ∷ (row "componentId" required "" (plain t_str))
      ∷ (row "props" required "" (idl_type t_map "" no_args (elem (plain t_json)) ""))
      ∷ (row "contentHash" optional "" (named t_record "ContentHash"))
      ∷ (row "exposedNodeIds" optional "" (list_of (plain t_str)))
      ∷ [];
}

abbrev pub kind_data_grid : Kind
kind_data_grid = record {
  tag = "DataGrid";
  category = "Visualisation";
  fields =
      (row "columns" required "" (list_of (named t_record "ColumnErased")))
      ∷ (row "editable" omit_default "false" (plain t_bool))
      ∷ (row "rowKey" optional "" (wired t_fn "<closure>"))
      ∷ (row "rowKeyField" optional "" (plain t_str))
      ∷ (row "sortStateKey" optional "" (plain t_str))
      ∷ (row "pageSize" optional "" (plain t_int))
      ∷ (row "pageStateKey" optional "" (plain t_str))
      ∷ (row "defaultSort" optional "" (named t_record "DefaultSort"))
      ∷ (row "editStateKey" optional "" (plain t_str))
      ∷ (row "reorderable" omit_default "false" (plain t_bool))
      ∷ (row "transferInKey" optional "" (plain t_str))
      ∷ (row "transferOutKey" optional "" (plain t_str))
      ∷ (row "keepRowsTogether" omit_default "false" (plain t_bool))
      ∷ (row "repeatHeader" omit_default "false" (plain t_bool))
      ∷ (row "exportable" omit_default "false" (plain t_bool))
      ∷ (row "windowStateKey" optional "" (plain t_str))
      ∷ (row "rowTotal" optional "" (applied t_union "Binding" (arg (plain t_int) no_args)))
      ∷ (row "source" required "" (applied t_union "Binding" (arg (wired t_hosted "json") no_args)))
      ∷ (row "staticRows" optional "" (named t_record "StaticRows"))
      ∷ (row "onRowClick" optional "" (wired t_fn "<closure>"))
      ∷ [];
}

abbrev pub kind_disclosure : Kind
kind_disclosure = record {
  tag = "Disclosure";
  category = "Layout";
  fields =
      (row "children" required "" (list_of (plain t_node)))
      ∷ (row "defaultOpen" required "" (plain t_bool))
      ∷ (row "heading" required "" (named t_union "TextSource"))
      ∷ (row "onToggle" optional "" (wired t_fn "<closure>"))
      ∷ (row "open" required "" (applied t_union "Binding" (arg (plain t_bool) no_args)))
      ∷ [];
}
