-- ===== src/Idl/Kinds/IconToMount.antt =====
-- wire/idl/idl_gen.go: the node-kind rows of this range.
use fuaran_go.Prelude.{[], ◌∷◌}
use fuaran_go.Idl.Types.{
  Kind, row, plain, named, wired, list_of, applied, idl_type, no_args, arg, elem, required,
  optional, omit_default, t_str, t_bool, t_int, t_float, t_node, t_map, t_enum, t_union, t_record,
  t_fn,
}

abbrev pub kind_icon : Kind
kind_icon = record {
  tag = "Icon";
  category = "Display";
  fields =
      (row "icon" required "" (plain t_str))
      ∷ (row "size" omit_default "\"Medium\"" (named t_enum "IconSize"))
      ∷ (row "tone" omit_default "\"Default\"" (named t_enum "ToneVariant"))
      ∷ (row "label" optional "" (plain t_str))
      ∷ [];
}

abbrev pub kind_image : Kind
kind_image = record {
  tag = "Image";
  category = "Display";
  fields =
      (row "alt" required "" (named t_union "TextSource"))
      ∷ (row "src" required "" (applied t_union "Binding" (arg (plain t_str) no_args)))
      ∷ (row "variant" omit_default "\"Default\"" (named t_enum "ImageVariant"))
      ∷ (row "fit" omit_default "\"Natural\"" (named t_enum "ImageFit"))
      ∷ (row "aspectRatio" omit_default "\"Natural\"" (named t_enum "ImageAspect"))
      ∷ (row "loading" omit_default "\"Eager\"" (named t_enum "ImageLoading"))
      ∷ (row "srcSet" omit_default "[]" (list_of (named t_record "SrcSetEntry")))
      ∷ (row "expandable" omit_default "false" (plain t_bool))
      ∷ (row "caption" optional "" (named t_union "TextSource"))
      ∷ [];
}

abbrev pub kind_label_value_row : Kind
kind_label_value_row = record {
  tag = "LabelValueRow";
  category = "Display";
  fields =
      (row "emphasis" omit_default "false" (plain t_bool))
      ∷ (row "format" omit_default "{\"$type\":\"None\"}" (named t_union "CellFormat"))
      ∷ (row "label" required "" (named t_union "TextSource"))
      ∷ (row "value" required "" (applied t_union "Binding" (arg (plain t_float) no_args)))
      ∷ (row "help" optional "" (named t_union "TextSource"))
      ∷ [];
}

abbrev pub kind_link : Kind
kind_link = record {
  tag = "Link";
  category = "Display";
  fields =
      (row "href" required "" (applied t_union "Binding" (arg (plain t_str) no_args)))
      ∷ (row "label" required "" (named t_union "TextSource"))
      ∷ (row "download" omit_default "false" (plain t_bool))
      ∷ (row "rel" optional "" (plain t_str))
      ∷ (row "target" optional "" (plain t_str))
      ∷ (row "protection" optional "" (named t_enum "LinkProtection"))
      ∷ [];
}

abbrev pub kind_list : Kind
kind_list = record {
  tag = "List";
  category = "Display";
  fields =
      (row "items" required "" (list_of (named t_union "TextSource")))
      ∷ (row "ordered" omit_default "false" (plain t_bool))
      ∷ [];
}

abbrev pub kind_map : Kind
kind_map = record {
  tag = "Map";
  category = "Visualisation";
  fields =
      (row "centreLatitude" required "" (plain t_float))
      ∷ (row "centreLongitude" required "" (plain t_float))
      ∷ (row "source" required ""
          (applied t_union "Binding" (arg (list_of (named t_record "MapMarker")) no_args)))
      ∷ (row "zoom" required "" (plain t_int))
      ∷ (row "onMarkerClick" optional "" (wired t_fn "<closure>"))
      ∷ [];
}

abbrev pub kind_markdown : Kind
kind_markdown = record {
  tag = "Markdown";
  category = "Display";
  fields =
      (row "citations" omit_default "[]" (list_of (named t_record "MarkdownCitation")))
      ∷ (row "text" required "" (named t_union "TextSource"))
      ∷ [];
}

abbrev pub kind_math : Kind
kind_math = record {
  tag = "Math";
  category = "Display";
  fields =
      (row "source" required "" (plain t_str))
      ∷ (row "display" required "" (named t_enum "MathDisplay"))
      ∷ [];
}

abbrev pub kind_media : Kind
kind_media = record {
  tag = "Media";
  category = "Display";
  fields =
      (row "controls" omit_default "true" (plain t_bool))
      ∷ (row "kind" required "" (named t_union "MediaKind"))
      ∷ (row "label" required "" (named t_union "TextSource"))
      ∷ (row "loop" omit_default "false" (plain t_bool))
      ∷ (row "src" required "" (applied t_union "Binding" (arg (plain t_str) no_args)))
      ∷ (row "tracks" omit_default "[]" (list_of (named t_record "TrackEntry")))
      ∷ (row "transcript" optional "" (named t_union "TextSource"))
      ∷ [];
}

abbrev pub kind_metric : Kind
kind_metric = record {
  tag = "Metric";
  category = "Display";
  fields =
      (row "label" required "" (named t_union "TextSource"))
      ∷ (row "value" required "" (applied t_union "Binding" (arg (plain t_float) no_args)))
      ∷ (row "format" omit_default "{\"$type\":\"None\"}" (named t_union "CellFormat"))
      ∷ (row "tone" omit_default "\"Default\"" (named t_enum "ToneVariant"))
      ∷ (row "weight" omit_default "\"Standard\"" (named t_enum "StyleWeight"))
      ∷ (row "emphasis" omit_default "\"Normal\"" (named t_enum "Emphasis"))
      ∷ (row "trend" optional "" (applied t_union "Binding" (arg (plain t_float) no_args)))
      ∷ (row "trendFormat" optional "" (named t_union "CellFormat"))
      ∷ (row "trendPolarity" omit_default "\"HigherIsBetter\"" (named t_enum "TrendPolarity"))
      ∷ (row "comparisons" omit_default "[]" (list_of (named t_record "MetricComparison")))
      ∷ (row "icon" optional "" (plain t_str))
      ∷ (row "subtext" optional "" (named t_union "TextSource"))
      ∷ [];
}

abbrev pub kind_modal : Kind
kind_modal = record {
  tag = "Modal";
  category = "Layout";
  fields =
      (row "children" required "" (list_of (plain t_node)))
      ∷ (row "dismissable" omit_default "true" (plain t_bool))
      ∷ (row "onDismiss" optional "" (named t_union "Action"))
      ∷ (row "open" required "" (applied t_union "Binding" (arg (plain t_bool) no_args)))
      ∷ (row "heading" optional "" (named t_union "TextSource"))
      ∷ (row "modality" omit_default "\"Modal\"" (named t_enum "ModalityKind"))
      ∷ (row "anchor" optional "" (plain t_str))
      ∷ [];
}

abbrev pub kind_mount : Kind
kind_mount = record {
  tag = "Mount";
  category = "Meta";
  fields =
      (row "capabilities" required "" (list_of (plain t_str)))
      ∷ (row "channel" required "" (named t_record "GuestChannel"))
      ∷ (row "inputs" optional ""
          (idl_type t_map "" no_args (elem (named t_union "FragmentArg")) ""))
      ∷ (row "onBubble" optional "" (wired t_fn "<closure>"))
      ∷ (row "scopeId" required "" (plain t_str))
      ∷ [];
}
