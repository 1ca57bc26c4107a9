-- ===== src/Idl/Kinds/DrawingToHeading.antt =====
-- wire/idl/idl_gen.go: the node-kind rows of this range.
use fuaran_go.Prelude.{[], ◌∷◌}
use fuaran_go.Idl.Types.{
  Kind, row, plain, named, wired, list_of, applied, idl_type, no_args, arg, elem, required,
  optional, omit_default, t_str, t_bool, t_int, t_node, t_map, t_enum, t_union, t_record, t_fn,
}

abbrev pub kind_drawing : Kind
kind_drawing = record {
  tag = "Drawing";
  category = "Display";
  fields =
      (row "description" optional "" (named t_union "TextSource"))
      ∷ (row "shapes" required "" (list_of (named t_union "Shape")))
      ∷ (row "style" required "" (named t_record "DrawStyle"))
      ∷ (row "title" optional "" (named t_union "TextSource"))
      ∷ (row "viewBox" required "" (named t_record "ViewBox"))
      ∷ [];
}

abbrev pub kind_embed : Kind
kind_embed = record {
  tag = "Embed";
  category = "Display";
  fields =
      (row "aspectRatio" omit_default "\"Natural\"" (named t_enum "ImageAspect"))
      ∷ (row "permissions" omit_default "[]" (list_of (named t_enum "EmbedPermission")))
      ∷ (row "src" required "" (applied t_union "Binding" (arg (plain t_str) no_args)))
      ∷ (row "title" required "" (named t_union "TextSource"))
      ∷ [];
}

abbrev pub kind_error_boundary : Kind
kind_error_boundary = record {
  tag = "ErrorBoundary";
  category = "Meta";
  fields =
      (row "child" required "" (plain t_node)) ∷ (row "fallback" required "" (plain t_node)) ∷ [];
}

abbrev pub kind_fact : Kind
kind_fact = record {
  tag = "Fact";
  category = "Display";
  fields =
      (row "emphasis" omit_default "false" (plain t_bool))
      ∷ (row "help" optional "" (named t_union "TextSource"))
      ∷ (row "icon" optional "" (plain t_str))
      ∷ (row "label" required "" (named t_union "TextSource"))
      ∷ (row "tone" omit_default "\"Default\"" (named t_enum "ToneVariant"))
      ∷ (row "value" required "" (named t_union "TextSource"))
      ∷ (row "reference" optional "" (plain t_str))
      ∷ [];
}

abbrev pub kind_file_upload : Kind
kind_file_upload = record {
  tag = "FileUpload";
  category = "Input";
  fields =
      (row "accept" required "" (list_of (plain t_str)))
      ∷ (row "label" required "" (named t_union "TextSource"))
      ∷ (row "multiple" omit_default "false" (plain t_bool))
      ∷ (row "onSelect" optional "" (wired t_fn "<closure>"))
      ∷ (row "disabled" optional "" (applied t_union "Binding" (arg (plain t_bool) no_args)))
      ∷ (row "acceptPaste" omit_default "false" (plain t_bool))
      ∷ (row "dropTarget" omit_default "false" (plain t_bool))
      ∷ (row "capture" optional "" (named t_enum "CaptureSource"))
      ∷ (row "destination" optional "" (plain t_str))
      ∷ (row "maxBytes" optional "" (plain t_int))
      ∷ (row "maxFiles" optional "" (plain t_int))
      ∷ [];
}

abbrev pub kind_filters : Kind
kind_filters = record {
  tag = "Filters";
  category = "Input";
  fields = (row "items" required "" (list_of (named t_record "FilterSpec"))) ∷ [];
}

abbrev pub kind_form : Kind
kind_form = record {
  tag = "Form";
  category = "Input";
  fields =
      (row "fields" required "" (list_of (named t_record "FormField")))
      ∷ (row "onSubmit" required "" (named t_union "Action"))
      ∷ (row "submitLabel" required "" (named t_union "TextSource"))
      ∷ (row "disabled" optional "" (applied t_union "Binding" (arg (plain t_bool) no_args)))
      ∷ [];
}

abbrev pub kind_fragment_decl : Kind
kind_fragment_decl = record {
  tag = "FragmentDecl";
  category = "Meta";
  fields =
      (row "body" required "" (plain t_node))
      ∷ (row "name" required "" (plain t_str))
      ∷ (row "holes" omit_default "[]" (list_of (named t_union "HoleDecl")))
      ∷ (row "effect" omit_default "{\"determinism\":\"Deterministic\",\"hostEffect\":\"Pure\"}"
          (named t_record "EffectClass"))
      ∷ [];
}

abbrev pub kind_fragment_ref : Kind
kind_fragment_ref = record {
  tag = "FragmentRef";
  category = "Meta";
  fields =
      (row "name" required "" (plain t_str))
      ∷ (row "args" optional "" (idl_type t_map "" no_args (elem (named t_union "FragmentArg")) ""))
      ∷ [];
}

abbrev pub kind_heading : Kind
kind_heading = record {
  tag = "Heading";
  category = "Display";
  fields =
      (row "level" required "" (plain t_int))
      ∷ (row "text" required "" (named t_union "TextSource"))
      ∷ (row "variant" omit_default "\"Standard\"" (named t_enum "HeadingVariant"))
      ∷ [];
}
