-- ===== src/Idl/Kinds/ProgressToTree.antt =====
-- wire/idl/idl_gen.go: the node-kind rows of this range.
use fuaran_go.Prelude.{[], ◌∷◌}
use fuaran_go.Idl.Types.{
  Kind, row, plain, named, wired, list_of, applied, no_args, arg, required, optional, omit_default,
  t_str, t_bool, t_int, t_float, t_node, t_enum, t_union, t_record, t_fn,
}

abbrev pub kind_progress : Kind
kind_progress = record {
  tag = "Progress";
  category = "Display";
  fields =
      (row "fraction" required "" (applied t_union "Binding" (arg (plain t_float) no_args)))
      ∷ (row "indeterminate" omit_default "false" (plain t_bool))
      ∷ (row "tone" omit_default "\"Default\"" (named t_enum "ToneVariant"))
      ∷ (row "label" optional "" (named t_union "TextSource"))
      ∷ (row "caveat" optional "" (named t_union "TextSource"))
      ∷ [];
}

abbrev pub kind_scroll_area : Kind
kind_scroll_area = record {
  tag = "ScrollArea";
  category = "Layout";
  fields =
      (row "children" required "" (list_of (plain t_node)))
      ∷ (row "orientation" required "" (named t_enum "ScrollOrientation"))
      ∷ (row "maxHeight" optional "" (plain t_int))
      ∷ (row "maxWidth" optional "" (plain t_int))
      ∷ [];
}

abbrev pub kind_select : Kind
kind_select = record {
  tag = "Select";
  category = "Input";
  fields =
      (row "label" required "" (named t_union "TextSource"))
      ∷ (row "onChange" optional "" (wired t_fn "<closure>"))
      ∷ (row "onChangeMulti" optional "" (wired t_fn "<closure>"))
      ∷ (row "source" required ""
          (applied t_union "Binding" (arg (list_of (named t_record "SelectOption")) no_args)))
      ∷ (row "value" optional "" (applied t_union "Binding" (arg (plain t_str) no_args)))
      ∷ (row "placeholder" optional "" (named t_union "TextSource"))
      ∷ (row "disabled" optional "" (applied t_union "Binding" (arg (plain t_bool) no_args)))
      ∷ (row "multiple" optional "" (plain t_bool))
      ∷ (row "values" optional "" (applied t_union "Binding" (arg (list_of (plain t_str)) no_args)))
      ∷ (row "affordance" optional "" (named t_record "Affordance"))
      ∷ (row "groups" omit_default "[]" (list_of (named t_record "SelectOptionGroup")))
      ∷ [];
}

abbrev pub kind_skeleton : Kind
kind_skeleton = record {
  tag = "Skeleton";
  category = "Display";
  fields = (row "rows" required "" (plain t_int)) ∷ [];
}

abbrev pub kind_sparkline : Kind
kind_sparkline = record {
  tag = "Sparkline";
  category = "Display";
  fields =
      (row "source" required "" (applied t_union "Binding" (arg (list_of (plain t_float)) no_args)))
      ∷ [];
}

abbrev pub kind_split_panel : Kind
kind_split_panel = record {
  tag = "SplitPanel";
  category = "Layout";
  fields =
      (row "children" required "" (list_of (plain t_node)))
      ∷ (row "weight" required "" (plain t_float))
      ∷ [];
}

abbrev pub kind_stepper : Kind
kind_stepper = record {
  tag = "Stepper";
  category = "Layout";
  fields =
      (row "activeStep" omit_default "{\"$type\":\"Static\",\"value\":0}"
        (applied t_union "Binding" (arg (plain t_int) no_args)))
      ∷ (row "children" required "" (list_of (plain t_node)))
      ∷ (row "onSelect" optional "" (wired t_fn "<closure>"))
      ∷ [];
}

abbrev pub kind_summary_list : Kind
kind_summary_list = record {
  tag = "SummaryList";
  category = "Layout";
  fields =
      (row "children" required "" (list_of (plain t_node)))
      ∷ (row "heading" optional "" (named t_union "TextSource"))
      ∷ [];
}

abbrev pub kind_switch : Kind
kind_switch = record {
  tag = "Switch";
  category = "Meta";
  fields =
      (row "autoAdvanceMs" optional "" (plain t_int))
      ∷ (row "cases" required "" (list_of (named t_record "SwitchCase")))
      ∷ (row "default" required "" (plain t_node))
      ∷ (row "on" optional "" (applied t_union "Binding" (arg (plain t_str) no_args)))
      ∷ (row "stateKey" optional "" (plain t_str))
      ∷ [];
}

abbrev pub kind_tabs : Kind
kind_tabs = record {
  tag = "Tabs";
  category = "Layout";
  fields =
      (row "activeIndex" omit_default "{\"$type\":\"Static\",\"value\":0}"
        (applied t_union "Binding" (arg (plain t_int) no_args)))
      ∷ (row "children" required "" (list_of (plain t_node)))
      ∷ (row "orientation" omit_default "\"Horizontal\"" (named t_enum "Orientation"))
      ∷ (row "onSelect" optional "" (wired t_fn "<closure>"))
      ∷ (row "onSelectTag" optional "" (wired t_fn "<closure>"))
      ∷ (row "tabHeaders" optional "" (list_of (named t_record "TabHeader")))
      ∷ (row "tabTags" optional "" (list_of (plain t_str)))
      ∷ (row "activeTag" optional "" (applied t_union "Binding" (arg (plain t_str) no_args)))
      ∷ [];
}

abbrev pub kind_toast : Kind
kind_toast = record {
  tag = "Toast";
  category = "Display";
  fields =
      (row "dismissable" omit_default "true" (plain t_bool))
      ∷ (row "message" required "" (named t_union "TextSource"))
      ∷ (row "open" required "" (applied t_union "Binding" (arg (plain t_bool) no_args)))
      ∷ (row "tone" omit_default "\"Default\"" (named t_enum "ToneVariant"))
      ∷ [];
}

abbrev pub kind_tree : Kind
kind_tree = record {
  tag = "Tree";
  category = "Display";
  fields =
      (row "expandedStateKey" optional "" (plain t_str))
      ∷ (row "items" required "" (list_of (named t_record "TreeItem")))
      ∷ (row "onSelect" optional "" (wired t_fn "<closure>"))
      ∷ (row "selectionStateKey" optional "" (plain t_str))
      ∷ [];
}
