-- ===== src/Ops/Prop/Tables.antt =====
-- ops/prop.go: which members of a kind an UpdateProp reaches, and by which coercion.
use fuaran_go.Prelude.{String, List, [], ◌∷◌}

-- the coercers of the table
pub data Coercer : Type 0 where
  text_source binding_number binding_string binding_int binding_bool cell_format column_width :
      Coercer
  tone icon_size weight emphasis orientation badge_variant heading_variant trend_polarity : Coercer
  integer number boolean text : Coercer

-- a member that takes a value, or one that the structural ops own
pub data FieldEntry : Type 0 where
  settable : String → Coercer → FieldEntry
  not_supported : String → FieldEntry

abbrev pub Table : Type 0
Table = List (String × FieldEntry)

abbrev metric_fields : Table
metric_fields =
    ("Label", settable "label" text_source)
    ∷ ("Value", settable "value" binding_number)
    ∷ ("Source", settable "value" binding_number)
    ∷ ("Format", settable "format" cell_format)
    ∷ ("Tone", settable "tone" tone)
    ∷ ("Weight", settable "weight" weight)
    ∷ ("Emphasis", settable "emphasis" emphasis)
    ∷ ("Trend", settable "trend" binding_number)
    ∷ ("TrendFormat", settable "trendFormat" cell_format)
    ∷ ("TrendPolarity", settable "trendPolarity" trend_polarity)
    ∷ ("Icon", settable "icon" text)
    ∷ ("Subtext", settable "subtext" text_source)
    ∷ []

abbrev heading_fields : Table
heading_fields =
    ("Level", settable "level" integer)
    ∷ ("Text", settable "text" text_source)
    ∷ ("Variant", settable "variant" heading_variant)
    ∷ []

abbrev markdown_fields : Table
markdown_fields = ("Text", settable "text" text_source) ∷ []

abbrev fact_fields : Table
fact_fields =
    ("Label", settable "label" text_source)
    ∷ ("Value", settable "value" text_source)
    ∷ ("Tone", settable "tone" tone)
    ∷ ("Emphasis", settable "emphasis" boolean)
    ∷ ("Help", settable "help" text_source)
    ∷ ("Icon", settable "icon" text)
    ∷ ("Reference", settable "reference" text)
    ∷ []

abbrev badge_fields : Table
badge_fields =
    ("Label", settable "label" text_source) ∷ ("Variant", settable "variant" badge_variant) ∷ []

abbrev skeleton_fields : Table
skeleton_fields = ("Rows", settable "rows" integer) ∷ []

abbrev icon_fields : Table
icon_fields =
    ("Icon", settable "icon" text)
    ∷ ("Size", settable "size" icon_size)
    ∷ ("Tone", settable "tone" tone)
    ∷ ("Label", settable "label" text)
    ∷ []

abbrev callout_fields : Table
callout_fields =
    ("Tone", settable "tone" tone)
    ∷ ("Body", settable "body" text_source)
    ∷ ("Dismissable", settable "dismissable" boolean)
    ∷ ("Heading", settable "heading" text_source)
    ∷ ("Icon", settable "icon" text)
    ∷ []

abbrev progress_fields : Table
progress_fields =
    ("Fraction", settable "fraction" binding_number)
    ∷ ("Indeterminate", settable "indeterminate" boolean)
    ∷ ("Tone", settable "tone" tone)
    ∷ ("Label", settable "label" text_source)
    ∷ ("Caveat", settable "caveat" text_source)
    ∷ []

abbrev label_value_row_fields : Table
label_value_row_fields =
    ("Label", settable "label" text_source)
    ∷ ("Value", settable "value" binding_number)
    ∷ ("Source", settable "value" binding_number)
    ∷ ("Format", settable "format" cell_format)
    ∷ ("Emphasis", settable "emphasis" boolean)
    ∷ ("Help", settable "help" text_source)
    ∷ []

abbrev link_fields : Table
link_fields =
    ("Href", settable "href" binding_string)
    ∷ ("Label", settable "label" text_source)
    ∷ ("Rel", settable "rel" text)
    ∷ ("Target", settable "target" text)
    ∷ ("Download", settable "download" boolean)
    ∷ []

abbrev split_panel_fields : Table
split_panel_fields =
    ("Weight", settable "weight" number) ∷ ("Children", not_supported "children") ∷ []

abbrev tabs_fields : Table
tabs_fields =
    ("Orientation", settable "orientation" orientation)
    ∷ ("Children", not_supported "children")
    ∷ []

abbrev stepper_fields : Table
stepper_fields =
    ("ActiveStep", settable "activeStep" binding_int) ∷ ("Children", not_supported "children") ∷ []

abbrev summary_list_fields : Table
summary_list_fields =
    ("Heading", settable "heading" text_source) ∷ ("Children", not_supported "children") ∷ []

abbrev disclosure_fields : Table
disclosure_fields =
    ("Heading", settable "heading" text_source)
    ∷ ("Open", settable "open" binding_bool)
    ∷ ("DefaultOpen", settable "defaultOpen" boolean)
    ∷ ("Children", not_supported "children")
    ∷ []

abbrev fragment_decl_fields : Table
fragment_decl_fields = ("Name", settable "name" text) ∷ []

abbrev fragment_ref_fields : Table
fragment_ref_fields = ("Name", settable "name" text) ∷ []

unfoldable pub prop_fields : List (String × Table)
prop_fields =
    ("Metric", metric_fields)
    ∷ ("Heading", heading_fields)
    ∷ ("Markdown", markdown_fields)
    ∷ ("Fact", fact_fields)
    ∷ ("Badge", badge_fields)
    ∷ ("Skeleton", skeleton_fields)
    ∷ ("Icon", icon_fields)
    ∷ ("Callout", callout_fields)
    ∷ ("Progress", progress_fields)
    ∷ ("LabelValueRow", label_value_row_fields)
    ∷ ("Link", link_fields)
    ∷ ("SplitPanel", split_panel_fields)
    ∷ ("Tabs", tabs_fields)
    ∷ ("Stepper", stepper_fields)
    ∷ ("SummaryList", summary_list_fields)
    ∷ ("Disclosure", disclosure_fields)
    ∷ ("FragmentDecl", fragment_decl_fields)
    ∷ ("FragmentRef", fragment_ref_fields)
    ∷ []
