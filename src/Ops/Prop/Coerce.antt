-- ===== src/Ops/Prop/Coerce.antt =====
-- ops/prop.go: the value coercions. A coercion gives the value to store, or `none`; the text of the
-- refusal is not modelled.
use fuaran_go.Prelude.{
  String, List, [], ◌∷◌, Bool, true, false, Option, none, some, str_eq, if◌then◌else◌,
}
use fuaran_go.Wire.Core.{Core}
use fuaran_go.Wire.Value.{Value, str, int, float, bool, obj, Obj, tagged, end, field, get, as_str}
use fuaran_go.Ops.Traverse.{contains_id}
use fuaran_go.Ops.Prop.Tables.{
  Coercer, text_source, binding_number, binding_string, binding_int, binding_bool, cell_format,
  column_width, tone, icon_size, weight, emphasis, orientation, badge_variant, heading_variant,
  trend_polarity, integer, number, boolean, text,
}

-- wire/idl/idl_gen.go: the closed vocabularies that the coercions test
abbrev text_source_cases : List String
text_source_cases = "Literal" ∷ "Bound" ∷ "I18n" ∷ []

abbrev binding_cases : List String
binding_cases =
    "Static" ∷ "Query" ∷ "Filter" ∷ "Selection" ∷ "State" ∷ "Now" ∷ "Computed" ∷ "Local" ∷ "Format"
    ∷ "I18n" ∷ "Transform" ∷ "Expr" ∷ "Invoke" ∷ "Bound" ∷ []

abbrev cell_format_cases : List String
cell_format_cases =
    "None" ∷ "Number" ∷ "Currency" ∷ "Percent" ∷ "SignificantDigits" ∷ "DateTime" ∷ "Duration"
    ∷ "RelativeTime" ∷ "Custom" ∷ "Date" ∷ []

abbrev column_width_cases : List String
column_width_cases = "Auto" ∷ "Fixed" ∷ "Flex" ∷ []

abbrev tone_variants : List String
tone_variants = "Default" ∷ "Subdued" ∷ "Brand" ∷ "Success" ∷ "Warning" ∷ "Critical" ∷ "Info" ∷ []

abbrev icon_sizes : List String
icon_sizes = "Small" ∷ "Medium" ∷ "Large" ∷ []

abbrev style_weights : List String
style_weights = "Compact" ∷ "Standard" ∷ "Spacious" ∷ []

abbrev emphasis_levels : List String
emphasis_levels = "Quiet" ∷ "Normal" ∷ "Loud" ∷ []

abbrev orientations : List String
orientations = "Vertical" ∷ "Horizontal" ∷ []

abbrev badge_variants : List String
badge_variants = "Neutral" ∷ "Brand" ∷ "Success" ∷ "Warning" ∷ "Critical" ∷ "Info" ∷ []

abbrev heading_variants : List String
heading_variants = "Standard" ∷ "Eyebrow" ∷ "Caption" ∷ "Lead" ∷ []

abbrev trend_polarities : List String
trend_polarities = "HigherIsBetter" ∷ "LowerIsBetter" ∷ []

abbrev literal_text : Option String → Value → Value
literal_text none v = v
literal_text (some s) v = str s

-- the verbose Literal envelope collapses to its text
abbrev collapse : Obj → Value
collapse (tagged t fs) =
    if str_eq t "Literal"
    then literal_text (as_str (get "text" fs)) (obj (tagged t fs))
    else obj (tagged t fs)

pub coerce_text_source : Value → Option Value
coerce_text_source (str s) = some (str s)
coerce_text_source (obj (tagged t fs)) =
    if contains_id t text_source_cases then some (collapse (tagged t fs)) else none
coerce_text_source _ = none

-- a scalar is wrapped as a Static binding
abbrev static_binding : Value → Value
static_binding v = obj (tagged "Static" (field "value" v end))

abbrev binding_object : Value → Option Value
binding_object (obj (tagged t fs)) =
    if contains_id t binding_cases then some (obj (tagged t fs)) else none
binding_object _ = none

coerce_binding_of : (Value → Bool) → Value → Option Value
coerce_binding_of accepts v = if accepts v then some (static_binding v) else binding_object v

abbrev is_number : Value → Bool
is_number (int i) = true
is_number (float b) = true
is_number _ = false

abbrev is_str : Value → Bool
is_str (str s) = true
is_str _ = false

abbrev is_int : Value → Bool
is_int (int i) = true
is_int _ = false

abbrev is_bool : Value → Bool
is_bool (bool b) = true
is_bool _ = false

-- an object whose tag is in the vocabulary
coerce_object : List String → Value → Option Value
coerce_object cases (obj (tagged t fs)) =
    if contains_id t cases then some (obj (tagged t fs)) else none
coerce_object cases _ = none

coerce_enum : List String → Value → Option Value
coerce_enum allowed (str s) = if contains_id s allowed then some (str s) else none
coerce_enum allowed _ = none

abbrev when_accepted : (Value → Bool) → Value → Option Value
when_accepted accepts v = if accepts v then some v else none

coerce_float : Core → Value → Option Value
coerce_float core (int i) = some (float (core.float_of_int i))
coerce_float core (float b) = some (float b)
coerce_float core _ = none

unfoldable pub coerce : Core → Coercer → Value → Option Value
unfolding coerce_text_source coerce_binding_of coerce_object coerce_enum coerce_float
coerce core text_source = coerce_text_source
coerce core binding_number = coerce_binding_of is_number
coerce core binding_string = coerce_binding_of is_str
coerce core binding_int = coerce_binding_of is_int
coerce core binding_bool = coerce_binding_of is_bool
coerce core cell_format = coerce_object cell_format_cases
coerce core column_width = coerce_object column_width_cases
coerce core tone = coerce_enum tone_variants
coerce core icon_size = coerce_enum icon_sizes
coerce core weight = coerce_enum style_weights
coerce core emphasis = coerce_enum emphasis_levels
coerce core orientation = coerce_enum orientations
coerce core badge_variant = coerce_enum badge_variants
coerce core heading_variant = coerce_enum heading_variants
coerce core trend_polarity = coerce_enum trend_polarities
coerce core integer = when_accepted is_int
coerce core number = coerce_float core
coerce core boolean = when_accepted is_bool
coerce core text = when_accepted is_str
