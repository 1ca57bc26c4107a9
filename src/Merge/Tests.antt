-- ===== src/Merge/Tests.antt =====
-- Merges of small trees.
use fuaran_go.Prelude.{String, ◌≡◌, refl, false, List, [], ◌∷◌, none, some, All, arith, inl}
use fuaran_go.Wire.Core.{codes}
use fuaran_go.Wire.Size.{node_size}
use fuaran_go.Wire.Value.{str, obj, tagged, end, field, Node, envelope, extras, get, set}
use fuaran_go.Wire.Encode.{encode_value}
use fuaran_go.Idl.Kinds.{kinds}
use fuaran_go.Idl.Lookup.{kind_by_tag, find_kind, field_in}
use fuaran_go.Merge.Order.{sorted_set, insert_string, less}
use fuaran_go.Merge.Refusal.{
  Conflict, agnostic, primary_author, secondary_author, resolve_author, keep_base, delete_modify,
  pick_facet, pick_field,
}
use fuaran_go.Merge.Facets.{
  non_facet, children_of, childless_kind, with_kind_children, make_node, merge_style, style_field,
  kind_canonical, state_canonical, accessibility_canonical, tooltip_canonical,
}
use fuaran_go.Merge.Places.{
  last_of, index_placement, node_index, place_fuel, index_fuel, new_move_ctx,
  detect_concurrent_moves, detect_all,
}
use fuaran_go.Merge.Engine.{
  merge3_fuel, merge3, merge_whole, merge_3way, merged, node_at, children_order, delete_cells,
  merge_children, merge_lists, merge_facets, merge_step, conclude,
}
use fuaran_go.Merge.Agreement.{IsUnencodable, merge_whole-agreed}
use fuaran_go.Merge.Moves.{
  BlockedBy, IsAt, IsMoveConflict, merge_3way-moved_apart, merge_3way-one_sided_move,
}
use fuaran_go.Merge.Contested.{Has}
use fuaran_go.Merge.Lost.{merge_3way-drops}
use fuaran_go.Merge.Fuel.{merge3_fuel-enough}
use fuaran_go.Merge.Mirror.{Mirrors}
use fuaran_go.Merge.Mirror.Whole.{merge_whole-Mirrors}
use fuaran_go.Merge.Envelope.{pass, sort_canonical, encode_envelope}
use fuaran_go.Merge.Envelope.Shuffle.{encode_envelope-Shuffled}
use fuaran_go.Merge.Absent.{NamesAbsent, merge_whole-NamesAbsent}
use fuaran_go.Ops.Tests.Trees.{plain_core, box, leaf}

abbrev callout : String → String → Node
callout i t = envelope i (tagged "Callout" (field "title" (str t) end)) end

-- a page with two boxes and a node that may be in either
abbrev page : List Node → List Node → Node
page l r = box "page" (box "left" l ∷ box "right" r ∷ box "top" [] ∷ [])

abbrev base : Node
base = page (leaf "n" ∷ []) []

abbrev moved_right : Node
moved_right = page [] (leaf "n" ∷ [])

abbrev moved_top : Node
moved_top = box "page" (box "left" [] ∷ box "right" [] ∷ box "top" (leaf "n" ∷ []) ∷ [])

abbrev moved_edited : Node
moved_edited = page [] (callout "n" "new" ∷ [])

merge_whole-agreed_example :
    All IsUnencodable (merge_whole plain_core agnostic base moved_right moved_right).0
merge_whole-agreed_example = merge_whole-agreed plain_core agnostic base moved_right

merge_3way-moved_apart_example :
    BlockedBy (IsAt "n") (merge_3way plain_core base moved_right moved_top)
unfolding last_of index_placement place_fuel children_of get node_size
merge_3way-moved_apart_example =
    merge_3way-moved_apart plain_core base moved_right moved_top "n" "left" "right" "top" refl refl
      refl refl refl refl

merge_3way-one_sided_move_example :
    BlockedBy (IsMoveConflict "n") (merge_3way plain_core base moved_edited base)
unfolding last_of index_placement node_index place_fuel index_fuel children_of get node_size
    encode_value kind_by_tag find_kind kinds field_in
merge_3way-one_sided_move_example =
    merge_3way-one_sided_move plain_core base moved_edited "n" "left" "right"
      (codes "{id:n,kind:{title:new,$type:Callout}}") (codes "{id:n,kind:{$type:Fact}}") refl refl
      refl refl refl refl

abbrev still : Node
still = leaf "n"

-- one branch gives the node a motion
abbrev moving : Node
moving = envelope "n" (tagged "Fact" end) (field "motion" (obj (tagged "Fade" end)) end)

-- the merge with an untouched branch is clean, and the motion is gone
drops_run : merge_3way plain_core still moving still ≡ merged still []
unfolding merge_3way merge_whole agnostic merge3 merge3_fuel merge_step merge_facets merge_lists
    conclude detect_concurrent_moves new_move_ctx index_placement place_fuel sorted_set
    insert_string less detect_all last_of node_index index_fuel node_size children_of get set
    non_facet make_node childless_kind with_kind_children merge_style style_field pick_field
    pick_facet kind_canonical state_canonical accessibility_canonical tooltip_canonical encode_value
    kind_by_tag find_kind kinds field_in children_order delete_cells merge_children node_at
drops_run = refl

merge_3way-drops_example : get "motion" (extras still) ≡ get "motion" (extras still)
merge_3way-drops_example =
    merge_3way-drops plain_core still moving still still [] "motion" drops_run refl

merge3_fuel-enough_example :
    merge3_fuel plain_core agnostic
      (new_move_ctx base moved_right base)
      40
      base
      (some moved_right)
      (some base)
    ≡ merge3 plain_core agnostic
        (new_move_ctx base moved_right base)
        base
        (some moved_right)
        (some base)
unfolding node_size
merge3_fuel-enough_example =
    merge3_fuel-enough plain_core agnostic (new_move_ctx base moved_right base) 40 base
      (some moved_right) (some base) (omega arith)

merge_whole-Mirrors_example :
    Mirrors
      (merge_whole plain_core
        (resolve_author primary_author (secondary_author (some "bot")))
        base
        moved_right
        moved_top).0
      (merge_whole plain_core
        (resolve_author (secondary_author (some "bot")) primary_author)
        base
        moved_top
        moved_right).0
merge_whole-Mirrors_example =
    merge_whole-Mirrors plain_core primary_author (secondary_author (some "bot")) base moved_right
      moved_top

abbrev conflict_at : String → Conflict
conflict_at i = record {
  node_id = i;
  facet = "node";
  conflict_class = delete_modify;
  base = none;
  a = record { value = []; side_tag = none };
  b = record { value = []; side_tag = none };
  primary = none;
  secondary = none;
  secondary_tag = none;
  primacy_held = false;
  choices = keep_base ∷ [];
}

encode_envelope-Shuffled_example :
    (sort_canonical (conflict_at "b" ∷ conflict_at "a" ∷ [])
      ≡ sort_canonical (conflict_at "a" ∷ conflict_at "b" ∷ []))
    × (encode_envelope plain_core (λ s. s) (conflict_at "b" ∷ conflict_at "a" ∷ [])
        ≡ encode_envelope plain_core (λ s. s) (conflict_at "a" ∷ conflict_at "b" ∷ []))
encode_envelope-Shuffled_example =
    encode_envelope-Shuffled plain_core (λ s. s) (conflict_at "b" ∷ conflict_at "a" ∷ [])
      (conflict_at "a" ∷ conflict_at "b" ∷ []) (pass (conflict_at "b") (conflict_at "a") (inl refl))

abbrev with_role : String → Node
with_role r =
    envelope "n" (tagged "Fact" end)
      (field "style" (obj (tagged "" (field "role" (str r) end))) end)

merge_whole-NamesAbsent_example :
    Has
      (NamesAbsent "style.role")
      (merge_whole plain_core
        (resolve_author primary_author (secondary_author none))
        (with_role "Heading")
        (leaf "n")
        (with_role "Caption")).0
unfolding style_field get
merge_whole-NamesAbsent_example =
    merge_whole-NamesAbsent none (with_role "Heading") (leaf "n") (with_role "Caption") "Heading"
      "Caption" refl refl refl refl plain_core
