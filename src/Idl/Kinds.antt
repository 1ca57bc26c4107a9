-- ===== src/Idl/Kinds.antt =====
-- wire/idl/idl_gen.go: every node-kind row, in table order.
mod BadgeToDisclosure
mod DrawingToHeading
mod IconToMount
mod ProgressToTree
use fuaran_go.Prelude.{List, [], ◌∷◌}
use fuaran_go.Idl.Types.{Kind}
use BadgeToDisclosure.{
  kind_badge, kind_box, kind_button, kind_callout, kind_chart, kind_code_block, kind_custom,
  kind_data_grid, kind_disclosure,
}
use DrawingToHeading.{
  kind_drawing, kind_embed, kind_error_boundary, kind_fact, kind_file_upload, kind_filters,
  kind_form, kind_fragment_decl, kind_fragment_ref, kind_heading,
}
use IconToMount.{
  kind_icon, kind_image, kind_label_value_row, kind_link, kind_list, kind_map, kind_markdown,
  kind_math, kind_media, kind_metric, kind_modal, kind_mount,
}
use ProgressToTree.{
  kind_progress, kind_scroll_area, kind_select, kind_skeleton, kind_sparkline, kind_split_panel,
  kind_stepper, kind_summary_list, kind_switch, kind_tabs, kind_toast, kind_tree,
}

unfoldable pub kinds : List Kind
kinds =
    kind_badge ∷ kind_box ∷ kind_button ∷ kind_callout ∷ kind_chart ∷ kind_code_block ∷ kind_custom
    ∷ kind_data_grid ∷ kind_disclosure ∷ kind_drawing ∷ kind_embed ∷ kind_error_boundary ∷ kind_fact
    ∷ kind_file_upload ∷ kind_filters ∷ kind_form ∷ kind_fragment_decl ∷ kind_fragment_ref
    ∷ kind_heading ∷ kind_icon ∷ kind_image ∷ kind_label_value_row ∷ kind_link ∷ kind_list
    ∷ kind_map ∷ kind_markdown ∷ kind_math ∷ kind_media ∷ kind_metric ∷ kind_modal ∷ kind_mount
    ∷ kind_progress ∷ kind_scroll_area ∷ kind_select ∷ kind_skeleton ∷ kind_sparkline
    ∷ kind_split_panel ∷ kind_stepper ∷ kind_summary_list ∷ kind_switch ∷ kind_tabs ∷ kind_toast
    ∷ kind_tree ∷ []
