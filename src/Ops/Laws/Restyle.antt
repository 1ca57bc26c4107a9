-- ===== src/Ops/Laws/Restyle.antt =====
-- ops/apply.go: the ops on the style, the accessibility block and the tooltip of a node.
use fuaran_go.Prelude.{String, ◌≡◌, some}
use fuaran_go.Wire.Value.{Obj, Fields, Node, fields, get, as_str, as_obj}
use fuaran_go.Ops.Apply.Rewrite.{
  store_style, patch_style, with_accessibility, with_tooltip, update_style, patch_style_op,
  update_accessibility, update_tooltip,
}
use fuaran_go.Ops.Laws.Rewrite.{
  Restyles, restyles, store_style-Keeps, patch_style-Keeps, with_accessibility-Keeps,
  with_tooltip-Keeps,
}

-- UpdateStyle stores the style on the target and on no other node.
pub update_style-Restyles :
    (fs : Fields) (root : Node) (style : Obj) (target : String)
    → as_obj (get "style" fs) ≡ some style
    → as_str (get "target" fs) ≡ some target
    → Restyles (update_style fs root) target (λ n. store_style n (fields style)) root
unfolding update_style
update_style-Restyles fs root style target h j =
    rw (j, update_style)
      (rw h (
        restyles target (λ n. store_style n (fields style)) root
          (store_style-Keeps (fields style))))

-- PatchStyle patches the style of the target and of no other node.
pub patch_style_op-Restyles :
    (fs : Fields) (root : Node) (delta : Obj) (target : String)
    → as_obj (get "style" fs) ≡ some delta
    → as_str (get "target" fs) ≡ some target
    → Restyles (patch_style_op fs root) target (patch_style (fields delta)) root
unfolding patch_style_op
patch_style_op-Restyles fs root delta target h j =
    rw (j, patch_style_op)
      (rw h (restyles target (patch_style (fields delta)) root (patch_style-Keeps (fields delta))))

-- UpdateAccessibility stores the block on the target, or takes it off for an empty one.
pub update_accessibility-Restyles :
    (fs : Fields) (root : Node) (a : Obj) (target : String)
    → as_obj (get "accessibility" fs) ≡ some a
    → as_str (get "target" fs) ≡ some target
    → Restyles (update_accessibility fs root) target (with_accessibility a) root
unfolding update_accessibility
update_accessibility-Restyles fs root a target h j =
    rw (j, update_accessibility)
      (rw h (restyles target (with_accessibility a) root (with_accessibility-Keeps a)))

-- UpdateTooltip stores the tooltip on the target, or takes it off where the op has none.
pub update_tooltip-Restyles :
    (fs : Fields) (root : Node) (target : String)
    → as_str (get "target" fs) ≡ some target
    → Restyles (update_tooltip fs root) target (with_tooltip (get "tooltip" fs)) root
unfolding update_tooltip
update_tooltip-Restyles fs root target j =
    rw (j, update_tooltip)
      (restyles target (with_tooltip (get "tooltip" fs)) root
        (with_tooltip-Keeps (get "tooltip" fs)))
