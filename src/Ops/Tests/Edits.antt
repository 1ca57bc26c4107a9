-- ===== src/Ops/Tests/Edits.antt =====
-- The ops that rewrite one node, on a small tree.
use fuaran_go.Prelude.{arith}
use fuaran_go.Wire.Value.{str, obj, Obj, tagged, Fields, end, field, Node, envelope, get}
use fuaran_go.Ops.Laws.Style.{Once, style_of}

abbrev target_a : Fields → Fields
target_a fs = field "target" (str "a") fs

abbrev bold : Obj
bold = tagged "" (field "weight" (str "Bold") (field "tone" (str "Default") end))

abbrev styled : Node
styled =
    envelope "a" (tagged "Fact" end)
      (field "style" (obj (tagged "" (field "tone" (str "Accent") end))) end)

styled-Once : Once "tone" (style_of styled)
unfolding get
styled-Once = omega arith
