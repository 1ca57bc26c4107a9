-- ===== src/Ops/Tests/Slots.antt =====
-- The slots and the rewrite of a small tree.
use fuaran_go.Prelude.{[]}
use fuaran_go.Ops.Traverse.{child_slots}
use fuaran_go.Ops.Traverse.Rebuild.{Rebuilds}
use fuaran_go.Ops.Traverse.Rebuild.Whole.{child_slots-Rebuilds}
use fuaran_go.Ops.Tests.Trees.{tree}

child_slots-Rebuilds_example : Rebuilds tree [] (child_slots tree) []
child_slots-Rebuilds_example = child_slots-Rebuilds tree
