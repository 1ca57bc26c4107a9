-- ===== src/ServerDriven/Ungated.antt =====
-- serverdriven/gate.go and serverdriven/driver.go: the gate looks at the fields child and node of an
-- op, which an EditNode does not have.
use fuaran_go.Prelude.{◌≡◌, refl, ap, ◌∙◌, [], ◌∷◌, ◌++◌, true, Option, none, some}
use fuaran_go.Wire.Core.{Core}
use fuaran_go.Wire.Size.{value_size}
use fuaran_go.Wire.Value.{tagged, Fields, Node, get, kind, tag}
use fuaran_go.Ops.Apply.{applied}
use fuaran_go.Ops.Limits.{apply}
use fuaran_go.Ops.Traverse.{contains_id}
use fuaran_go.ServerDriven.Nodes.{locate}
use fuaran_go.ServerDriven.Gate.{
  CapabilityGate, collect, op_missing_fuel, op_missing_capabilities, sort_strings, once_each,
}
use fuaran_go.ServerDriven.Driver.{
  Event, ops, Session, accepted, legitimate_events, first_missing, vetted, apply_vetted, apply_all,
  after_handler, step,
}

edit_node-missing :
    (g : CapabilityGate) (fs : Fields)
    → get "child" fs ≡ none
    → get "node" fs ≡ none
    → op_missing_capabilities g (tagged "EditNode" fs) ≡ []
unfolding op_missing_capabilities op_missing_fuel value_size
edit_node-missing g fs c n =
    ap (λ o. sort_strings (once_each (collect g o ++ collect g (get "node" fs)))) c
    ∙ ap (λ o. sort_strings (once_each (collect g o))) n

vetted-edit :
    (gate : Option CapabilityGate) (fs : Fields)
    → get "child" fs ≡ none
    → get "node" fs ≡ none
    → vetted gate (tagged "EditNode" fs ∷ []) ≡ []
vetted-edit none fs c n = refl
vetted-edit (some g) fs c n = rw (edit_node-missing g fs c n, first_missing) refl

-- Whatever the gate grants, a step accepts an EditNode that the engine applies, be its new kind a Mount
-- or not: where the node of the event is there, takes the event, and the handler answers with the op.
pub step-ungated :
    (core : Core) (s : Session) (ev : Event) (n t : Node) (fs : Fields)
    → locate ev.node_id s.tree ≡ some n
    → contains_id ev.event (legitimate_events (tag (kind n))) ≡ true
    → s.handler s.tree ev ≡ ops (tagged "EditNode" fs ∷ [])
    → get "child" fs ≡ none
    → get "node" fs ≡ none
    → apply core (tagged "EditNode" fs) s.tree ≡ applied t
    → step core s ev
      ≡ accepted
          (record { tree = t; handler = s.handler; gate = s.gate })
          (tagged "EditNode" fs ∷ [])
unfolding step
step-ungated core s ev n t fs here legit answer c m result =
    let os = tagged "EditNode" fs ∷ [] in
    let through : step core s ev ≡ after_handler core s (s.handler s.tree ev) =
      (rw (here, step) (rw legit refl)) in
    through
    ∙ ap (after_handler core s) answer
    ∙ ap (apply_vetted core s os) (vetted-edit s.gate fs c m)
    ∙ rw (result, apply_all) refl
