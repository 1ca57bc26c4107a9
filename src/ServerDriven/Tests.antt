-- ===== src/ServerDriven/Tests.antt =====
-- A session with a gate that grants nothing, and a small connection.
use fuaran_go.Prelude.{ℕ, ◌≡◌, refl, [], ◌∷◌, none, some, arith}
use fuaran_go.Wire.Size.{value_size}
use fuaran_go.Wire.Value.{
  str, arr, obj, Obj, tagged, Fields, end, field, Node, envelope, get, from_list,
}
use fuaran_go.Idl.Lookup.{
  ordered_children, kind_by_tag, find_kind, node_list_slot, node_arms, node_slots,
}
use fuaran_go.Idl.Kinds.{kinds}
use fuaran_go.Ops.Traverse.{
  map_node, over, walk, child_slots, children, kind_slots, state_slots, layout_slots, key_slots,
  layout_children, switch_cases, case_slots,
}
use fuaran_go.Ops.Apply.{applied}
use fuaran_go.Ops.Apply.Rewrite.{edit_node}
use fuaran_go.Ops.Apply.Engine.{apply_step, apply_fuel, apply_one}
use fuaran_go.Ops.Limits.{
  apply, op_can_grow, inserted_nodes, inserted_fuel, grows_fuel, check_installed_ids,
}
use fuaran_go.ServerDriven.Nodes.{locate, sub_nodes}
use fuaran_go.ServerDriven.Gate.{decide_mount, missing_from}
use fuaran_go.ServerDriven.Driver.{Event, ops, Session, accepted, step}
use fuaran_go.ServerDriven.Connection.{Frame, Connection, Handling, handle, push_ops, buffer_frame}
use fuaran_go.ServerDriven.Ungated.{step-ungated}
use fuaran_go.ServerDriven.Window.{IsWindow, handle-IsWindow}
use fuaran_go.Ops.Tests.Trees.{plain_core}

abbrev mount : Obj
mount = tagged "Mount" (field "capabilities" (arr (from_list (str "admin" ∷ []))) end)

abbrev to_mount : Fields
to_mount = field "newKind" (obj mount) (field "target" (str "b") end)

abbrev button : Node
button = envelope "b" (tagged "Button" end) end

abbrev click : Event
click = record { conn_id = ""; node_id = "b"; event = "click"; payload = ""; last_seq = 0 }

-- the gate is on, and grants nothing
abbrev session : Session
session = record {
  tree = button;
  handler = λ t ev. ops (tagged "EditNode" to_mount ∷ []);
  gate = some (record { grants = [] });
}

withheld_run : decide_mount (record { grants = [] }) mount ≡ "admin" ∷ []
unfolding decide_mount missing_from get
withheld_run = refl

located : locate "b" button ≡ some button
unfolding locate over walk value_size sub_nodes
located = refl

mounted : apply plain_core (tagged "EditNode" to_mount) button ≡ applied (envelope "b" mount end)
unfolding apply apply_one apply_fuel apply_step edit_node map_node over walk value_size get
    op_can_grow grows_fuel inserted_nodes inserted_fuel check_installed_ids children child_slots
    kind_slots state_slots layout_slots key_slots layout_children switch_cases case_slots
    ordered_children kind_by_tag find_kind kinds node_list_slot node_arms node_slots
mounted = refl

step-ungated_example :
    step plain_core session click
    ≡ accepted
        (record { tree = envelope "b" mount end; handler = session.handler; gate = session.gate })
        (tagged "EditNode" to_mount ∷ [])
unfolding get
step-ungated_example =
    step-ungated plain_core session click button (envelope "b" mount end) to_mount located refl refl
      refl refl mounted

abbrev frame : ℕ → Frame
frame n = record { seq = n; ops = [] }

-- a connection with room for two frames, both taken
abbrev full : Connection
full = record {
  session = session;
  seq = 7;
  buffer = frame 6 ∷ frame 7 ∷ [];
  buffer_cap = 2;
  project_reject = none;
}

full-IsWindow : IsWindow full
full-IsWindow = record {
  last = (omega arith, (omega arith, tt));
  room = omega arith;
  bounded = omega arith;
}

abbrev after_click : Connection
after_click = record {
  session = record {
    tree = envelope "b" mount end;
    handler = session.handler;
    gate = session.gate;
  };
  seq = 8;
  buffer = frame 7 ∷ record { seq = 8; ops = tagged "EditNode" to_mount ∷ [] } ∷ [];
  buffer_cap = 2;
  project_reject = none;
}

abbrev clicked : Handling
clicked = (after_click, some (record { seq = 8; ops = tagged "EditNode" to_mount ∷ [] }))

handled_click : handle plain_core click full ≡ some clicked
unfolding handle push_ops buffer_frame get
handled_click =
    rw
      (step-ungated plain_core session click button (envelope "b" mount end) to_mount located refl
        refl refl refl mounted)
      refl

handle-IsWindow_example : IsWindow clicked.0
handle-IsWindow_example = handle-IsWindow plain_core click full clicked full-IsWindow handled_click
