-- ===== src/ServerDriven/Driver.antt =====
-- serverdriven/driver.go: one step of a session. The host handler is a function of the tree and the
-- event; that it panics is one of its results. The texts of the refusals are not modelled.
use fuaran_go.Prelude.{ℕ, String, List, [], ◌∷◌, not, Option, none, some, str_eq, if◌then◌else◌}
use fuaran_go.Wire.Core.{Core}
use fuaran_go.Wire.Value.{Obj, Node, kind, tag}
use fuaran_go.Ops.Apply.{applied, refused, panicked}
use fuaran_go.Ops.Limits.{apply}
use fuaran_go.Ops.Traverse.{contains_id}
use fuaran_go.ServerDriven.Nodes.{locate}
use fuaran_go.ServerDriven.Gate.{CapabilityGate, op_missing_capabilities}

pub record Event : Type 0 where
  pub conn_id : String
  pub node_id : String
  pub event : String
  pub payload : String
  pub last_seq : ℕ

pub data RejectReason : Type 0 where
  unknown_node illegitimate_event dispatch_denied handler_panicked : RejectReason
  capability_denied : List String → RejectReason

pub data Handled : Type 0 where
  ops : List Obj → Handled
  denied crashed : Handled

pub record Session : Type 0 where
  pub tree : Node
  pub handler : Node → Event → Handled
  pub gate : Option CapabilityGate

pub data Stepped : Type 0 where
  accepted : Session → List Obj → Stepped
  rejected : RejectReason → Stepped
  -- the engine panicked
  aborted : Stepped

abbrev pub legitimate_events : String → List String
legitimate_events k =
    if str_eq k "Button"
    then "click" ∷ []
    else if str_eq k "Select"
    then "change" ∷ []
    else if str_eq k "Form"
    then "submit" ∷ "change" ∷ "input" ∷ []
    else if str_eq k "Filters"
    then "change" ∷ "input" ∷ "click" ∷ []
    else if str_eq k "FileUpload"
    then "change" ∷ "file-read" ∷ []
    else if str_eq k "Tabs"
    then "click" ∷ "change" ∷ []
    else if str_eq k "Stepper"
    then "click" ∷ "change" ∷ []
    else if str_eq k "Disclosure"
    then "click" ∷ "change" ∷ "toggle" ∷ []
    else []

-- the missing capabilities of the first op that the gate refuses
abbrev pub first_missing : CapabilityGate → List Obj → List String
first_missing g [] = []
first_missing g (o ∷ os) = elim (op_missing_capabilities g o) [
  | [] ↦ first_missing g os
  | i ∷ is ↦ i ∷ is
]

abbrev pub vetted : Option CapabilityGate → List Obj → List String
vetted none os = []
vetted (some g) os = first_missing g os

module _ (core : Core) where
  abbrev pub apply_all : Session → List Obj → Node → List Obj → Stepped
  apply_all s all next [] =
      accepted (record { tree = next; handler = s.handler; gate = s.gate }) all
  apply_all s all next (o ∷ os) = elim (apply core o next) [
    | applied t ↦ apply_all s all t os
    | refused t e ↦ rejected dispatch_denied
    | panicked ↦ aborted
  ]

  abbrev pub apply_vetted : Session → List Obj → List String → Stepped
  apply_vetted s os [] = apply_all s os s.tree os
  apply_vetted s os (i ∷ is) = rejected (capability_denied (i ∷ is))

  abbrev pub after_handler : Session → Handled → Stepped
  after_handler s denied = rejected dispatch_denied
  after_handler s crashed = rejected handler_panicked
  after_handler s (ops os) = apply_vetted s os (vetted s.gate os)

  unfoldable pub step : Session → Event → Stepped
  step s ev = elim (locate ev.node_id s.tree) [
    | none ↦ rejected unknown_node
    | some n ↦
        if not (contains_id ev.event (legitimate_events (tag (kind n))))
        then rejected illegitimate_event
        else after_handler s (s.handler s.tree ev)
  ]
