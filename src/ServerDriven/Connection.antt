-- ===== src/ServerDriven/Connection.antt =====
-- serverdriven/connection.go: a connection steps its session, counts the frames it pushes and retains
-- the last of them for replay. Each method runs under the lock of the connection, so it is one step.
-- The channel is an argument: whether it takes a frame.
use fuaran_go.Prelude.{
  ℕ, suc, List, [], ◌∷◌, ◌++◌, Bool, ◌&&◌, Option, none, some, ltb, leb, if◌then◌else◌, length,
}
use fuaran_go.Wire.Core.{Core}
use fuaran_go.Wire.Value.{Obj}
use fuaran_go.ServerDriven.Driver.{
  Event, RejectReason, Session, Stepped, accepted, rejected, aborted, step,
}

pub record Frame : Type 0 where
  pub seq : ℕ
  pub ops : List Obj

abbrev pub default_replay_buffer_capacity : ℕ
default_replay_buffer_capacity = 512

-- `project_reject` is absent where the host gives no projection
pub record Connection : Type 0 where
  pub session : Session
  pub seq : ℕ
  pub buffer : List Frame
  pub buffer_cap : ℕ
  pub project_reject : Option (RejectReason → List Obj)

abbrev pub new_connection : Session → Option (RejectReason → List Obj) → Connection
new_connection s project = record {
  session = s;
  seq = 0;
  buffer = [];
  buffer_cap = default_replay_buffer_capacity;
  project_reject = project;
}

abbrev pub with_replay_buffer_capacity : ℕ → Connection → Connection
with_replay_buffer_capacity capacity c = record {
  session = c.session;
  seq = c.seq;
  buffer = c.buffer;
  buffer_cap = if ltb 0 capacity then capacity else c.buffer_cap;
  project_reject = c.project_reject;
}

abbrev pub without_oldest : List Frame → List Frame
without_oldest [] = []
without_oldest (f ∷ fs) = fs

unfoldable pub buffer_frame : ℕ → Frame → List Frame → List Frame
buffer_frame cap f buffer =
    (if leb cap (length buffer) && ltb 0 (length buffer) then without_oldest buffer else buffer)
    ++ f ∷ []

-- the connection after an event, and the frame that it pushed, if any
abbrev pub Handling : Type 0
Handling = Connection × Option Frame

unfoldable pub push_ops : List Obj → Connection → Handling
unfolding buffer_frame
push_ops os c = (
  record {
    session = c.session;
    seq = suc c.seq;
    buffer = buffer_frame c.buffer_cap (record { seq = suc c.seq; ops = os }) c.buffer;
    buffer_cap = c.buffer_cap;
    project_reject = c.project_reject;
  },
  some (record { seq = suc c.seq; ops = os }),
)

-- no frame for an empty list of ops
abbrev pub push_some : List Obj → Connection → Handling
push_some [] c = (c, none)
push_some (o ∷ os) c = push_ops (o ∷ os) c

abbrev pub projected : Option (RejectReason → List Obj) → RejectReason → List Obj
projected none r = []
projected (some project) r = project r

abbrev pub with_session : Session → Connection → Connection
with_session s c = record {
  session = s;
  seq = c.seq;
  buffer = c.buffer;
  buffer_cap = c.buffer_cap;
  project_reject = c.project_reject;
}

abbrev pub handled : Connection → Stepped → Option Handling
handled c (accepted s os) = some (push_some os (with_session s c))
handled c (rejected r) = some (push_some (projected c.project_reject r) c)
handled c aborted = none

-- `none` where the engine panics
unfoldable pub handle : Core → Event → Connection → Option Handling
unfolding push_ops
handle core ev c = handled c (step core c.session ev)

-- the frames that are pushed again, up to the first that the channel does not take
abbrev pub resync_from : (Frame → Bool) → ℕ → List Frame → List Frame
resync_from takes last_seq [] = []
resync_from takes last_seq (f ∷ fs) =
    let rest = resync_from takes last_seq fs in
    if ltb last_seq f.seq then (if takes f then f ∷ rest else []) else rest

unfoldable pub resync : (Frame → Bool) → ℕ → Connection → List Frame
resync takes last_seq c = resync_from takes last_seq c.buffer
