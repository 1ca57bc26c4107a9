-- ===== src/ServerDriven/WsFrame/Loop.antt =====
-- serverdriven/ws.go: the read loop on a stream of frames.
use fuaran_go.Prelude.{ℕ, ◌^◌, ◌<◌, ◌≡◌, false, List, [], ◌∷◌, ◌++◌, length, All, ◌==◌}
use fuaran_go.Wire.Core.{Bytes}
use fuaran_go.ServerDriven.WsFrame.{
  Effect, Ending, finished, refused_frame, broken, crashed, unfinished, on_frame, op_close,
}
use fuaran_go.ServerDriven.WsFrame.Masks.{IsByte}
use fuaran_go.ServerDriven.WsFrame.Trip.{client_frame, IsAllowed}

abbrev pub EndsWell : Ending → Type 0
EndsWell finished = Unit
EndsWell (refused_frame r) = Unit
EndsWell broken = Unit
EndsWell crashed = ⊥
EndsWell unfinished = ⊥

-- a message of a client: its mask and its frame
pub record Message : Type 0 where
  pub k0 : ℕ
  pub k1 : ℕ
  pub k2 : ℕ
  pub k3 : ℕ
  pub opcode : ℕ
  pub payload : Bytes

pub record IsSound (limit : ℕ) (m : Message) : Type 0 where
  pub b0 : IsByte m.k0
  pub b1 : IsByte m.k1
  pub b2 : IsByte m.k2
  pub b3 : IsByte m.k3
  pub bytes : All IsByte m.payload
  pub four_bits : m.opcode < 16
  pub open_frame : (m.opcode == op_close) ≡ false
  pub fits : length m.payload < 2 ^ 63
  pub allowed : IsAllowed limit m.opcode (length m.payload)

abbrev pub stream : List Message → Bytes
stream [] = []
stream (m ∷ ms) = client_frame m.k0 m.k1 m.k2 m.k3 m.opcode m.payload ++ stream ms

abbrev pub effects : List Message → List Effect
effects [] = []
effects (m ∷ ms) = on_frame m.opcode m.payload ++ effects ms
