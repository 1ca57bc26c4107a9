-- ===== src/ServerDriven/WsFrame/Tests.antt =====
-- Frames and a stream of them.
use fuaran_go.Prelude.{ℕ, ◌≡◌, refl, true, false, List, [], ◌∷◌, ◌++◌, inl, inr, arith}
use fuaran_go.Wire.Core.{Bytes, codes}
use fuaran_go.ServerDriven.WsFrame.{
  write_frame, read_frame, deliver, op_text, op_ping, write_text_frame, frame, refused, too_big,
  panicked,
}
use fuaran_go.ServerDriven.WsFrame.Trip.{read_frame-write_frame}
use fuaran_go.ServerDriven.WsFrame.Loop.{Message}

abbrev hello : Bytes
hello = codes "hello"

-- the bytes of RFC 6455, section 5.7
hello_frame : write_text_frame hello ≡ 0x81 ∷ 0x05 ∷ 0x68 ∷ 0x65 ∷ 0x6c ∷ 0x6c ∷ 0x6f ∷ []
unfolding write_text_frame
hello_frame = refl

masked_hello :
    read_frame
      (0x81 ∷ 0x85 ∷ 0x37 ∷ 0xfa ∷ 0x21 ∷ 0x3d ∷ 0x7f ∷ 0x9f ∷ 0x4d ∷ 0x51 ∷ 0x58 ∷ [])
      100
      true
    ≡ frame 1 (codes "Hello") []
unfolding read_frame
masked_hello = refl

-- a header that declares 2^64 - 1 bytes is refused under a cap, and panics without one
abbrev huge : Bytes
huge = 0x82 ∷ 0x7f ∷ 255 ∷ 255 ∷ 255 ∷ 255 ∷ 255 ∷ 255 ∷ 255 ∷ 255 ∷ []

huge_capped : read_frame huge 100 false ≡ refused 2 (too_big 0xffffffffffffffff)
unfolding read_frame
huge_capped = refl

huge_uncapped : read_frame huge 0 false ≡ panicked
unfolding read_frame
huge_uncapped = refl

read_frame-write_frame_example :
    read_frame (write_frame op_text hello ++ codes "rest") 100 false
    ≡ deliver op_text hello (codes "rest")
read_frame-write_frame_example =
    read_frame-write_frame op_text 100 hello (codes "rest") (omega arith) (omega arith)
      (inl refl, inr (omega arith))

abbrev message : ℕ → Message
message o = record { k0 = 1; k1 = 2; k2 = 3; k3 = 4; opcode = o; payload = hello }

abbrev session : List Message
session = message op_text ∷ message op_ping ∷ []
