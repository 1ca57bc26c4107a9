-- ===== src/ServerDriven/WsFrame/Bounds.antt =====
-- serverdriven/wsframe.go: what readFrame lets through, whatever the peer sends.
use fuaran_go.Prelude.{
  ℕ, zero, suc, ◌+◌, ◌≤◌, ◌≡◌, refl, ◌⊎◌, false, [], ◌∷◌, length, take, drop, arith,
}
use fuaran_go.Wire.Core.{Bytes}
use fuaran_go.ServerDriven.WsFrame.{
  FrameRead, frame, closed, refused, cut_short, panicked, is_control, max_control_frame_bytes,
}

-- what a frame may be: its payload within the cap, and within 125 bytes for a control frame; `n` bytes
-- were there, and the payload and the rest are two bytes fewer at least
abbrev pub IsWithin : ℕ → ℕ → FrameRead → Type 0
IsWithin max n (frame opcode payload rest) =
    (length payload ≤ max)
    × ((is_control opcode ≡ false) ⊎ (length payload ≤ max_control_frame_bytes))
    × (length payload + length rest + 2 ≤ n)
IsWithin max n (closed payload rest) =
    (length payload ≤ max)
    × (length payload ≤ max_control_frame_bytes)
    × (length payload + length rest + 2 ≤ n)
IsWithin max n (refused opcode r) = Unit
IsWithin max n (cut_short c) = Unit
IsWithin max n panicked = ⊥

pub length-take : (n : ℕ) (bs : Bytes) → n ≤ length bs → length (take n bs) ≡ n
length-take zero bs h = refl
length-take (suc n) [] h = absurd (omega arith)
length-take (suc n) (b ∷ bs) h = omega (arith, length-take n bs)

pub length-drop : (n : ℕ) (bs : Bytes) → n ≤ length bs → n + length (drop n bs) ≡ length bs
length-drop zero bs h = omega arith
length-drop (suc n) [] h = absurd (omega arith)
length-drop (suc n) (b ∷ bs) h = omega (arith, length-drop n bs)
