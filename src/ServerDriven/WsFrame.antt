-- ===== src/ServerDriven/WsFrame.antt =====
-- serverdriven/wsframe.go: the WebSocket frame codec, and the read loop of serverdriven/ws.go. A
-- reader is the list of the bytes that it still has; a writer is the list of the bytes written.
pub mod Numbers
pub mod Masks
pub mod Bounds
pub mod Trip
pub mod Loop
mod Tests
use Prim.Native.Nat.{bit_and, bit_or, bit_xor}
use fuaran_go.Prelude.{
  ℕ, zero, suc, ◌+◌, ◌*◌, ◌/◌, ◌%◌, ◌^◌, Bool, true, false, not, ◌&&◌, List, [], ◌∷◌, ◌++◌, Option,
  none, some, length, take, drop, ltb, leb, ◌==◌, if◌then◌else◌,
}
use fuaran_go.Wire.Core.{Bytes}

abbrev pub op_text : ℕ
op_text = 0x1

abbrev pub op_close : ℕ
op_close = 0x8

abbrev pub op_ping : ℕ
op_ping = 0x9

abbrev pub op_pong : ℕ
op_pong = 0xA

abbrev pub max_frame_bytes : ℕ
max_frame_bytes = 2 ^ 20

abbrev pub max_control_frame_bytes : ℕ
max_control_frame_bytes = 125

-- why a frame is refused
pub data Reason : Type 0 where
  fragmented : Reason
  control_too_long : Reason
  unmasked : Reason
  too_big : ℕ → Reason

-- the close code of the ProtocolError
unfoldable pub close_code : Reason → ℕ
close_code fragmented = 1002
close_code control_too_long = 1002
close_code unmasked = 1002
close_code (too_big n) = 1009

-- io.EOF is the end between two reads, io.ErrUnexpectedEOF the end within one
pub data Cut : Type 0 where
  eof : Cut
  unexpected_eof : Cut

pub data FrameRead : Type 0 where
  frame : ℕ → Bytes → Bytes → FrameRead
  closed : Bytes → Bytes → FrameRead
  refused : ℕ → Reason → FrameRead
  cut_short : Cut → FrameRead
  panicked : FrameRead

-- io.ReadFull on a reader that has not enough bytes
unfoldable pub ended : Bytes → FrameRead
ended [] = cut_short eof
ended (b ∷ bs) = cut_short unexpected_eof

-- the low bytes of a number, the most significant first
unfoldable pub append_uint16 : ℕ → Bytes
append_uint16 n = n / 256 % 256 ∷ n % 256 ∷ []

unfoldable pub append_uint64 : ℕ → Bytes
append_uint64 n =
    n / 2 ^ 56 % 256
    ∷ n / 2 ^ 48 % 256
    ∷ n / 2 ^ 40 % 256
    ∷ n / 2 ^ 32 % 256
    ∷ n / 2 ^ 24 % 256
    ∷ n / 2 ^ 16 % 256
    ∷ n / 256 % 256
    ∷ n % 256
    ∷ []

-- the length part of the header
unfoldable pub length_header : ℕ → Bytes
unfolding append_uint16 append_uint64
length_header n =
    if ltb n 126
    then n % 256 ∷ []
    else if ltb n 65536
    then 126 ∷ append_uint16 n
    else 127 ∷ append_uint64 n

unfoldable pub write_frame : ℕ → Bytes → Bytes
unfolding length_header
write_frame opcode payload = bit_or 0x80 opcode ∷ length_header (length payload) ++ payload

unfoldable pub write_text_frame : Bytes → Bytes
unfolding write_frame
write_text_frame payload = write_frame op_text payload

-- `body[:125]` of the code and the reason
unfoldable pub write_close_frame : ℕ → Bytes → Bytes
unfolding write_frame append_uint16
write_close_frame code reason =
    let body = append_uint16 code ++ reason in
    write_frame op_close (
      if ltb max_control_frame_bytes (length body) then take max_control_frame_bytes body else body)

-- io.ReadFull of a big-endian number of `n` bytes, behind what is read so far
unfoldable pub read_number : ℕ → ℕ → Bytes → Option (ℕ × Bytes)
read_number zero acc bs = some (acc, bs)
read_number (suc n) acc [] = none
read_number (suc n) acc (b ∷ bs) = read_number n (acc * 256 + b) bs

unfoldable pub read_length : ℕ → Bytes → Option (ℕ × Bytes)
unfolding read_number
read_length declared bs =
    if declared == 126
    then read_number 2 0 bs
    else if declared == 127
    then read_number 8 0 bs
    else some (declared, bs)

-- `payload[i] ^= maskKey[i&3]`: the key turns by one with each byte
unfoldable pub unmask : ℕ → ℕ → ℕ → ℕ → Bytes → Bytes
unmask k0 k1 k2 k3 [] = []
unmask k0 k1 k2 k3 (b ∷ bs) = bit_xor b k0 ∷ unmask k1 k2 k3 k0 bs

unfoldable pub deliver : ℕ → Bytes → Bytes → FrameRead
deliver opcode payload rest =
    if opcode == op_close then closed payload rest else frame opcode payload rest

-- the payload of the declared length: a length past the range of int panics in make
unfoldable pub read_payload : ℕ → ℕ → (Bytes → Bytes) → Bytes → FrameRead
unfolding deliver ended
read_payload opcode declared decode bs =
    if leb (2 ^ 63) declared
    then panicked
    else if ltb (length bs) declared
    then ended bs
    else deliver opcode (decode (take declared bs)) (drop declared bs)

unfoldable pub read_masked : ℕ → ℕ → Bytes → FrameRead
unfolding read_payload unmask ended
read_masked opcode declared (k0 ∷ k1 ∷ k2 ∷ k3 ∷ bs) =
    read_payload opcode declared (unmask k0 k1 k2 k3) bs
read_masked opcode declared bs = ended bs

abbrev pub is_control : ℕ → Bool
is_control opcode = not (bit_and opcode 0x08 == 0)

-- the checks of the declared length, before anything is allocated; a cap that is not positive is 0
unfoldable pub check_frame : ℕ → Bool → ℕ → Bool → ℕ → Option Reason
check_frame opcode masked max_payload client_to_server declared =
    if is_control opcode && ltb max_control_frame_bytes declared
    then some control_too_long
    else if client_to_server && not masked
    then some unmasked
    else if ltb 0 max_payload && ltb max_payload declared
    then some (too_big declared)
    else none

unfoldable pub read_body : ℕ → Bool → ℕ → Bytes → FrameRead
unfolding read_payload read_masked
read_body opcode masked declared bs =
    if masked then read_masked opcode declared bs else read_payload opcode declared (λ p. p) bs

unfoldable pub read_checked : ℕ → Bool → ℕ → Bytes → Option Reason → FrameRead
unfolding read_body
read_checked opcode masked declared bs (some r) = refused opcode r
read_checked opcode masked declared bs none = read_body opcode masked declared bs

-- `unread` is what the extended length was read from
unfoldable pub read_rest : ℕ → Bool → ℕ → Bool → Bytes → Option (ℕ × Bytes) → FrameRead
unfolding read_checked check_frame ended
read_rest opcode masked max_payload client_to_server unread none = ended unread
read_rest opcode masked max_payload client_to_server unread (some (declared, bs)) =
    read_checked opcode masked declared bs
      (check_frame opcode masked max_payload client_to_server declared)

unfoldable pub read_frame : Bytes → ℕ → Bool → FrameRead
unfolding read_rest read_length ended
read_frame (h0 ∷ h1 ∷ bs) max_payload client_to_server =
    if bit_and h0 0x80 == 0
    then refused 0 fragmented
    else read_rest (bit_and h0 0x0F) (not (bit_and h1 0x80 == 0)) max_payload client_to_server bs
        (read_length (bit_and h1 0x7F) bs)
read_frame bs max_payload client_to_server = ended bs

-- what the read loop does: it hands a text on, or it writes to the peer
pub data Effect : Type 0 where
  received : Bytes → Effect
  wrote : Bytes → Effect

-- how the loop ends: a close frame or the end of the stream, a refused frame, the
-- end of the stream within a frame, or a panic
pub data Ending : Type 0 where
  finished : Ending
  refused_frame : Reason → Ending
  broken : Ending
  crashed : Ending
  unfinished : Ending

-- what the loop does with a frame that it read
unfoldable pub on_frame : ℕ → Bytes → List Effect
unfolding write_frame
on_frame opcode payload =
    if opcode == op_text
    then received payload ∷ []
    else if opcode == op_ping
    then wrote (write_frame op_pong payload) ∷ []
    else []

-- Listen, with the texts of the refusals as an argument, on fuel
module _ (reason_text : Reason → Bytes) (limit : ℕ) where
  unfoldable pub listen_step : (Bytes → List Effect × Ending) → FrameRead → List Effect × Ending
  unfolding on_frame write_close_frame close_code
  listen_step again (frame opcode payload rest) =
      let r = again rest in (on_frame opcode payload ++ r.0, r.1)
  listen_step again (closed payload rest) = ([], finished)
  listen_step again (refused opcode r) =
      (wrote (write_close_frame (close_code r) (reason_text r)) ∷ [], refused_frame r)
  listen_step again (cut_short eof) = ([], finished)
  listen_step again (cut_short unexpected_eof) = ([], broken)
  listen_step again panicked = ([], crashed)

  unfoldable pub listen : ℕ → Bytes → List Effect × Ending
  unfolding listen_step read_frame
  listen zero bs = ([], unfinished)
  listen (suc f) bs = listen_step (listen f) (read_frame bs limit true)

-- frameLimit: the cap of a channel that was built without one
unfoldable pub frame_limit : ℕ → ℕ
frame_limit max_frame = if max_frame == 0 then max_frame_bytes else max_frame
