-- ===== src/ServerDriven/WsFrame/Trip.antt =====
-- serverdriven/wsframe.go: a frame that was written, or sent by a client, reads back.
use Prim.Native.Nat.{bit_or}
use fuaran_go.Prelude.{
  ℕ, ◌+◌, ◌%◌, ◌^◌, ◌≤◌, ◌<◌, ◌≡◌, refl, ap, ◌⊎◌, inl, inr, Bool, false, not, ◌&&◌, [], ◌∷◌, ◌++◌,
  append_assoc, some, none, length, take, drop, ltb, leb, arith, Bool-cases, ltb→lt,
}
use fuaran_go.Wire.Core.{Bytes}
use fuaran_go.ServerDriven.WsFrame.{
  write_frame, length_header, append_uint16, append_uint64, read_frame, read_rest, read_payload,
  read_length, check_frame, deliver, unmask, is_control, max_control_frame_bytes,
}
use fuaran_go.ServerDriven.WsFrame.Numbers.{read_uint16, read_uint64}
use fuaran_go.ServerDriven.WsFrame.Masks.{first_byte, second_byte}

-- a header that reads as the length
abbrev ReadsAs : ℕ → Bytes → Type 0
ReadsAs n header =
    (h1 : ℕ) × (ext : Bytes) × (header ≡ h1 ∷ ext)
    × (h1 < 128)
    × ((tail : Bytes) → read_length h1 (ext ++ tail) ≡ some (n, tail))

length_header-ReadsAs : (n : ℕ) → n < 2 ^ 64 → ReadsAs n (length_header n)
unfolding length_header read_length
length_header-ReadsAs n h = elim (Bool-cases (ltb n 126)) [
  | inl e ↦
      let small : n < 126 = ltb→lt n 126 e in
      let same : n % 256 ≡ n = omega arith in
      (n, [], rw (e, same) refl, omega arith, λ tail. ground arith)
  | inr e ↦ elim (Bool-cases (ltb n 65536)) [
    | inl f ↦ (
      126,
      append_uint16 n,
      rw (e, f) refl,
      omega arith,
      λ tail. read_uint16 n tail (ltb→lt n 65536 f),
    )
    | inr f ↦ (127, append_uint64 n, rw (e, f) refl, omega arith, λ tail. read_uint64 n tail h)
  ]
]

take-append : (p rest : Bytes) → take (length p) (p ++ rest) ≡ p
take-append [] rest = refl
take-append (b ∷ p) rest = ap (λ l. b ∷ l) (take-append p rest)

drop-append : (p rest : Bytes) → drop (length p) (p ++ rest) ≡ rest
drop-append [] rest = refl
drop-append (b ∷ p) rest = drop-append p rest

length-append-le : (p rest : Bytes) → length p ≤ length (p ++ rest)
length-append-le [] rest = omega arith
length-append-le (b ∷ p) rest = omega (arith, length-append-le p rest)

-- a length that the checks let through
abbrev pub IsAllowed : ℕ → ℕ → ℕ → Type 0
IsAllowed max opcode n =
    ((is_control opcode ≡ false) ⊎ (n ≤ max_control_frame_bytes)) × ((max ≡ 0) ⊎ (n ≤ max))

check_frame-passes :
    (opcode max n : ℕ) (masked client : Bool)
    → IsAllowed max opcode n
    → (client && not masked) ≡ false
    → check_frame opcode masked max client n ≡ none
unfolding check_frame
check_frame-passes opcode max n masked client (c, m) h = rw (short c, h, within m) refl
  where
    short :
        (is_control opcode ≡ false) ⊎ (n ≤ max_control_frame_bytes)
        → (is_control opcode && ltb max_control_frame_bytes n) ≡ false
    short (inl c) = rw c refl
    short (inr c) = ground arith

    within : (max ≡ 0) ⊎ (n ≤ max) → (ltb 0 max && ltb max n) ≡ false
    within (inl m) = ground arith
    within (inr m) = ground arith

read_payload-whole :
    (opcode : ℕ) (decode : Bytes → Bytes) (p rest : Bytes)
    → length p < 2 ^ 63
    → read_payload opcode (length p) decode (p ++ rest) ≡ deliver opcode (decode p) rest
unfolding read_payload
read_payload-whole opcode decode p rest h =
    let fits : leb (2 ^ 63) (length p) ≡ false = ground arith in
    let there : ltb (length (p ++ rest)) (length p) ≡ false =
      ground (arith, length-append-le p rest) in
    rw (fits, there, take-append p rest, drop-append p rest) refl

-- What writeFrame writes reads back as its opcode and payload, and the bytes behind it stay on the
-- reader, for every opcode of four bits and every payload that the checks of the reader allow.
pub read_frame-write_frame :
    (opcode max : ℕ) (p rest : Bytes)
    → opcode < 16
    → length p < 2 ^ 63
    → IsAllowed max opcode (length p)
    → read_frame (write_frame opcode p ++ rest) max false ≡ deliver opcode p rest
unfolding write_frame read_frame
read_frame-write_frame opcode max p rest op_small small allowed =
    let (h1, ext, header, h1_small, reads) = length_header-ReadsAs (length p) (omega arith) in
    let (final, op) = first_byte opcode op_small in
    let (no_mask, low, _, _) = second_byte h1 h1_small in
    rw (header, final, op, no_mask, low, append_assoc ext p rest, reads (p ++ rest))
      (unfold read_rest in
        rw (check_frame-passes opcode max (length p) false false allowed refl)
          (read_payload-whole opcode (λ q. q) p rest small))

-- what RFC 6455 has a client send: the mask bit is set, the key stands in front of the payload, and
-- the payload is masked by it
abbrev pub client_header : Bytes → Bytes
client_header [] = []
client_header (h ∷ ext) = (h + 128) ∷ ext

abbrev pub client_frame : ℕ → ℕ → ℕ → ℕ → ℕ → Bytes → Bytes
client_frame k0 k1 k2 k3 opcode p =
    bit_or 0x80 opcode
    ∷ (client_header (length_header (length p)) ++ (k0 ∷ k1 ∷ k2 ∷ k3 ∷ unmask k0 k1 k2 k3 p))
