-- ===== src/ServerDriven/WsFrame/Numbers.antt =====
-- serverdriven/wsframe.go: the length of a frame, written and read.
use fuaran_go.Prelude.{ℕ, ◌+◌, ◌*◌, ◌/◌, ◌%◌, ◌^◌, ◌<◌, ◌≡◌, ap, ◌++◌, some, arith}
use fuaran_go.Wire.Core.{Bytes}
use fuaran_go.ServerDriven.WsFrame.{append_uint16, append_uint64, read_number}

pub read_uint16 :
    (n : ℕ) (rest : Bytes) → n < 65536 → read_number 2 0 (append_uint16 n ++ rest) ≡ some (n, rest)
unfolding read_number append_uint16
read_uint16 n rest h =
    let e : (0 * 256 + n / 256 % 256) * 256 + n % 256 ≡ n = omega arith in
    ap (λ m. some (m, rest)) e

pub read_uint64 :
    (n : ℕ) (rest : Bytes) → n < 2 ^ 64 → read_number 8 0 (append_uint64 n ++ rest) ≡ some (n, rest)
unfolding read_number append_uint64
read_uint64 n rest h = ap (λ m. some (m, rest)) (omega arith)
