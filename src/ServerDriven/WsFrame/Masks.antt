-- ===== src/ServerDriven/WsFrame/Masks.antt =====
-- serverdriven/wsframe.go: the bits of the header and the mask, checked on every byte.
use Prim.Native.Nat.{bit_and, bit_or, bit_xor}
use fuaran_go.Prelude.{
  ℕ, zero, suc, ◌+◌, ◌<◌, ◌≤◌, ◌≡◌, refl, Bool, true, false, not, ◌&&◌, [], ◌∷◌, arith, ◌==◌,
  ==_iff, All, ap, length,
}
use fuaran_go.Wire.Core.{Bytes}
use fuaran_go.ServerDriven.WsFrame.{unmask}

-- a test of the values from `lo` on, so many of them
checked : (ℕ → Bool) → ℕ → ℕ → Bool
checked test lo zero = true
checked test lo (suc count) = test lo && checked test (suc lo) count

checked-value :
    (test : ℕ → Bool) (count lo v : ℕ)
    → checked test lo count ≡ true
    → lo ≤ v
    → v < lo + count
    → test v ≡ true
unfolding checked
checked-value test zero lo v passed from to = absurd (omega arith)
checked-value test (suc count) lo v passed from to =
    grind (arith, checked-value test count (suc lo) v)

below : (test : ℕ → Bool) (count v : ℕ) → checked test 0 count ≡ true → v < count → test v ≡ true
below test count v passed to = checked-value test count 0 v passed (omega arith) (omega arith)

abbrev masks_back : ℕ → ℕ → Bool
masks_back key b = bit_xor (bit_xor b key) key == b

key_checked : ℕ → Bool
unfolding checked
key_checked key = checked (masks_back key) 0 256

keys_checked : checked key_checked 0 256 ≡ true
unfolding checked key_checked
keys_checked = refl

-- A byte that is masked twice with one key is the byte itself.
masked_twice : (b key : ℕ) → b < 256 → key < 256 → bit_xor (bit_xor b key) key ≡ b
masked_twice b key hb hkey =
    let passed : checked (masks_back key) 0 256 ≡ true =
      unfold key_checked in below key_checked 256 key keys_checked hkey in
    (==_iff _ b).0 (below (masks_back key) 256 b passed hb)

abbrev pub IsByte : ℕ → Type 0
IsByte b = b < 256

pub unmask_twice :
    (k0 k1 k2 k3 : ℕ) (bs : Bytes)
    → IsByte k0
    → IsByte k1
    → IsByte k2
    → IsByte k3
    → All IsByte bs
    → unmask k0 k1 k2 k3 (unmask k0 k1 k2 k3 bs) ≡ bs
unfolding unmask
unmask_twice k0 k1 k2 k3 [] h0 h1 h2 h3 _ = refl
unmask_twice k0 k1 k2 k3 (b ∷ bs) h0 h1 h2 h3 (h, hs) =
    cc (masked_twice b k0 h h0, unmask_twice k1 k2 k3 k0 bs h1 h2 h3 h0 hs)

pub length-unmask : (k0 k1 k2 k3 : ℕ) (bs : Bytes) → length (unmask k0 k1 k2 k3 bs) ≡ length bs
unfolding unmask
length-unmask k0 k1 k2 k3 [] = refl
length-unmask k0 k1 k2 k3 (b ∷ bs) = ap suc (length-unmask k1 k2 k3 k0 bs)

abbrev opcode_kept : ℕ → Bool
opcode_kept o = not (bit_and (bit_or 0x80 o) 0x80 == 0) && bit_and (bit_or 0x80 o) 0x0F == o

opcode_table : checked opcode_kept 0 16 ≡ true
unfolding checked
opcode_table = refl

abbrev length_kept : ℕ → Bool
length_kept n =
    (bit_and n 0x80 == 0 && bit_and n 0x7F == n)
    && (not (bit_and (n + 128) 0x80 == 0) && bit_and (n + 128) 0x7F == n)

length_table : checked length_kept 0 128 ≡ true
unfolding checked
length_table = refl

-- The first byte of a frame holds the final bit and the opcode.
pub first_byte :
    (o : ℕ)
    → o < 16
    → ((bit_and (bit_or 0x80 o) 0x80 == 0) ≡ false) × (bit_and (bit_or 0x80 o) 0x0F ≡ o)
first_byte o h = ground (arith, below opcode_kept 16 o opcode_table h)

-- The second byte holds the length, and the mask bit where 128 is added.
pub second_byte :
    (n : ℕ)
    → n < 128
    → ((bit_and n 0x80 == 0) ≡ true)
      × (bit_and n 0x7F ≡ n)
      × ((bit_and (n + 128) 0x80 == 0) ≡ false)
      × (bit_and (n + 128) 0x7F ≡ n)
second_byte n h = ground (arith, below length_kept 128 n length_table h)
