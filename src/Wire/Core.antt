-- ===== src/Wire/Core.antt =====
-- What the codec takes from outside the repository: the canonical-JSON primitives of
-- fuaran-core-go (canonical/*.go forwards to them), and Go's conversion of an integer to a float.
-- The primitives stay abstract: no theorem assumes more of them than these types.
use Prim.Native.Char.{code}
use fuaran_go.Prelude.{
  ℕ, zero, suc, ◌+◌, ◌/◌, ◌%◌, String, List, [], ◌∷◌, Bool, true, false, ◌==◌, if◌then◌else◌,
}
use fuaran_go.Prelude.Int.{ℤ, pos, negsuc}

-- A Go string as a list of bytes.
abbrev pub Bytes : Type 0
Bytes = List ℕ

abbrev pub codes : String → Bytes
codes String.[] = []
codes (String.◌∷◌ c s) = code c ∷ codes s

pub record Core : Type 0 where
  pub escape_string : String → Bytes
  pub format_finite_double : ℕ → Bytes
  pub sort_keys : List String → List String
  pub float_of_int : ℤ → ℕ

-- decimal digits, least significant first produced, on fuel
decimal : ℕ → ℕ → Bytes → Bytes
decimal zero n out = out
decimal (suc f) n out =
    let out' = (b'0' + n % 10) ∷ out in
    let rest = decimal f (n / 10) out' in if n / 10 == 0 then out' else rest

-- strconv.Itoa of a natural number; a number has at most as many digits as it is large
unfoldable pub itoa : ℕ → Bytes
unfolding decimal
itoa n = decimal (suc n) n []

-- strconv.FormatInt(i, 10)
unfoldable pub format_int : ℤ → Bytes
unfolding itoa
format_int (pos n) = itoa n
format_int (negsuc n) = b'-' ∷ itoa (suc n)

abbrev pub bytes_eq : Bytes → Bytes → Bool
bytes_eq [] [] = true
bytes_eq (a ∷ as') (b ∷ bs) = if a == b then bytes_eq as' bs else false
bytes_eq _ _ = false
