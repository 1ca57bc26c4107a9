-- ===== src/Merge/Order.antt =====
-- The Ordinal order that merge.go gets from sort.Strings and from `<=` on strings, and the sets of
-- strings that it keeps. The UTF-8 bytes of two strings are ordered as their code points are.
use Prim.Native.Char.{code}
use text.Mathlib.TextEquality.{Char-path}
use fuaran_go.Prelude.{
  String, ◌≡◌, refl, Bool, true, false, List, [], ◌∷◌, arith, ltb, ◌==◌, str_eq, if◌then◌else◌, ◌↔◌,
  Bool-cases, inl, inr,
}
use fuaran_go.Wire.Core.{Bytes, codes, bytes_eq}

-- `a < b` on Go strings
unfoldable pub less : Bytes → Bytes → Bool
less [] [] = false
less [] (b ∷ bs) = true
less (a ∷ xs) [] = false
less (a ∷ xs) (b ∷ bs) = if a == b then less xs bs else ltb a b

abbrev pub text_less : String → String → Bool
text_less s t = less (codes s) (codes t)

pub less_irrefl : (a : Bytes) → less a a ≡ false
unfolding less
less_irrefl [] = refl
less_irrefl (a ∷ xs) = ground (arith, less_irrefl xs)

pub less_trans : (a b c : Bytes) → less a b ≡ true → less b c ≡ true → less a c ≡ true
unfolding less
less_trans [] [] c h k = cc
less_trans [] (b ∷ bs) [] h k = cc
less_trans [] (b ∷ bs) (c ∷ cs) h k = refl
less_trans (a ∷ xs) [] c h k = cc
less_trans (a ∷ xs) (b ∷ bs) [] h k = cc
less_trans (a ∷ xs) (b ∷ bs) (c ∷ cs) h k = ground (arith, less_trans xs bs cs)

pub less_asym : (a b : Bytes) → less a b ≡ true → less b a ≡ false
less_asym a b h = elim (Bool-cases (less b a)) [
  | inl k ↦ cc (less_trans a b a h k, less_irrefl a)
  | inr k ↦ k
]

pub less_total : (a b : Bytes) → less a b ≡ false → less b a ≡ false → a ≡ b
unfolding less
less_total [] [] h k = refl
less_total [] (b ∷ bs) h k = cc
less_total (a ∷ xs) [] h k = cc
less_total (a ∷ xs) (b ∷ bs) h k = ground (arith, less_total xs bs)

pub bytes_eq_iff : (a b : Bytes) → (bytes_eq a b ≡ true) ↔ (a ≡ b)
bytes_eq_iff [] [] = (λ _. refl, λ _. refl)
bytes_eq_iff [] (b ∷ bs) = (λ h. cc, λ h. cc)
bytes_eq_iff (a ∷ xs) [] = (λ h. cc, λ h. cc)
bytes_eq_iff (a ∷ xs) (b ∷ bs) =
    (λ h. ground (arith, bytes_eq_iff xs bs), λ h. ground (arith, bytes_eq_iff xs bs))

pub codes-inj : (s t : String) → codes s ≡ codes t → s ≡ t
codes-inj String.[] String.[] h = refl
codes-inj String.[] (String.◌∷◌ d t) h = cc
codes-inj (String.◌∷◌ c s) String.[] h = cc
codes-inj (String.◌∷◌ c s) (String.◌∷◌ d t) h =
    let first : code c ≡ code d = cc in
    let rest : codes s ≡ codes t = cc in cc (Char-path c d first, codes-inj s t rest)

-- `set[x] = true` on a set of strings that is kept in order, as its keys are read after sorting
unfoldable pub insert_string : String → List String → List String
insert_string x [] = x ∷ []
insert_string x (y ∷ ys) =
    let rest = insert_string x ys in
    if str_eq x y then y ∷ ys else if text_less x y then x ∷ y ∷ ys else y ∷ rest

unfoldable pub sorted_set : List String → List String
unfolding insert_string
sorted_set [] = []
sorted_set (x ∷ xs) = insert_string x (sorted_set xs)

-- `set[x]`
unfoldable pub contains : List String → String → Bool
contains [] x = false
contains (y ∷ ys) x = if str_eq y x then true else contains ys x
