-- ===== src/Ops/Placement/Swap.antt =====
-- ops/placement.go: two elements of a list exchanged, as nudgeOp does with the ids of the siblings.
use fuaran_go.Prelude.{
  ℕ, zero, suc, ◌+◌, ◌<◌, String, ◌≡◌, refl, sym, ap, ◌∙◌, subst, List, [], ◌∷◌, false, some,
  ==_iff, ◌==◌, length, get_elem?, set as set_elem, arith, Bool-cases, inl, inr,
}
use fuaran_go.Ops.Apply.Structure.{tally}
use fuaran_go.Ops.Placement.{text_at, swapped}

get_elem?-set_here :
    (xs : List String) (k : ℕ) (v : String) → k < length xs → get_elem? (set_elem xs k v) k ≡ some v
get_elem?-set_here [] k v h = absurd (omega arith)
get_elem?-set_here (x ∷ xs) zero v h = refl
get_elem?-set_here (x ∷ xs) (suc k) v h = get_elem?-set_here xs k v (omega arith)

get_elem?-set_other :
    (xs : List String) (k j : ℕ) (v : String)
    → ¬ (k ≡ j)
    → get_elem? (set_elem xs k v) j ≡ get_elem? xs j
get_elem?-set_other [] k j v h = refl
get_elem?-set_other (x ∷ xs) zero zero v h = absurd (h refl)
get_elem?-set_other (x ∷ xs) zero (suc j) v h = refl
get_elem?-set_other (x ∷ xs) (suc k) zero v h = refl
get_elem?-set_other (x ∷ xs) (suc k) (suc j) v h = get_elem?-set_other xs k j v (λ e. h (ap suc e))

apart : (k j : ℕ) → (k == j) ≡ false → ¬ (k ≡ j)
apart k j h e = cc ((==_iff k j).1 e, h)

length-set : (xs : List String) (k : ℕ) (v : String) → length (set_elem xs k v) ≡ length xs
length-set [] k v = refl
length-set (x ∷ xs) zero v = refl
length-set (x ∷ xs) (suc k) v = ap suc (length-set xs k v)

tally-set :
    (i : String) (xs : List String) (k : ℕ) (x v : String)
    → get_elem? xs k ≡ some x
    → tally i (set_elem xs k v) + tally i (x ∷ []) ≡ tally i xs + tally i (v ∷ [])
tally-set i [] k x v h = cc
tally-set i (y ∷ ys) zero x v h =
    let same : y ≡ x = cc in
    subst (λ z. tally i (v ∷ ys) + tally i (z ∷ []) ≡ tally i (y ∷ ys) + tally i (v ∷ [])) same
      (omega arith)
tally-set i (y ∷ ys) (suc k) x v h = omega (arith, tally-set i ys k x v h)

get_elem?-below : (xs : List String) (k : ℕ) → k < length xs → get_elem? xs k ≡ some (text_at xs k)
get_elem?-below [] k h = absurd (omega arith)
get_elem?-below (x ∷ xs) zero h = refl
get_elem?-below (x ∷ xs) (suc k) h = get_elem?-below xs k (omega arith)

-- what a swap of two places does
pub record IsSwapped (xs : List String) (m n : ℕ) (out : List String) : Type 0 where
  pub at_m : get_elem? out m ≡ get_elem? xs n
  pub at_n : get_elem? out n ≡ get_elem? xs m
  pub others : (k : ℕ) → ¬ (m ≡ k) → ¬ (n ≡ k) → get_elem? out k ≡ get_elem? xs k
  pub long : length out ≡ length xs

module _ (xs : List String) (m n : ℕ) (hm : m < length xs) (hn : n < length xs) where
  -- after the first write
  abbrev half : List String
  half = set_elem xs m (text_at xs n)

  half-at_n : get_elem? half n ≡ some (text_at xs n)
  half-at_n = elim (Bool-cases (m == n)) [
    | inl same ↦
        subst (λ k. get_elem? (set_elem xs m (text_at xs n)) k ≡ some (text_at xs n))
          ((==_iff m n).0 same) (get_elem?-set_here xs m (text_at xs n) hm)
    | inr other ↦
        get_elem?-set_other xs m n (text_at xs n) (apart m n other) ∙ get_elem?-below xs n hn
  ]

  pub tally-swapped : (i : String) → tally i (swapped xs m n) ≡ tally i xs
  unfolding swapped
  tally-swapped i = omega (
    arith,
    tally-set i xs m (text_at xs m) (text_at xs n) (get_elem?-below xs m hm),
    tally-set i half n (text_at xs n) (text_at xs m) half-at_n,
  )

  swapped-at_n : get_elem? (swapped xs m n) n ≡ some (text_at xs m)
  unfolding swapped
  swapped-at_n =
      get_elem?-set_here half n (text_at xs m)
        (subst (λ l. n < l) (sym (length-set xs m (text_at xs n))) hn)

  swapped-at_m : get_elem? (swapped xs m n) m ≡ some (text_at xs n)
  unfolding swapped
  swapped-at_m = elim (Bool-cases (n == m)) [
    | inl same ↦
        subst (λ k. get_elem? (swapped xs m n) k ≡ some (text_at xs k)) ((==_iff n m).0 same)
          (swapped-at_n ∙ ap (λ k. some (text_at xs k)) (sym ((==_iff n m).0 same)))
        ∙ ap (λ k. some (text_at xs k)) (sym ((==_iff n m).0 same))
    | inr other ↦
        get_elem?-set_other half n m (text_at xs m) (apart n m other)
        ∙ get_elem?-set_here xs m (text_at xs n) hm
  ]

  pub swapped-IsSwapped : IsSwapped xs m n (swapped xs m n)
  unfolding swapped
  swapped-IsSwapped = record {
    at_m = swapped-at_m ∙ sym (get_elem?-below xs n hn);
    at_n = swapped-at_n ∙ sym (get_elem?-below xs m hm);
    others = λ k hmk hnk.
        get_elem?-set_other half n k (text_at xs m) hnk
        ∙ get_elem?-set_other xs m k (text_at xs n) hmk;
    long = length-set half n (text_at xs m) ∙ length-set xs m (text_at xs n);
  }
