-- ===== src/OpStream/Linked.antt =====
-- opstream/chain.go: VerifyChain against an independent description of a linked chain.
use fuaran_go.Prelude.{
  ℕ, suc, ◌+◌, ◌≡◌, refl, ap, subst, ◌↔◌, List, [], ◌∷◌, ◌++◌, true, Option, none, ◌==◌, ==_iff,
  length, arith, Bool-cases, inl, inr,
}
use fuaran_go.Wire.Core.{Core, Bytes, bytes_eq}
use fuaran_go.Wire.Encode.{Encoded, ok, refused}
use fuaran_go.OpStream.Chain.{
  OpRecord, Spine, ChainFault, record_hash, verify_from, verify_chain, check_hash,
  genesis_previous_hash,
}

pub bytes_eq-same : (a b : Bytes) → bytes_eq a b ≡ true → a ≡ b
bytes_eq-same [] [] h = refl
bytes_eq-same [] (b ∷ bs) h = cc
bytes_eq-same (a ∷ xs) [] h = cc
bytes_eq-same (a ∷ xs) (b ∷ bs) h = elim (Bool-cases (a == b)) [
  | inl same ↦ cc ((==_iff a b).0 same, bytes_eq-same xs bs (rw (same, bytes_eq) at h))
  | inr other ↦ cc (rw (other, bytes_eq) at h)
]

pub bytes_eq_refl : (a : Bytes) → bytes_eq a a ≡ true
bytes_eq_refl [] = refl
bytes_eq_refl (a ∷ xs) = rw ((==_iff a a).1 refl, bytes_eq) (bytes_eq_refl xs)

-- the hash of the last record
abbrev pub last_hash : Bytes → List OpRecord → Bytes
last_hash h [] = h
last_hash h (r ∷ rs) = last_hash r.hash rs

pub last_hash-append :
    (h : Bytes) (rs : List OpRecord) (r : OpRecord) → last_hash h (rs ++ r ∷ []) ≡ r.hash
last_hash-append h [] r = refl
last_hash-append h (x ∷ rs) r = last_hash-append x.hash rs r

module _ (core : Core) (spine : Spine) where
  -- records with consecutive sequences, each linked to the one before it and with the hash of its fields
  pub data Linked : ℕ → Bytes → List OpRecord → Type 0 where
    done : {n : ℕ} {h : Bytes} → Linked n h []
    next :
        {n : ℕ} {h : Bytes} {r : OpRecord} {rs : List OpRecord}
        → r.sequence ≡ n
        → r.previous_hash ≡ h
        → record_hash core spine r ≡ ok r.hash
        → Linked (suc n) r.hash rs
        → Linked n h (r ∷ rs)

  -- the check of one hash
  check_hash-none :
      (r : OpRecord) (e : Encoded) (rest : Option ChainFault)
      → check_hash core spine r e rest ≡ none
      → (e ≡ ok r.hash) × (rest ≡ none)
  check_hash-none r (refused e) rest h = cc
  check_hash-none r (ok b) rest h = elim (Bool-cases (bytes_eq b r.hash)) [
    | inl same ↦ (ap ok (bytes_eq-same b r.hash same), rw (same, check_hash) at h)
    | inr other ↦ cc (rw (other, check_hash) at h)
  ]

  verify_from-Linked :
      (n : ℕ) (h : Bytes) (rs : List OpRecord)
      → verify_from core spine n h rs ≡ none
      → Linked n h rs
  unfolding verify_from
  verify_from-Linked n h [] e = done
  verify_from-Linked n h (r ∷ rs) e = elim (Bool-cases (r.sequence == n)) [
    | inr other ↦ cc (rw (other, verify_from) at e)
    | inl place ↦ elim (Bool-cases (bytes_eq r.previous_hash h)) [
      | inr other ↦ cc (rw (place, other, verify_from) at e)
      | inl link ↦
          let (hash, rest) =
            check_hash-none r (record_hash core spine r) (verify_from core spine (suc n) r.hash rs)
              (rw (place, link, verify_from) at e) in
          next ((==_iff r.sequence n).0 place) (bytes_eq-same r.previous_hash h link) hash
            (verify_from-Linked (suc n) r.hash rs rest)
    ]
  ]

  Linked-verify_from :
      (n : ℕ) (h : Bytes) (rs : List OpRecord)
      → Linked n h rs
      → verify_from core spine n h rs ≡ none
  unfolding verify_from
  Linked-verify_from n h [] done = refl
  Linked-verify_from n h (r ∷ rs) (next place link hash more) =
      rw ((==_iff r.sequence n).1 place, verify_from)
        (rw (subst (λ x. bytes_eq r.previous_hash x ≡ true) link (bytes_eq_refl r.previous_hash))
          (rw (hash) (rw (bytes_eq_refl r.hash) (Linked-verify_from (suc n) r.hash rs more))))

  -- VerifyChain finds no violation exactly in the chains that are linked from genesis on.
  pub verify_chain_iff :
      (rs : List OpRecord) → (verify_chain core spine rs ≡ none) ↔ Linked 1 genesis_previous_hash rs
  unfolding verify_chain
  verify_chain_iff rs =
      (verify_from-Linked 1 genesis_previous_hash rs, Linked-verify_from 1 genesis_previous_hash rs)

  -- A chain grows by a record that is linked to its last.
  pub Linked-append :
      (n : ℕ) (h : Bytes) (rs : List OpRecord) (r : OpRecord)
      → Linked n h rs
      → r.sequence ≡ n + length rs
      → r.previous_hash ≡ last_hash h rs
      → record_hash core spine r ≡ ok r.hash
      → Linked n h (rs ++ r ∷ [])
  Linked-append n h [] r done s p e = next (omega arith) p e done
  Linked-append n h (x ∷ rs) r (next place link hash more) s p e =
      next place link hash (Linked-append (suc n) x.hash rs r more (omega arith) p e)
