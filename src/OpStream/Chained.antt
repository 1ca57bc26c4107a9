-- ===== src/OpStream/Chained.antt =====
-- opstream/sink.go and opstream/replay.go: what the sink reads off a chained stream.
use fuaran_go.Prelude.{
  ℕ, suc, ◌+◌, ◌-◌, ◌≤◌, String, ◌≡◌, refl, ap, ◌∙◌, List, [], ◌∷◌, true, false, some, str_eq,
  eq_refl, ltb, leb, ◌==◌, if◌then◌else◌, length, arith, Bool-cases, inl, inr,
}
use fuaran_go.Wire.Core.{Core, Bytes}
use fuaran_go.OpStream.Chain.{OpRecord, Spine, genesis_previous_hash}
use fuaran_go.OpStream.Sink.{
  InMemorySink, lookup, write, records_of, has_sequence, head, latest_of, latest_sequence, in_range,
  sorted, replay,
}
use fuaran_go.OpStream.Replay.{previous_hash_for, first_hash}
use fuaran_go.OpStream.Linked.{Linked, done, next, last_hash}

pub lookup-write {ℓ} :
    {A : Type ℓ} (k : String) (v : A) (m : List (String × A)) → lookup k (write k v m) ≡ some v
unfolding lookup write
lookup-write k v [] = rw (eq_refl k) refl
lookup-write k v ((j, w) ∷ m) = elim (Bool-cases (str_eq j k)) [
  | inl same ↦ rw (same, lookup, write) (rw (eq_refl k, lookup) refl)
  | inr other ↦ rw (other, lookup, write) (rw (other, lookup) (lookup-write k v m))
]

module _ (core : Core) (spine : Spine) where
  abbrev pub Chain : ℕ → Bytes → List OpRecord → Type 0
  Chain = Linked core spine

  -- a stream of the sink is a chain from genesis on, and the head is the hash of its last record
  pub record IsChained (s : InMemorySink) (stream : String) : Type 0 where
    pub chain : Linked core spine 1 genesis_previous_hash (records_of s stream)
    pub headed : head s stream ≡ last_hash genesis_previous_hash (records_of s stream)

  pub latest_of-Chain :
      (n : ℕ) (h : Bytes) (rs : List OpRecord) → Chain (suc n) h rs → latest_of n rs ≡ n + length rs
  latest_of-Chain n h [] done = omega arith
  latest_of-Chain n h (r ∷ rs) (next place link hash more) =
      let e : (if ltb n r.sequence then r.sequence else n) ≡ suc n = ground arith in
      ap (λ l. latest_of l rs) e ∙ latest_of-Chain (suc n) r.hash rs more ∙ omega arith

  pub has_sequence-Chain :
      (n : ℕ) (h : Bytes) (rs : List OpRecord)
      → Chain n h rs
      → (m : ℕ) → n + length rs ≤ m
      → has_sequence m rs ≡ false
  has_sequence-Chain n h [] done m k = refl
  has_sequence-Chain n h (r ∷ rs) (next place link hash more) m k =
      let rest = has_sequence-Chain (suc n) r.hash rs more m (omega arith) in ground arith

  -- the one record at the last sequence
  first_hash-Chain :
      (n : ℕ) (h : Bytes) (r : OpRecord) (rs : List OpRecord) (m : ℕ)
      → Chain n h (r ∷ rs)
      → m ≡ n + length rs
      → first_hash (sorted (in_range m m (r ∷ rs))) ≡ some (last_hash r.hash rs)
  first_hash-Chain n h r [] m (next place link hash more) e =
      let a : leb m r.sequence ≡ true = ground arith in
      let b : leb r.sequence m ≡ true = ground arith in rw (a, in_range) (rw (b, in_range) refl)
  first_hash-Chain n h r (x ∷ rs) m (next place link hash more) e =
      let a : leb m r.sequence ≡ false = ground arith in
      rw (a, in_range) (first_hash-Chain (suc n) r.hash x rs m more (omega arith))

  -- the append computes the link that the head has
  pub previous_hash_for-Chain :
      (s : InMemorySink) (stream : String) (rs : List OpRecord)
      → records_of s stream ≡ rs
      → Chain 1 genesis_previous_hash rs
      → previous_hash_for s stream (suc (length rs)) ≡ some (last_hash genesis_previous_hash rs)
  unfolding previous_hash_for replay
  previous_hash_for-Chain s stream [] e c = refl
  previous_hash_for-Chain s stream (r ∷ rs) e c =
      let a : (suc (suc (length rs)) == 1) ≡ false = ground arith in
      rw (a, previous_hash_for)
        (rw e (
          first_hash-Chain 1 genesis_previous_hash r rs (suc (suc (length rs)) - 1) c
            (omega arith)))

  -- the sequence that the next record takes
  pub next_sequence :
      (s : InMemorySink) (stream : String)
      → IsChained s stream
      → suc (latest_sequence s stream) ≡ suc (length (records_of s stream))
  unfolding latest_sequence
  next_sequence s stream c =
      let e = latest_of-Chain 0 genesis_previous_hash (records_of s stream) c.chain in omega arith
