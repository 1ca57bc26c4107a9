-- ===== src/OpStream/Resume.antt =====
-- opstream/replay.go: replay from a checkpoint.
use fuaran_go.Prelude.{
  ℕ, suc, ◌+◌, ◌≤◌, String, ◌≡◌, refl, sym, ap, ◌∙◌, subst, ◌↔◌, List, [], ◌∷◌, ◌++◌, true, false,
  ltb, leb, length, length-append, arith,
}
use fuaran_go.Wire.Core.{Core, Bytes}
use fuaran_go.Wire.Value.{Node}
use fuaran_go.Ops.Apply.{Outcome, applied, panicked}
use fuaran_go.Ops.Limits.{apply}
use fuaran_go.OpStream.Chain.{OpRecord, Spine, genesis_previous_hash}
use fuaran_go.OpStream.Sink.{
  InMemorySink, records_of, in_range, insert_sorted, sorted, latest_sequence, replay,
}
use fuaran_go.OpStream.Replay.{Replayed, replayed, apply_failed, crashed, apply_from, apply_to}
use fuaran_go.OpStream.Linked.{Linked, next, last_hash}
use fuaran_go.OpStream.Chained.{IsChained, next_sequence}

module _ (core : Core) where
  -- the outcome of one op, then the other records
  abbrev step : Node → OpRecord → List OpRecord → Outcome → Replayed
  step i r rs (applied t) = apply_from core i t rs
  step i r rs (Outcome.refused t e) = apply_failed i r.sequence e
  step i r rs panicked = crashed

  step-append :
      (i : Node) (r : OpRecord) (xs ys : List OpRecord) (u : Node) (o : Outcome)
      → ((t : Node)
          → apply_from core i t xs ≡ replayed u
          → apply_from core i t (xs ++ ys) ≡ apply_from core i u ys)
      → step i r xs o ≡ replayed u
      → step i r (xs ++ ys) o ≡ apply_from core i u ys
  step-append i r xs ys u (applied t) ih h = ih t h
  step-append i r xs ys u (Outcome.refused t e) ih h = cc
  step-append i r xs ys u panicked ih h = cc

  apply_from-append :
      (i t : Node) (xs ys : List OpRecord) (u : Node)
      → apply_from core i t xs ≡ replayed u
      → apply_from core i t (xs ++ ys) ≡ apply_from core i u ys
  unfolding apply_from
  apply_from-append i t [] ys u h = let e : t ≡ u = cc in ap (λ x. apply_from core i x ys) e
  apply_from-append i t (r ∷ xs) ys u h =
      step-append i r xs ys u (apply core r.op t) (λ x. apply_from-append i x xs ys u) h

  step-initial :
      (i j : Node) (r : OpRecord) (rs : List OpRecord) (u : Node) (o : Outcome)
      → ((t : Node) → apply_from core i t rs ≡ replayed u → apply_from core j t rs ≡ replayed u)
      → step i r rs o ≡ replayed u
      → step j r rs o ≡ replayed u
  step-initial i j r rs u (applied t) ih h = ih t h
  step-initial i j r rs u (Outcome.refused t e) ih h = cc
  step-initial i j r rs u panicked ih h = cc

  -- a replay that succeeds does not look at the tree it would give back
  apply_from-initial :
      (i j t : Node) (rs : List OpRecord) (u : Node)
      → apply_from core i t rs ≡ replayed u
      → apply_from core j t rs ≡ replayed u
  unfolding apply_from
  apply_from-initial i j t [] u h = let e : t ≡ u = cc in ap replayed e
  apply_from-initial i j t (r ∷ rs) u h =
      step-initial i j r rs u (apply core r.op t) (λ x. apply_from-initial i j x rs u) h

  pub apply_to-resume :
      (initial snapshot : Node) (xs ys : List OpRecord) (u : Node)
      → apply_to core initial xs ≡ replayed snapshot
      → (apply_to core initial (xs ++ ys) ≡ replayed u) ↔ (apply_to core snapshot ys ≡ replayed u)
  unfolding apply_to
  apply_to-resume initial snapshot xs ys u h =
      let e = apply_from-append initial initial xs ys snapshot h in
      (
        λ p. apply_from-initial initial snapshot snapshot ys u (sym e ∙ p),
        λ p. e ∙ apply_from-initial snapshot initial snapshot ys u p,
      )

module _ (core : Core) (spine : Spine) where
  abbrev Chain : ℕ → Bytes → List OpRecord → Type 0
  Chain = Linked core spine

  Chain-suffix :
      (n : ℕ) (h : Bytes) (xs ys : List OpRecord)
      → Chain n h (xs ++ ys)
      → Chain (n + length xs) (last_hash h xs) ys
  Chain-suffix n h [] ys c = subst (λ m. Chain m h ys) (omega arith) c
  Chain-suffix n h (x ∷ xs) ys (next place link hash more) =
      subst (λ m. Chain m (last_hash x.hash xs) ys) (omega arith)
        (Chain-suffix (suc n) x.hash xs ys more)

  in_range-all :
      (n : ℕ) (h : Bytes) (rs : List OpRecord) (from to : ℕ)
      → Chain n h rs
      → from ≤ n
      → n + length rs ≤ suc to
      → in_range from to rs ≡ rs
  in_range-all n h [] from to c a b = refl
  in_range-all n h (r ∷ rs) from to (next place link hash more) a b =
      let low : leb from r.sequence ≡ true = ground arith in
      let high : leb r.sequence to ≡ true = ground arith in
      rw (low, in_range)
        (rw (high, in_range)
          (ap (λ l. r ∷ l)
            (in_range-all (suc n) r.hash rs from to more (omega arith) (omega arith))))

  in_range-skip :
      (n : ℕ) (h : Bytes) (xs ys : List OpRecord) (from to : ℕ)
      → Chain n h (xs ++ ys)
      → from ≡ n + length xs
      → in_range from to (xs ++ ys) ≡ in_range from to ys
  in_range-skip n h [] ys from to c e = refl
  in_range-skip n h (x ∷ xs) ys from to (next place link hash more) e =
      let low : leb from x.sequence ≡ false = ground arith in
      rw (low, in_range) (in_range-skip (suc n) x.hash xs ys from to more (omega arith))

  sorted-Chain : (n : ℕ) (h : Bytes) (rs : List OpRecord) → Chain n h rs → sorted rs ≡ rs
  sorted-Chain n h [] c = refl
  sorted-Chain n h (r ∷ []) c = refl
  sorted-Chain n h (r ∷ x ∷ rs) (next place link hash (next place' link' hash' more)) =
      let less : ltb x.sequence r.sequence ≡ false = ground arith in
      ap (insert_sorted r) (sorted-Chain (suc n) r.hash (x ∷ rs) (next place' link' hash' more))
      ∙ rw (less, insert_sorted) refl

  -- The records of a chained stream behind its first ones are what the sink replays from the sequence
  -- after those up to the latest.
  pub replay-suffix :
      (s : InMemorySink) (stream : String) (xs ys : List OpRecord)
      → IsChained core spine s stream
      → records_of s stream ≡ xs ++ ys
      → replay s stream (suc (length xs)) (latest_sequence s stream) ≡ ys
  unfolding replay
  replay-suffix s stream xs ys c e =
      let chain = subst (Chain 1 genesis_previous_hash) e c.chain in
      let behind = Chain-suffix 1 genesis_previous_hash xs ys chain in
      let last = next_sequence core spine s stream c in
      ap (λ l. sorted (in_range (suc (length xs)) (latest_sequence s stream) l)) e
      ∙ ap sorted (
          in_range-skip 1 genesis_previous_hash xs ys (suc (length xs)) (latest_sequence s stream)
            chain (omega arith))
      ∙ ap sorted (
          in_range-all (1 + length xs) (last_hash genesis_previous_hash xs) ys (suc (length xs))
            (latest_sequence s stream) behind (omega arith)
            (omega (arith, ap (λ l. length l) e, length-append {0} xs ys)))
      ∙ sorted-Chain (1 + length xs) (last_hash genesis_previous_hash xs) ys behind
