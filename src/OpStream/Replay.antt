-- ===== src/OpStream/Replay.antt =====
-- opstream/replay.go: replay through the apply engine, and the appends of applied ops. The hook
-- OnSinkError is an observer and is not modelled; what it would be told is the outcome of the append.
use fuaran_go.Prelude.{
  ℕ, zero, suc, ◌+◌, ◌-◌, String, List, [], ◌∷◌, Option, none, some, ◌==◌, if◌then◌else◌,
}
use fuaran_go.Prelude.Int.{ℤ}
use fuaran_go.Wire.Core.{Core, Bytes}
use fuaran_go.Wire.Encode.{RowCellRefused, Encoded, ok, refused}
use fuaran_go.Wire.Value.{Obj, Node}
use fuaran_go.Ops.Apply.{ErrorCode, Outcome, applied, panicked}
use fuaran_go.Ops.Limits.{apply}
use fuaran_go.OpStream.Chain.{human, success, OpRecord, Spine, genesis_previous_hash, compute_hash}
use fuaran_go.OpStream.Sink.{
  InMemorySink, Appended, landed, duplicate, stale, append, append_if, head, latest_sequence,
  replay,
}

pub data Replayed : Type 0 where
  replayed : Node → Replayed
  -- with the sequence of the record whose op did not apply
  apply_failed : Node → ℕ → ErrorCode → Replayed
  crashed : Replayed

module _ (core : Core) where
  -- `initial` is given back on a failure
  unfoldable pub apply_from : Node → Node → List OpRecord → Replayed
  apply_from initial tree [] = replayed tree
  apply_from initial tree (r ∷ rs) = elim (apply core r.op tree) [
    | applied t ↦ apply_from initial t rs
    | Outcome.refused t e ↦ apply_failed initial r.sequence e
    | panicked ↦ crashed
  ]

  unfoldable pub apply_to : Node → List OpRecord → Replayed
  unfolding apply_from
  apply_to initial records = apply_from initial initial records

  unfoldable pub replay_stream : InMemorySink → String → Node → ℕ → ℕ → Replayed
  unfolding apply_to
  replay_stream s stream initial from to =
      apply_to initial (replay s stream from (if to == 0 then latest_sequence s stream else to))

pub record PersistContext : Type 0 where
  pub stream_id : String
  pub user_id : String
  pub prompt_id : Option String
  pub timestamp : ℤ

pub data Persisted : Type 0 where
  persisted : InMemorySink → OpRecord → Persisted
  gap : Persisted
  not_hashed : RowCellRefused → Persisted
  rejected : Persisted
  attempts_exceeded : Persisted

abbrev pub first_hash : List OpRecord → Option Bytes
first_hash [] = none
first_hash (r ∷ rs) = some r.hash

-- the hash that the record at a sequence links to; `none` for a gap
unfoldable pub previous_hash_for : InMemorySink → String → ℕ → Option Bytes
previous_hash_for s stream sequence =
    if sequence == 1
    then some genesis_previous_hash
    else first_hash (replay s stream (sequence - 1) (sequence - 1))

abbrev pub new_record : PersistContext → Obj → ℕ → Bytes → Bytes → OpRecord
new_record ctx op sequence previous hash = record {
  stream_id = ctx.stream_id;
  sequence = sequence;
  previous_hash = previous;
  hash = hash;
  op = op;
  actor = human ctx.user_id;
  timestamp = ctx.timestamp;
  result = success;
  prompt_id = ctx.prompt_id;
}

abbrev pub after_append : OpRecord → Appended → Persisted
after_append r (landed s) = persisted s r
after_append r duplicate = rejected
after_append r (stale h) = rejected

module _ (core : Core) (spine : Spine) where
  abbrev pub hash_next : PersistContext → Obj → ℕ → Bytes → Encoded
  hash_next ctx op sequence previous =
      compute_hash core spine previous op sequence ctx.timestamp (human ctx.user_id) ctx.prompt_id
        success

  abbrev pub append_linked : PersistContext → Obj → ℕ → Option Bytes → InMemorySink → Persisted
  append_linked ctx op sequence none s = gap
  append_linked ctx op sequence (some previous) s = elim (hash_next ctx op sequence previous) [
    | refused e ↦ not_hashed e
    | ok h ↦
        after_append (new_record ctx op sequence previous h)
          (append (new_record ctx op sequence previous h) s)
  ]

  unfoldable pub append_op : PersistContext → Obj → InMemorySink → Persisted
  append_op ctx op s =
      let sequence = suc (latest_sequence s ctx.stream_id) in
      append_linked ctx op sequence (previous_hash_for s ctx.stream_id sequence) s

  abbrev pub max_append_attempts : ℕ
  max_append_attempts = 8

  -- the outcome of the conditional append, or the next attempt
  abbrev pub landing : OpRecord → Appended → Persisted → Persisted
  landing r (landed s) again = persisted s r
  landing r duplicate again = rejected
  landing r (stale actual) again = again

  abbrev pub one_attempt :
      PersistContext → Obj → ℕ → Bytes → InMemorySink → Encoded → Persisted → Persisted
  one_attempt ctx op sequence previous s (refused e) again = not_hashed e
  one_attempt ctx op sequence previous s (ok h) again =
      landing (new_record ctx op sequence previous h)
        (append_if (new_record ctx op sequence previous h) previous s) again

  -- The loop of AppendNext. `others` is what other writers do to the sink: before the first read of an
  -- attempt, between its two reads, and before its append.
  unfoldable pub attempt_append :
      (ℕ → InMemorySink → InMemorySink) → ℕ → PersistContext → Obj → InMemorySink → Persisted
  attempt_append others zero ctx op s = attempts_exceeded
  attempt_append others (suc n) ctx op s =
      let first = others (n + n + n) s in
      let second = others (n + n + n + 1) first in
      let third = others (n + n + n + 2) second in
      let previous = head first ctx.stream_id in
      let sequence = suc (latest_sequence second ctx.stream_id) in
      let again = attempt_append others n ctx op third in
      one_attempt ctx op sequence previous third (hash_next ctx op sequence previous) again

  unfoldable pub append_next :
      (ℕ → InMemorySink → InMemorySink) → PersistContext → Obj → InMemorySink → Persisted
  unfolding attempt_append
  append_next others ctx op s = attempt_append others max_append_attempts ctx op s

  -- ApplyAndPersist: the outcome of Apply, and what became of the append where it accepts
  unfoldable pub apply_and_persist :
      (ℕ → InMemorySink → InMemorySink)
      → PersistContext
      → Obj
      → Node
      → InMemorySink
      → Outcome × Option Persisted
  unfolding append_next
  apply_and_persist others ctx op tree s = elim (apply core op tree) [
    | applied t ↦ (applied t, some (append_next others ctx op s))
    | Outcome.refused t e ↦ (Outcome.refused tree e, none)
    | panicked ↦ (panicked, none)
  ]
