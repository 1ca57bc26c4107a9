-- ===== src/OpStream/Stale.antt =====
-- opstream/sink.go and opstream/replay.go: appends of several writers.
use fuaran_go.Prelude.{String, ◌≡◌, ◌≢◌, refl, sym, ap, ◌∙◌, List, [], Bool-cases, inl, inr}
use fuaran_go.Wire.Core.{Core, Bytes, bytes_eq}
use fuaran_go.Wire.Encode.{ok}
use fuaran_go.Wire.Value.{Obj}
use fuaran_go.OpStream.Chain.{OpRecord, Spine, record_hash}
use fuaran_go.OpStream.Sink.{
  InMemorySink, Appended, landed, stale, records_of, has_sequence, lookup, write, or_genesis,
  append, append_if, head,
}
use fuaran_go.OpStream.Linked.{bytes_eq-same}
use fuaran_go.OpStream.Chained.{lookup-write}

append-head :
    (r : OpRecord) (s t : InMemorySink) → append r s ≡ landed t → head t r.stream_id ≡ r.hash
unfolding append head
append-head r s t h = elim (Bool-cases (has_sequence r.sequence (records_of s r.stream_id))) [
  | inl twice ↦ cc (rw (twice, append) at h)
  | inr fresh ↦
      let e = rw (fresh, append) at h in
      let same : write r.stream_id r.hash s.heads ≡ t.heads = ap heads_of e in
      ap (λ m. or_genesis (lookup r.stream_id m)) (sym same)
      ∙ ap or_genesis (lookup-write r.stream_id r.hash s.heads)
]
  where
    heads_of : Appended → List (String × Bytes)
    heads_of (landed x) = x.heads
    heads_of _ = []

-- Of two writers that read the same head of a stream, the second is turned away with the hash of the
-- record that the first landed, if that is another hash.
pub append_if-stale :
    (first second : OpRecord) (seen : Bytes) (s t : InMemorySink)
    → append_if first seen s ≡ landed t
    → second.stream_id ≡ first.stream_id
    → first.hash ≢ seen
    → append_if second seen t ≡ stale first.hash
unfolding append_if
append_if-stale first second seen s t h same other =
    elim (Bool-cases (bytes_eq (head s first.stream_id) seen)) [
      | inr bad ↦ cc (rw (bad, append_if) at h)
      | inl good ↦
          let now : head t second.stream_id ≡ first.hash =
            ap (head t) same ∙ append-head first s t (rw (good, append_if) at h) in
          elim (Bool-cases (bytes_eq first.hash seen)) [
            | inl equal ↦ absurd (other (bytes_eq-same first.hash seen equal))
            | inr differ ↦ rw now (rw differ refl)
          ]
    ]

-- the sink in which a record landed, and that it was linked to the head there
pub record Lands (core : Core) (spine : Spine) (stream : String) (op : Obj) (r : OpRecord)
    (t : InMemorySink) : Type 0 where
  pub before : InMemorySink
  pub linked : r.previous_hash ≡ head before stream
  pub lands : append r before ≡ landed t
  pub hashed : record_hash core spine r ≡ ok r.hash
  pub op_kept : r.op ≡ op
