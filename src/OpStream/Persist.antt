-- ===== src/OpStream/Persist.antt =====
-- opstream/replay.go: ApplyAndPersist keeps the tree and its stream in step.
use fuaran_go.Prelude.{suc, String, ◌≡◌, refl, sym, ap, ◌∙◌, [], ◌∷◌, some, length}
use fuaran_go.Wire.Core.{Core, Bytes}
use fuaran_go.Wire.Encode.{ok}
use fuaran_go.Wire.Value.{Obj, Node}
use fuaran_go.Ops.Apply.{applied}
use fuaran_go.Ops.Limits.{apply}
use fuaran_go.OpStream.Chain.{OpRecord, Spine}
use fuaran_go.OpStream.Sink.{InMemorySink, records_of, head}
use fuaran_go.OpStream.Replay.{
  PersistContext, persisted, replayed, hash_next, apply_from, apply_to, replay_stream,
  apply_and_persist,
}
use fuaran_go.OpStream.Chained.{IsChained}
use fuaran_go.OpStream.Append.{append_next-IsAppended}
use fuaran_go.OpStream.Resume.{apply_to-resume, replay-suffix}

module _ (core : Core) (spine : Spine) where
  -- the stream is a chain, and its replay from the start gives the tree
  pub record InStep (s : InMemorySink) (stream : String) (initial tree : Node) : Type 0 where
    pub chained : IsChained core spine s stream
    pub replays : replay_stream core s stream initial 1 0 ≡ replayed tree

  -- a replay from the first sequence is a replay of all records
  replay_stream-whole :
      (s : InMemorySink) (stream : String) (initial : Node)
      → IsChained core spine s stream
      → replay_stream core s stream initial 1 0 ≡ apply_to core initial (records_of s stream)
  unfolding replay_stream
  replay_stream-whole s stream initial c =
      ap (apply_to core initial) (replay-suffix core spine s stream [] (records_of s stream) c refl)

  apply_to-one :
      (r : OpRecord) (op : Obj) (tree t : Node)
      → r.op ≡ op
      → apply core op tree ≡ applied t
      → apply_to core tree (r ∷ []) ≡ replayed t
  unfolding apply_to apply_from
  apply_to-one r op tree t e h =
      let e' : apply core r.op tree ≡ applied t = ap (λ o. apply core o tree) e ∙ h in
      rw (e', apply_to, apply_from) refl

  -- From a tree in step with its stream, an op that Apply accepts and that can be encoded is recorded,
  -- if there are no other writers, and the new tree is in step with the new stream: a replay of the
  -- stream from the start gives the tree that the caller has.
  pub apply_and_persist-InStep :
      (ctx : PersistContext) (op : Obj) (s : InMemorySink) (initial tree t : Node) (h : Bytes)
      → InStep s ctx.stream_id initial tree
      → apply core op tree ≡ applied t
      → hash_next core spine ctx op
          (suc (length (records_of s ctx.stream_id)))
          (head s ctx.stream_id)
        ≡ ok h
      → (next : InMemorySink) × (r : OpRecord) × (apply_and_persist core spine
            (λ n x. x)
            ctx
            op
            tree
            s
          ≡ (applied t, some (persisted next r)))
        × InStep next ctx.stream_id initial t
  unfolding apply_and_persist
  apply_and_persist-InStep ctx op s initial tree t h i accepted hashed =
      let a = append_next-IsAppended core spine ctx op s h i.chained hashed in
      let old = sym (replay_stream-whole s ctx.stream_id initial i.chained) ∙ i.replays in
      let more =
        (apply_to-resume core initial tree (records_of s ctx.stream_id) (a.written ∷ []) t old).1
          (apply_to-one a.written op tree t a.op_kept accepted) in
      (
        a.sink,
        a.written,
        rw (accepted, apply_and_persist) (ap (λ p. (applied t, some p)) a.outcome),
        record {
          chained = a.chained;
          replays =
              replay_stream-whole a.sink ctx.stream_id initial a.chained
              ∙ ap (apply_to core initial) a.records
              ∙ more;
        },
      )
