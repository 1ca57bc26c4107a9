-- ===== src/OpStream/Append.antt =====
-- opstream/replay.go and opstream/sink.go: the appends keep the chain of a stream.
use fuaran_go.Prelude.{
  ℕ, suc, ◌+◌, ◌≡◌, refl, sym, ap, ◌∙◌, subst, [], ◌∷◌, ◌++◌, some, length, arith,
}
use fuaran_go.Wire.Core.{Core, Bytes}
use fuaran_go.Wire.Encode.{ok}
use fuaran_go.Wire.Value.{Obj}
use fuaran_go.OpStream.Chain.{OpRecord, Spine, record_hash, genesis_previous_hash}
use fuaran_go.OpStream.Sink.{
  InMemorySink, landed, write, records_of, or_no_records, or_genesis, append, append_if, head,
  latest_sequence,
}
use fuaran_go.OpStream.Replay.{
  PersistContext, Persisted, persisted, new_record, hash_next, append_linked, append_op, landing,
  one_attempt, attempt_append, append_next,
}
use fuaran_go.OpStream.Linked.{last_hash, Linked-append, last_hash-append, bytes_eq_refl}
use fuaran_go.OpStream.Chained.{
  lookup-write, Chain, IsChained, has_sequence-Chain, previous_hash_for-Chain, next_sequence,
}

module _ (core : Core) (spine : Spine) where
  -- what an append on a chained stream gives
  pub record IsAppended (ctx : PersistContext) (op : Obj) (s : InMemorySink) (o : Persisted)
      : Type 0 where
    pub sink : InMemorySink
    pub written : OpRecord
    pub outcome : o ≡ persisted sink written
    pub op_kept : written.op ≡ op
    pub records : records_of sink ctx.stream_id ≡ records_of s ctx.stream_id ++ written ∷ []
    pub chained : IsChained core spine sink ctx.stream_id

  append-chain :
      (s : InMemorySink) (r : OpRecord)
      → IsChained core spine s r.stream_id
      → r.sequence ≡ 1 + length (records_of s r.stream_id)
      → r.previous_hash ≡ head s r.stream_id
      → record_hash core spine r ≡ ok r.hash
      → (t : InMemorySink) × (append r s ≡ landed t)
        × (records_of t r.stream_id ≡ records_of s r.stream_id ++ r ∷ [])
        × IsChained core spine t r.stream_id
  unfolding append head
  append-chain s r c place link hash =
      let rs = records_of s r.stream_id in
      let fresh =
        has_sequence-Chain core spine 1 genesis_previous_hash rs c.chain r.sequence (omega arith) in
      let t : InMemorySink = (record {
        records = write r.stream_id (rs ++ r ∷ []) s.records;
        heads = write r.stream_id r.hash s.heads;
      }) in
      let kept : records_of t r.stream_id ≡ rs ++ r ∷ [] =
        ap or_no_records (lookup-write r.stream_id (rs ++ r ∷ []) s.records) in
      (
        t,
        rw (fresh, append) refl,
        kept,
        record {
          chain = subst (Chain core spine 1 genesis_previous_hash) (sym kept) (
              Linked-append core spine 1 genesis_previous_hash rs r c.chain place (link ∙ c.headed)
                hash);
          headed =
              ap or_genesis (lookup-write r.stream_id r.hash s.heads)
              ∙ sym (
                  ap (last_hash genesis_previous_hash) kept
                  ∙ last_hash-append genesis_previous_hash rs r);
        },
      )

  -- a record that is made at the end of a chained stream
  made-chain :
      (ctx : PersistContext) (op : Obj) (s : InMemorySink) (h : Bytes)
      → IsChained core spine s ctx.stream_id
      → hash_next core spine ctx op
          (suc (length (records_of s ctx.stream_id)))
          (head s ctx.stream_id)
        ≡ ok h
      → (t : InMemorySink) × (append
            (new_record ctx op (suc (length (records_of s ctx.stream_id))) (head s ctx.stream_id) h)
            s
          ≡ landed t)
        × (records_of t ctx.stream_id
            ≡ records_of s ctx.stream_id
              ++ new_record ctx op
                  (suc (length (records_of s ctx.stream_id)))
                  (head s ctx.stream_id)
                  h
                ∷ [])
        × IsChained core spine t ctx.stream_id
  unfolding record_hash
  made-chain ctx op s h c e =
      append-chain s
        (new_record ctx op (suc (length (records_of s ctx.stream_id))) (head s ctx.stream_id) h) c
        (omega arith) refl e

  -- AppendOp on a chained stream lands one record of the op behind the others, and the stream is
  -- chained again, if the op can be encoded.
  pub append_op-IsAppended :
      (ctx : PersistContext) (op : Obj) (s : InMemorySink) (h : Bytes)
      → IsChained core spine s ctx.stream_id
      → hash_next core spine ctx op
          (suc (length (records_of s ctx.stream_id)))
          (head s ctx.stream_id)
        ≡ ok h
      → IsAppended ctx op s (append_op core spine ctx op s)
  unfolding append_op
  append_op-IsAppended ctx op s h c e =
      let rs = records_of s ctx.stream_id in
      let (t, lands, kept, chained) = made-chain ctx op s h c e in
      let link =
        previous_hash_for-Chain core spine s ctx.stream_id rs refl c.chain
        ∙ ap some (sym c.headed) in
      record {
        sink = t;
        written = new_record ctx op (suc (length rs)) (head s ctx.stream_id) h;
        outcome =
            rw (next_sequence core spine s ctx.stream_id c, append_op)
              (rw link (rw (e, append_linked) (rw lands refl)));
        op_kept = refl;
        records = kept;
        chained = chained;
      }

  one_attempt-lands :
      (ctx : PersistContext) (op : Obj) (s t : InMemorySink) (n m : ℕ) (h : Bytes)
      (again : Persisted)
      → n ≡ m
      → hash_next core spine ctx op m (head s ctx.stream_id) ≡ ok h
      → append (new_record ctx op m (head s ctx.stream_id) h) s ≡ landed t
      → one_attempt core spine ctx op n
          (head s ctx.stream_id)
          s
          (hash_next core spine ctx op n (head s ctx.stream_id))
          again
        ≡ persisted t (new_record ctx op m (head s ctx.stream_id) h)
  unfolding append_if
  one_attempt-lands ctx op s t n m h again place e lands =
      let r = new_record ctx op m (head s ctx.stream_id) h in
      let compared : append_if r (head s ctx.stream_id) s ≡ landed t =
        (rw (bytes_eq_refl (head s ctx.stream_id), append_if) lands) in
      ap
        (λ q.
          one_attempt core spine ctx op q (head s ctx.stream_id) s
            (hash_next core spine ctx op q (head s ctx.stream_id)) again)
        place
      ∙ ap (λ x. one_attempt core spine ctx op m (head s ctx.stream_id) s x again) e
      ∙ ap (λ x. landing core spine r x again) compared

  -- Without other writers, the first attempt of AppendNext on a chained stream lands one record of the
  -- op behind the others, and the stream is chained again, if the op can be encoded.
  pub append_next-IsAppended :
      (ctx : PersistContext) (op : Obj) (s : InMemorySink) (h : Bytes)
      → IsChained core spine s ctx.stream_id
      → hash_next core spine ctx op
          (suc (length (records_of s ctx.stream_id)))
          (head s ctx.stream_id)
        ≡ ok h
      → IsAppended ctx op s (append_next core spine (λ n t. t) ctx op s)
  unfolding append_next attempt_append
  append_next-IsAppended ctx op s h c e =
      let rs = records_of s ctx.stream_id in
      let (t, lands, kept, chained) = made-chain ctx op s h c e in
      record {
        sink = t;
        written = new_record ctx op (suc (length rs)) (head s ctx.stream_id) h;
        outcome =
            one_attempt-lands ctx op s t (suc (latest_sequence s ctx.stream_id)) (suc (length rs)) h
              (attempt_append core spine (λ n x. x) 7 ctx op s)
              (next_sequence core spine s ctx.stream_id c) e lands;
        op_kept = refl;
        records = kept;
        chained = chained;
      }
