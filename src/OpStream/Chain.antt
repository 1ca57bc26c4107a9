-- ===== src/OpStream/Chain.antt =====
-- opstream/types.go and opstream/chain.go: the records of a stream and its hash chain. A sequence is
-- a natural number: the sinks start at 1 and count upwards.
use fuaran_go.Prelude.{
  ℕ, suc, ◌+◌, ◌-◌, ◌%◌, ◌^◌, String, List, [], ◌∷◌, ◌++◌, not, Option, none, some, ◌==◌,
  if◌then◌else◌,
}
use fuaran_go.Prelude.Int.{ℤ}
use fuaran_go.Wire.Core.{Core, Bytes, codes, bytes_eq, itoa, format_int}
use fuaran_go.Wire.Encode.{RowCellRefused, Encoded, ok, refused, encode_value}
use fuaran_go.Wire.Value.{obj, Obj}

pub data Actor : Type 0 where
  human : String → Actor
  agent : String → String → String → Actor

-- the stable attribution id
abbrev pub actor_id : Actor → String
actor_id (human i) = i
actor_id (agent model version i) = i

pub data OpResult : Type 0 where
  success : OpResult
  failure : String → String → OpResult

pub record OpRecord : Type 0 where
  pub stream_id : String
  pub sequence : ℕ
  pub previous_hash : Bytes
  pub hash : Bytes
  pub op : Obj
  pub actor : Actor
  pub timestamp : ℤ
  pub result : OpResult
  pub prompt_id : Option String

-- The chain of the third-party spine module: the text of an actor, the pre-image of a record from its
-- index, actor and entry, and the hash that links a pre-image to the record before it.
pub record Spine : Type 0 where
  pub encode_actor : Actor → Bytes
  pub payload : ℕ → Bytes → Bytes → Bytes
  pub link : Bytes → Bytes → Bytes

abbrev pub chain_format_version : ℕ
chain_format_version = 2

abbrev pub genesis_previous_hash : Bytes
genesis_previous_hash = codes "0000000000000000000000000000000000000000000000000000000000000000"

module _ (core : Core) where
  abbrev pub encode_result : OpResult → Bytes
  encode_result success = codes "{\"kind\":\"success\"}"
  encode_result (failure code message) =
      codes "{\"kind\":\"failure\",\"code\":"
      ++ core.escape_string code
      ++ codes ",\"message\":"
      ++ core.escape_string message
      ++ codes "}"

  abbrev prompt_text : Option String → Bytes
  prompt_text none = codes "null"
  prompt_text (some p) = core.escape_string p

  abbrev entry_around : Encoded → ℤ → Option String → OpResult → Encoded
  entry_around (refused r) ts prompt result = refused r
  entry_around (ok text) ts prompt result = ok (
      codes "{\"v\":"
      ++ itoa chain_format_version
      ++ codes ",\"op\":"
      ++ text
      ++ codes ",\"ts\":"
      ++ format_int ts
      ++ codes ",\"promptId\":"
      ++ prompt_text prompt
      ++ codes ",\"result\":"
      ++ encode_result result
      ++ codes "}")

  unfoldable pub encode_stream_entry : Obj → ℤ → Option String → OpResult → Encoded
  encode_stream_entry op ts prompt result =
      entry_around (encode_value core (obj op)) ts prompt result

module _ (core : Core) (spine : Spine) where
  abbrev linked : Bytes → ℕ → Actor → Encoded → Encoded
  linked previous sequence actor (refused r) = refused r
  linked previous sequence actor (ok entry) = ok (
      spine.link previous
        (spine.payload ((sequence + 2 ^ 64 - 1) % 2 ^ 64) (spine.encode_actor actor) entry))

  unfoldable pub compute_hash : Bytes → Obj → ℕ → ℤ → Actor → Option String → OpResult → Encoded
  compute_hash previous op sequence ts actor prompt result =
      linked previous sequence actor (encode_stream_entry core op ts prompt result)

  unfoldable pub record_hash : OpRecord → Encoded
  record_hash r =
      compute_hash r.previous_hash r.op r.sequence r.timestamp r.actor r.prompt_id r.result

-- the first violation of a chain
pub data ChainFault : Type 0 where
  -- the expected and the actual sequence
  out_of_order : ℕ → ℕ → ChainFault
  previous_hash_mismatch : ℕ → Bytes → Bytes → ChainFault
  hash_mismatch : ℕ → Bytes → Bytes → ChainFault
  not_encodable : RowCellRefused → ChainFault

module _ (core : Core) (spine : Spine) where
  -- the checks of one record, then those of the `rest`
  abbrev pub check_hash : OpRecord → Encoded → Option ChainFault → Option ChainFault
  check_hash r (refused e) rest = some (not_encodable e)
  check_hash r (ok h) rest =
      if not (bytes_eq h r.hash) then some (hash_mismatch r.sequence h r.hash) else rest

  -- the records from an expected sequence and previous hash
  unfoldable pub verify_from : ℕ → Bytes → List OpRecord → Option ChainFault
  verify_from expected previous [] = none
  verify_from expected previous (r ∷ rs) =
      let rest = verify_from (suc expected) r.hash rs in
      if not (r.sequence == expected)
      then some (out_of_order expected r.sequence)
      else if not (bytes_eq r.previous_hash previous)
      then some (previous_hash_mismatch r.sequence previous r.previous_hash)
      else check_hash r (record_hash core spine r) rest

  unfoldable pub verify_chain : List OpRecord → Option ChainFault
  unfolding verify_from
  verify_chain records = verify_from 1 genesis_previous_hash records
