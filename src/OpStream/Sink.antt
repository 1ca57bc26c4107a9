-- ===== src/OpStream/Sink.antt =====
-- opstream/sink.go: the in-memory sink. Its maps are association lists; each method runs under the
-- lock of the sink, so it is one step on the state. A failed method leaves the sink as it was.
use fuaran_go.Prelude.{
  ℕ, String, List, [], ◌∷◌, ◌++◌, Bool, false, ◌&&◌, ◌||◌, Option, none, some, str_eq, ltb, leb,
  ◌==◌, if◌then◌else◌,
}
use fuaran_go.Wire.Core.{Bytes, bytes_eq}
use fuaran_go.OpStream.Chain.{OpRecord, genesis_previous_hash}

pub record InMemorySink : Type 0 where
  pub records : List (String × List OpRecord)
  pub heads : List (String × Bytes)

abbrev pub new_in_memory_sink : InMemorySink
new_in_memory_sink = record { records = []; heads = [] }

-- a map by its first pair
unfoldable pub lookup {ℓ} : {A : Type ℓ} → String → List (String × A) → Option A
lookup k [] = none
lookup k ((j, v) ∷ kvs) = if str_eq j k then some v else lookup k kvs

unfoldable pub write {ℓ} : {A : Type ℓ} → String → A → List (String × A) → List (String × A)
write k v [] = (k, v) ∷ []
write k v ((j, w) ∷ kvs) =
    let rest = write k v kvs in if str_eq j k then (k, v) ∷ kvs else (j, w) ∷ rest

abbrev pub or_no_records : Option (List OpRecord) → List OpRecord
or_no_records none = []
or_no_records (some rs) = rs

abbrev pub records_of : InMemorySink → String → List OpRecord
records_of s stream = or_no_records (lookup stream s.records)

abbrev pub has_sequence : ℕ → List OpRecord → Bool
has_sequence n [] = false
has_sequence n (r ∷ rs) = r.sequence == n || has_sequence n rs

pub data Appended : Type 0 where
  landed : InMemorySink → Appended
  duplicate : Appended
  -- the actual head
  stale : Bytes → Appended

unfoldable pub append : OpRecord → InMemorySink → Appended
append r s =
    if has_sequence r.sequence (records_of s r.stream_id)
    then duplicate
    else landed (record {
      records = write r.stream_id (records_of s r.stream_id ++ r ∷ []) s.records;
      heads = write r.stream_id r.hash s.heads;
    })

abbrev pub in_range : ℕ → ℕ → List OpRecord → List OpRecord
in_range from to [] = []
in_range from to (r ∷ rs) =
    let rest = in_range from to rs in
    if leb from r.sequence && leb r.sequence to then r ∷ rest else rest

-- sort.Slice by sequence; a sink holds a sequence of a stream once, so the order is determined
abbrev pub insert_sorted : OpRecord → List OpRecord → List OpRecord
insert_sorted r [] = r ∷ []
insert_sorted r (x ∷ xs) =
    let rest = insert_sorted r xs in if ltb x.sequence r.sequence then x ∷ rest else r ∷ x ∷ xs

abbrev pub sorted : List OpRecord → List OpRecord
sorted [] = []
sorted (r ∷ rs) = insert_sorted r (sorted rs)

unfoldable pub replay : InMemorySink → String → ℕ → ℕ → List OpRecord
replay s stream from to = sorted (in_range from to (records_of s stream))

abbrev pub latest_of : ℕ → List OpRecord → ℕ
latest_of latest [] = latest
latest_of latest (r ∷ rs) = latest_of (if ltb latest r.sequence then r.sequence else latest) rs

unfoldable pub latest_sequence : InMemorySink → String → ℕ
latest_sequence s stream = latest_of 0 (records_of s stream)

abbrev pub or_genesis : Option Bytes → Bytes
or_genesis none = genesis_previous_hash
or_genesis (some h) = h

unfoldable pub head : InMemorySink → String → Bytes
head s stream = or_genesis (lookup stream s.heads)

unfoldable pub append_if : OpRecord → Bytes → InMemorySink → Appended
unfolding append head
append_if r expected s =
    if bytes_eq (head s r.stream_id) expected then append r s else stale (head s r.stream_id)
