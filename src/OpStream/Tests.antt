-- ===== src/OpStream/Tests.antt =====
-- A small stream, and the theorems at it.
use fuaran_go.Prelude.{◌+◌, ◌≡◌, ◌≢◌, ◌↔◌, refl, [], ◌∷◌, ◌++◌, some, none, length}
use fuaran_go.Prelude.Int.{pos}
use fuaran_go.Wire.Core.{Bytes, codes, itoa, format_int}
use fuaran_go.Wire.Encode.{ok, encode_value}
use fuaran_go.Wire.Size.{value_size}
use fuaran_go.Wire.Value.{str, Obj, tagged, end, field, Node, get, set}
use fuaran_go.OpStream.Chain.{
  OpRecord, Spine, record_hash, compute_hash, encode_stream_entry, verify_chain,
  genesis_previous_hash,
}
use fuaran_go.OpStream.Sink.{
  InMemorySink, new_in_memory_sink, landed, stale, append, append_if, head, lookup, write,
  latest_sequence,
}
use fuaran_go.OpStream.Replay.{
  PersistContext, persisted, new_record, hash_next, apply_to, apply_from,
}
use fuaran_go.OpStream.Linked.{Linked, done, next, verify_chain_iff}
use fuaran_go.OpStream.Chained.{IsChained}
use fuaran_go.OpStream.Persist.{InStep, apply_and_persist-InStep}
use fuaran_go.OpStream.Sink.{replay}
use fuaran_go.OpStream.Replay.{apply_and_persist, replay_stream}
use fuaran_go.Ops.Apply.{applied}
use fuaran_go.OpStream.Stale.{append_if-stale}
use fuaran_go.Ops.Tests.Trees.{plain_core, tree, box}
use fuaran_go.Idl.Lookup.{
  ordered_children, kind_by_tag, find_kind, node_list_slot, node_arms, node_slots,
}
use fuaran_go.Idl.Kinds.{kinds}
use fuaran_go.Ops.Traverse.{
  all_ids, find_node, find_layout_parent, map_node, over, walk, child_slots, children, kind_slots,
  state_slots, layout_slots, key_slots, layout_children, switch_cases, case_slots,
  with_layout_children, set_kind_field,
}
use fuaran_go.Ops.Apply.Structure.{remove_node, remove_target}
use fuaran_go.Ops.Apply.Engine.{apply_step, apply_fuel, apply_one}
use fuaran_go.Ops.Limits.{
  apply, op_can_grow, inserted_nodes, inserted_fuel, grows_fuel, check_installed_ids,
}

-- a spine whose hash is the length of what it hashes
abbrev short_spine : Spine
short_spine = record {
  encode_actor = λ a. codes "a";
  payload = λ i a e. i ∷ (a ++ e);
  link = λ p x. (length p + length x) ∷ [];
}

abbrev remove_a : Obj
remove_a = tagged "RemoveNode" (field "target" (str "a") end)

abbrev ctx : PersistContext
ctx = record { stream_id = "s"; user_id = "u"; prompt_id = none; timestamp = pos 0 }

empty-IsChained : IsChained plain_core short_spine new_in_memory_sink "s"
unfolding lookup head
empty-IsChained = record { chain = done; headed = refl }

abbrev first_hash : Bytes
first_hash = 157 ∷ []

hashed :
    hash_next plain_core short_spine ctx remove_a 1 (head new_in_memory_sink "s") ≡ ok first_hash
unfolding compute_hash encode_stream_entry encode_value itoa format_int head lookup
hashed = refl

abbrev first_record : OpRecord
first_record = new_record ctx remove_a 1 genesis_previous_hash first_hash

verify_chain_iff_example :
    (verify_chain plain_core short_spine (first_record ∷ []) ≡ none)
    ↔ Linked plain_core short_spine 1 genesis_previous_hash (first_record ∷ [])
verify_chain_iff_example = verify_chain_iff plain_core short_spine (first_record ∷ [])

abbrev one_sink : InMemorySink
one_sink = record { records = ("s", first_record ∷ []) ∷ []; heads = ("s", first_hash) ∷ [] }

landed_first : append_if first_record genesis_previous_hash new_in_memory_sink ≡ landed one_sink
unfolding append_if append head lookup write
landed_first = refl

not_genesis : first_hash ≢ genesis_previous_hash
not_genesis e = cc

append_if-stale_example : append_if first_record genesis_previous_hash one_sink ≡ stale first_hash
append_if-stale_example =
    append_if-stale first_record first_record genesis_previous_hash new_in_memory_sink one_sink
      landed_first refl not_genesis

abbrev snapshot : Node
snapshot = box "root" (box "b" [] ∷ [])

accepted : apply plain_core remove_a tree ≡ applied snapshot
unfolding all_ids over walk child_slots kind_slots state_slots layout_slots key_slots
    layout_children ordered_children kind_by_tag find_kind kinds node_list_slot node_arms node_slots
    switch_cases value_size get find_node find_layout_parent case_slots children remove_target
    map_node with_layout_children set_kind_field set apply apply_one apply_fuel apply_step
    remove_node op_can_grow grows_fuel inserted_nodes inserted_fuel check_installed_ids
accepted = refl

empty-InStep : InStep plain_core short_spine new_in_memory_sink "s" tree tree
unfolding replay_stream apply_to apply_from latest_sequence lookup replay
empty-InStep = record { chained = empty-IsChained; replays = refl }

apply_and_persist-InStep_example :
    (next : InMemorySink) × (r : OpRecord) × (apply_and_persist plain_core short_spine
        (λ n x. x)
        ctx
        remove_a
        tree
        new_in_memory_sink
      ≡ (applied snapshot, some (persisted next r)))
    × InStep plain_core short_spine next "s" tree snapshot
unfolding lookup
apply_and_persist-InStep_example =
    apply_and_persist-InStep plain_core short_spine ctx remove_a new_in_memory_sink tree tree
      snapshot first_hash empty-InStep accepted hashed

abbrev remove_b : OpRecord
remove_b =
    new_record ctx (tagged "RemoveNode" (field "target" (str "b") end)) 2 first_hash first_hash

first_record-hash : record_hash plain_core short_spine first_record ≡ ok first_hash
unfolding record_hash compute_hash encode_stream_entry encode_value itoa format_int
first_record-hash = refl

one-IsChained : IsChained plain_core short_spine one_sink "s"
unfolding lookup head
one-IsChained = record { chain = next refl refl first_record-hash done; headed = refl }
