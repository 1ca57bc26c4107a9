-- ===== src/Lib.antt =====
-- A model of the fuaran-go library: the tree-op apply engine over the decoded wire model, with the
-- vocabulary tables it reads, the canonical encoder it calls, the three-way merge of trees, the stream
-- that records the ops, and the server side that drives a tree.
--
-- Parts. A document is a tree of nodes; a node is an id, a kind object and extra members. The
-- vocabulary tables (wire/idl) say which field of a kind holds its ordered children and which hold
-- single nodes. The traversal (ops/traverse.go) reads every sub-node position off the tables and
-- rebuilds a node with another sub-node in one position; the engine (ops/apply.go) is a switch
-- over the op kinds that finds, rewrites and gathers ids by the traversal; UpdateProp
-- (ops/prop.go) parses a path, coerces the value by per-kind tables and stores it in canonical
-- form, for which it asks the encoder (wire/encode.go); the guards (ops/limits.go, and Apply in
-- ops/apply.go) look at the tree that the engine returns. A stream (opstream) records applied ops
-- in a hash chain: its sink appends a record, on demand only if the head is the one that the
-- writer saw, and a replay folds the records of a stream through Apply. A session (serverdriven)
-- holds a tree on the server: a step looks up the node of an event, asks the handler of the host
-- for ops, asks the capability gate about them and applies them; a connection numbers the frames
-- of ops and retains the last of them; the WebSocket codec reads and writes the frames of a socket,
-- and its read loop hands their texts on. The placement verbs (ops/placement.go) check a wanted
-- position and emit the ops that give it. The merge (merge) takes a base and two branches: it
-- compares where the branches have each node of the base, and then merges node by node, each facet
-- by its canonical bytes and the child lists by their ids, and it records a refusal for each cell
-- where both branches have a say.
--
-- Files.
--   Prelude                  names and lemmas that the other files share
--   Wire/Value, Wire/Size    wire/value.go, wire/node.go: the values, their fields and their size
--   Wire/Core                what the codec takes from a third-party module: a parameter
--   Wire/Encode              wire/encode.go, wire/rowfeed.go: appendValue and what it calls
--   Idl                      wire/idl: the tables (idl_gen.go), their types and their lookups
--   Ops/Traverse             ops/traverse.go: childSlots, findNode, mapNode, allIDs, ...; below it
--                            Slots (what the slots hold), Rebuild (what a rebuild does), Walk (the
--                            induction on sub-nodes), Laws (the equations of the walks), Edit (mapNode)
--   Ops/Prop                 ops/prop.go: Tables, Coerce, Store, Path (parsePath), Nested (updateNested)
--   Ops/Apply                ops/apply.go: Rewrite, Structure and Engine hold the cases of applyOne
--   Ops/Limits               ops/limits.go, and Apply, CanApply and checkInstalledIDs of ops/apply.go
--   Ops/Laws, Ops/Tests      theorems about the engine by op, and runs of it on small trees
--   Ops/Placement            ops/placement.go: reposition, CanPlace, PlaceOp, MoveOp, NudgeOp,
--                            ReorderOp; below it Reposition, Emitted (the ops in the engine), Applies
--                            (PlaceOp), Swap and Nudge (NudgeOp), Tests
--   Merge/Order              the order of strings and the sorted sets of strings that merge/merge.go uses
--   Merge/Refusal            merge/merge.go: Conflict, resolveAuthor, recordClassed, pickField, pickCanonical
--   Merge/Facets             merge/merge.go: mkNode, the canonical projections, mergeStyle
--   Merge/Places             merge/merge.go: indexPlacement, nodeIndex, detectConcurrentMoves
--   Merge/Engine             merge/merge.go: merge3 (one function per part of its body), Merge3Way,
--                            Merge3WayWithAuthor
--   Merge/Envelope           merge/merge.go: SortCanonical, EncodeEnvelope
--   Merge/Agreement, Moves, Contested, Lost, Absent, Primacy, Recorded, Mirror, Fuel, Tests
--                            theorems about the merge
--   OpStream/Chain           opstream/types.go, opstream/chain.go: the records and VerifyChain
--   OpStream/Sink            opstream/sink.go: InMemorySink
--   OpStream/Replay          opstream/replay.go: ApplyTo, AppendOp, AppendNext,
--                            ApplyAndPersist; what other writers do between the steps of AppendNext
--                            is an argument; its eight attempts are the constant of the code
--   ServerDriven/Nodes, Driver   serverdriven/driver.go: subNodes, findNode, Session.Step
--   ServerDriven/Gate            serverdriven/gate.go: CapabilityGate
--   ServerDriven/Connection      serverdriven/connection.go: Handle, pushOps, Resync
--   ServerDriven/WsFrame         serverdriven/wsframe.go, and ListenContext and frameLimit of
--                                serverdriven/ws.go; below it Numbers, Masks, Bounds, Trip, Loop, Tests
--   ServerDriven/Fuel, Ungated, Window, Tests   theorems about them
--   OpStream/Linked, Chained, Append, Stale, Resume, Persist, Tests   theorems about them
--
-- Correspondence. A Go map is an association list: `get` reads the first pair of a key, `set`
-- writes it in place or behind the others, `delete` takes every pair of the key. The order of a Go
-- map's iteration is not modelled; the code sorts the keys where an order shows. A type assertion
-- that fails is `none`. A nil Value has no counterpart: a missing member stands for it. An error
-- is a value of ErrorCode, without the text of its message; a run-time panic is the outcome
-- `panicked`. Go strings are strings of code points, and paths are read as lists of their codes.
-- An int of the path grammar has 64 bits and wraps around; the other integers are read from the
-- wire as they are.
-- In the merge, what the Go code appends to `*conflicts` is the first part of a result, and a do block
-- appends in the order of the calls; canonical bytes, which Go keeps in strings, are lists of
-- bytes; a map that a walk fills is the list of its writes, of which the last of a key holds; a set
-- is kept in order, as its keys are read after sorting. In the frame codec a reader is the list
-- of the bytes that it still has, and a writer the list of the bytes written; the cap 0 stands for
-- every cap that is not positive; a length past the range of int is the outcome `panicked`.
--
-- Fuel. The walks over a tree run on the size of the node, and the recursion into batches, that of the
-- gate included, on the size of the op: every sub-node, and every inner op, is smaller than what
-- holds it. The merge runs on the size of the base node, since it goes down to children of the
-- base alone. The read loop runs on the length of the stream and one more, since a frame that is
-- read takes bytes off it.
--
-- Not modelled: the decoder and the data transforms (wire), the op graph (dag), the differ (diff), the
-- validator, elicitation, the facades of the data frames, the theme packages, the renderer and the
-- command-line programs; the texts of errors, but for that of a refused row cell, which the merge
-- records; the JSON and SSE codecs of the frames; the deadlines, the cancellation and the pings of a
-- WebSocket channel and the errors of its writer; the clone verbs of the placement and the ids that
-- they draw; and the copies of another project's packages (internal/core). The canonical-JSON
-- primitives (escape_string, format_finite_double, sort_keys) are fields of the record Core, an
-- argument of every definition that uses them, and nothing is assumed of them; the envelope of the
-- merge takes the escaping of canonical bytes as one more argument. The same holds for the record
-- Spine, the hash and the pre-image of the third-party chain.
pub mod Prelude
pub mod Wire
pub mod Idl
pub mod Merge
pub mod Ops
pub mod OpStream
pub mod ServerDriven
