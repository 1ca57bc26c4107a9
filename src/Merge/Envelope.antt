-- ===== src/Merge/Envelope.antt =====
-- merge/merge.go: the canonical order and the canonical bytes of a set of refusals.
pub mod Shuffle
use fuaran_go.Prelude.{
  String, ◌≡◌, refl, sym, ap, ◌∙◌, Bool, true, false, List, [], ◌∷◌, ◌++◌, Option, none, some,
  arith, str_eq, eq_iff, eq_refl, Bool-cases, inl, inr, ◌⊎◌, if◌then◌else◌,
}
use fuaran_go.Wire.Core.{Core, Bytes, codes}
use fuaran_go.Merge.Order.{
  text_less, less, less_trans, less_asym, less_irrefl, less_total, codes-inj,
}
use fuaran_go.Merge.Refusal.{
  Conflict, ConflictClass, concurrent_edit, reorder_vs_structural, delete_modify, concurrent_move,
  unencodable_facet, Side, deref,
}

-- the order of the cells: by node, then by facet
unfoldable pub cell_less : Conflict → Conflict → Bool
cell_less c d =
    if str_eq c.node_id d.node_id then text_less c.facet d.facet else text_less c.node_id d.node_id

-- a stable sort; a conflict stays in front of those of its own cell that stood behind it
unfoldable pub insert_cell : Conflict → List Conflict → List Conflict
insert_cell c [] = c ∷ []
insert_cell c (d ∷ ds) =
    let rest = insert_cell c ds in if cell_less d c then d ∷ rest else c ∷ d ∷ ds

unfoldable pub sort_canonical : List Conflict → List Conflict
unfolding insert_cell
sort_canonical [] = []
sort_canonical (c ∷ cs) = insert_cell c (sort_canonical cs)

-- the wire name of a class
unfoldable pub class_name : ConflictClass → String
class_name concurrent_edit = "ConcurrentEdit"
class_name reorder_vs_structural = "ReorderVsStructural"
class_name delete_modify = "DeleteModify"
class_name concurrent_move = "ConcurrentMove"
class_name unencodable_facet = "UnencodableFacet"

-- EscapeString reads a Go string, which may be canonical bytes
module _ (core : Core) (escape_bytes : Bytes → Bytes) where
  abbrev encode_tag : Option String → Bytes
  encode_tag none = codes "null"
  encode_tag (some t) = core.escape_string t

  unfoldable pub encode_side : Side → Bytes
  encode_side s =
      codes "{\"tag\":"
      ++ encode_tag s.side_tag
      ++ codes ",\"value\":"
      ++ escape_bytes s.value
      ++ codes "}"

  unfoldable pub encode_conflict : Conflict → Bytes
  unfolding encode_side class_name
  encode_conflict c =
      codes "{\"a\":"
      ++ encode_side c.a
      ++ codes ",\"b\":"
      ++ encode_side c.b
      ++ codes ",\"base\":"
      ++ escape_bytes (deref c.base)
      ++ codes ",\"class\":"
      ++ core.escape_string (class_name c.conflict_class)
      ++ codes ",\"facet\":"
      ++ core.escape_string c.facet
      ++ codes ",\"nodeId\":"
      ++ core.escape_string c.node_id
      ++ codes ",\"primacyHeld\":"
      ++ (if c.primacy_held then codes "true" else codes "false")
      ++ codes "}"

  unfoldable pub encode_cells : List Conflict → Bytes
  unfolding encode_conflict
  encode_cells [] = []
  encode_cells (c ∷ []) = encode_conflict c
  encode_cells (c ∷ cs) = encode_conflict c ++ codes "," ++ encode_cells cs

  unfoldable pub encode_envelope : List Conflict → Bytes
  unfolding encode_cells sort_canonical
  encode_envelope cs = codes "[" ++ encode_cells (sort_canonical cs) ++ codes "]"

-- two conflicts of different cells
abbrev pub Apart : Conflict → Conflict → Type 0
Apart c d = (str_eq c.node_id d.node_id ≡ false) ⊎ (str_eq c.facet d.facet ≡ false)

-- a list in another order, where conflicts of one cell keep theirs
pub data Shuffled : List Conflict → List Conflict → Type 0 where
  done : Shuffled [] []
  keep : {l m : List Conflict} (c : Conflict) → Shuffled l m → Shuffled (c ∷ l) (c ∷ m)
  pass : {l : List Conflict} (c d : Conflict) → Apart c d → Shuffled (c ∷ d ∷ l) (d ∷ c ∷ l)
  chain : {l m n : List Conflict} → Shuffled l m → Shuffled m n → Shuffled l n
