-- ===== src/Merge/Places.antt =====
-- merge/merge.go: where each node of a tree lives, and the refusals for the nodes that the two
-- branches place differently. A map that a walk fills is the list of its writes; the last one holds.
use fuaran_go.Prelude.{
  ℕ, zero, suc, String, Bool, not, ◌&&◌, ◌||◌, List, [], ◌∷◌, ◌++◌, Option, none, some, str_eq,
  if◌then◌else◌,
}
use fuaran_go.Wire.Core.{Core, Bytes, codes, bytes_eq}
use fuaran_go.Wire.Value.{tagged, end, Node, envelope, id}
use fuaran_go.Wire.Encode.{Encoded, ok, refused, encode_node}
use fuaran_go.Wire.Size.{node_size}
use fuaran_go.Merge.Order.{sorted_set}
use fuaran_go.Merge.Refusal.{
  Resolution, Conflict, concurrent_move, record_classed, record_unencodable,
}
use fuaran_go.Merge.Facets.{children_of}

module _ {V : Type 0} where
  -- `m[k]` of a map that was filled in the order of the list
  unfoldable pub last_of : String → List (String × V) → Option V
  last_of k [] = none
  last_of k ((j, v) ∷ m) = elim (last_of k m) [
    | some w ↦ some w
    | none ↦ if str_eq j k then some v else none
  ]

  abbrev pub keys : List (String × V) → List String
  keys [] = []
  keys ((j, v) ∷ m) = j ∷ keys m

-- the zero wire.Node, which a read of a missing key gives
abbrev pub zero_node : Node
zero_node = envelope "" (tagged "" end) end

abbrev pub or_zero : Option Node → Node
or_zero none = zero_node
or_zero (some n) = n

abbrev pub Placement : Type 0
Placement = List (String × String)

-- the writes of the walk below a node, given the walk of a child
module _ (below : String → Node → Placement) (parent : String) where
  unfoldable pub place_children : List Node → Placement
  place_children [] = []
  place_children (c ∷ cs) = below parent c ++ place_children cs

unfoldable pub place_fuel : ℕ → String → Node → Placement
unfolding place_children
place_fuel zero parent n = []
place_fuel (suc f) parent n = (id n, parent) ∷ place_children (place_fuel f) (id n) (children_of n)

-- indexPlacement: the id of each node with that of its parent, the root's being empty
unfoldable pub index_placement : Node → Placement
unfolding place_fuel
index_placement n = place_fuel (node_size n) "" n

module _ (below : Node → List (String × Node)) where
  unfoldable pub index_children : List Node → List (String × Node)
  index_children [] = []
  index_children (c ∷ cs) = below c ++ index_children cs

unfoldable pub index_fuel : ℕ → Node → List (String × Node)
unfolding index_children
index_fuel zero n = []
index_fuel (suc f) n = (id n, n) ∷ index_children (index_fuel f) (children_of n)

unfoldable pub node_index : Node → List (String × Node)
unfolding index_fuel
node_index n = index_fuel (node_size n) n

pub record MoveCtx : Type 0 where
  pub base_places : Placement
  pub a_places : Placement
  pub b_places : Placement

unfoldable pub new_move_ctx : Node → Node → Node → MoveCtx
unfolding index_placement
new_move_ctx base a b = record {
  base_places = index_placement base;
  a_places = index_placement a;
  b_places = index_placement b;
}

-- movedNotDeleted
unfoldable pub is_placed : Placement → String → Bool
is_placed side i = elim (last_of i side) [ none ↦ Bool.false | some p ↦ Bool.true ]

module _ (res : Resolution) (i : String) where
  -- the `move` cell, and the `node` cell where the contents differ too
  unfoldable pub contest_cells : String → String → String → Bytes → Bytes → Bytes → List Conflict
  contest_cells base_par a_par b_par base_c a_c b_c =
      (record_classed res i "move" concurrent_move (some (codes base_par)) (some (codes a_par))
        (some (codes b_par))).0
      ++ (if bytes_eq a_c b_c
          then []
          else (record_classed res i "node" concurrent_move (some base_c) (some a_c) (some b_c)).0)

  abbrev is_contested : String → String → String → Bytes → Bytes → Bool
  is_contested base_par a_par b_par a_c b_c =
      (not (str_eq a_par base_par) && not (str_eq b_par base_par)) || not (bytes_eq a_c b_c)

  -- what the encodings of the node say about it, the first refused one in the order a, b, base
  unfoldable pub compare_moved :
      String → String → String → Encoded → Encoded → Encoded → List Conflict
  unfolding contest_cells
  compare_moved base_par a_par b_par (refused e) b_c base_c = record_unencodable res i "node" e
  compare_moved base_par a_par b_par (ok a_c) (refused e) base_c = record_unencodable res i "node" e
  compare_moved base_par a_par b_par (ok a_c) (ok b_c) (refused e) =
      record_unencodable res i "node" e
  compare_moved base_par a_par b_par (ok a_c) (ok b_c) (ok base_c) =
      if is_contested base_par a_par b_par a_c b_c
      then contest_cells base_par a_par b_par base_c a_c b_c
      else []

abbrev pub text_or_empty : Option String → String
text_or_empty none = ""
text_or_empty (some s) = s

module _ (core : Core) (res : Resolution) (mc : MoveCtx) (base a b : Node) where
  abbrev pub encoded_at : Node → String → Encoded
  encoded_at n i = encode_node core (or_zero (last_of i (node_index n)))

  -- the parents that the two branches give a node; a node that one of them removed is not compared
  unfoldable pub detect_between : String → Option String → Option String → List Conflict
  unfolding compare_moved node_index
  detect_between i none b_par = []
  detect_between i (some a_par) none = []
  detect_between i (some a_par) (some b_par) =
      if str_eq a_par b_par
      then []
      else compare_moved res i (text_or_empty (last_of i mc.base_places)) a_par b_par
          (encoded_at a i) (encoded_at b i) (encoded_at base i)

  -- one round of the loop of detectConcurrentMoves
  unfoldable pub detect_at : String → List Conflict
  unfolding detect_between
  detect_at i = detect_between i (last_of i mc.a_places) (last_of i mc.b_places)

  unfoldable pub detect_all : List String → List Conflict
  unfolding detect_at
  detect_all [] = []
  detect_all (i ∷ is) = detect_at i ++ detect_all is

  unfoldable pub detect_concurrent_moves : List Conflict
  unfolding detect_all
  detect_concurrent_moves = detect_all (sorted_set (keys mc.base_places))
