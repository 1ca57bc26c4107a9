-- ===== src/Merge/Mirror/Cells.antt =====
-- merge/merge.go: moves, deletions and insertions with the branches in the other order.
use fuaran_go.Prelude.{
  String, ◌≡◌, refl, Bool, true, false, not, ◌&&◌, ◌||◌, List, [], ◌∷◌, Option, none, some, str_eq,
  Bool-cases, inl, inr,
}
use fuaran_go.Wire.Core.{Core, Bytes, codes, bytes_eq}
use fuaran_go.Wire.Value.{Node}
use fuaran_go.Wire.Encode.{Encoded, ok, refused, encode_node}
use fuaran_go.Merge.Refusal.{Resolution, concurrent_move, delete_modify, record_classed}
use fuaran_go.Merge.Places.{
  last_of, MoveCtx, is_placed, compare_moved, contest_cells, detect_between, detect_at, detect_all,
  or_zero,
}
use fuaran_go.Merge.Engine.{node_at, survivor_cell, delete_cell, delete_cells, insert_twice}
use fuaran_go.Merge.Mirror.{
  Mirrors, Mirrors-append, swap, record_classed-Mirrors, record_conflict-Mirrors,
  record_unencodable-Mirrors, bytes_eq_comm, str_eq_comm,
}
use fuaran_go.Merge.Mirror.Order.{&&_comm}

abbrev pub swap_ctx : MoveCtx → MoveCtx
swap_ctx mc = record mc { a_places = mc.b_places; b_places = mc.a_places }

module _ (res : Resolution) (i : String) where
  contest_cells-Mirrors :
      (p q r : String) (z x y : Bytes)
      → Mirrors (contest_cells res i p q r z x y) (contest_cells (swap res) i p r q z y x)
  unfolding contest_cells
  contest_cells-Mirrors p q r z x y =
      let where_to =
        record_classed-Mirrors res i "move" concurrent_move (some (codes p)) (some (codes q))
          (some (codes r)) in
      let what = record_classed-Mirrors res i "node" concurrent_move (some z) (some x) (some y) in
      rw (bytes_eq_comm y x) (elim (Bool-cases (bytes_eq x y)) [
        | inl e ↦ rw e (
            Mirrors-append
              (record_classed res i "move" concurrent_move (some (codes p)) (some (codes q))
                (some (codes r))).0
              []
              (record_classed (swap res) i "move" concurrent_move (some (codes p)) (some (codes r))
                (some (codes q))).0
              [] where_to refl)
        | inr e ↦ rw e (
            Mirrors-append
              (record_classed res i "move" concurrent_move (some (codes p)) (some (codes q))
                (some (codes r))).0
              (record_classed res i "node" concurrent_move (some z) (some x) (some y)).0
              (record_classed (swap res) i "move" concurrent_move (some (codes p)) (some (codes r))
                (some (codes q))).0
              (record_classed (swap res) i "node" concurrent_move (some z) (some y) (some x)).0
              where_to what)
      ])

  abbrev contested : String → String → String → Bytes → Bytes → Bool
  contested p q r x y = (not (str_eq q p) && not (str_eq r p)) || not (bytes_eq x y)

  contested_comm : (p q r : String) (x y : Bytes) → contested p r q y x ≡ contested p q r x y
  contested_comm p q r x y =
      rw (&&_comm (not (str_eq r p)) (not (str_eq q p)), bytes_eq_comm y x) refl

  compare_moved-Mirrors :
      (p q r : String) (a_c b_c base_c : Encoded)
      → Mirrors
          (compare_moved res i p q r a_c b_c base_c)
          (compare_moved (swap res) i p r q b_c a_c base_c)
  unfolding compare_moved
  compare_moved-Mirrors p q r (refused d) (refused e) base_c =
      record_unencodable-Mirrors res i "node" d e
  compare_moved-Mirrors p q r (refused d) (ok y) base_c =
      record_unencodable-Mirrors res i "node" d d
  compare_moved-Mirrors p q r (ok x) (refused e) base_c =
      record_unencodable-Mirrors res i "node" e e
  compare_moved-Mirrors p q r (ok x) (ok y) (refused e) =
      record_unencodable-Mirrors res i "node" e e
  compare_moved-Mirrors p q r (ok x) (ok y) (ok z) =
      rw (contested_comm p q r x y) (elim (Bool-cases (contested p q r x y)) [
        | inl e ↦ rw e (contest_cells-Mirrors p q r z x y)
        | inr e ↦ rw e refl
      ])

module _ (core : Core) (res : Resolution) (mc : MoveCtx) where
  detect_between-Mirrors :
      (base a b : Node) (i : String) (p q : Option String)
      → Mirrors
          (detect_between core res mc base a b i p q)
          (detect_between core (swap res) (swap_ctx mc) base b a i q p)
  unfolding detect_between
  detect_between-Mirrors base a b i none none = refl
  detect_between-Mirrors base a b i none (some q) = refl
  detect_between-Mirrors base a b i (some p) none = refl
  detect_between-Mirrors base a b i (some p) (some q) =
      rw (str_eq_comm q p) (elim (Bool-cases (str_eq p q)) [
        | inl e ↦ rw e refl
        | inr e ↦ rw e (compare_moved-Mirrors res i _ p q _ _ _)
      ])

  pub detect_all-Mirrors :
      (base a b : Node) (is : List String)
      → Mirrors
          (detect_all core res mc base a b is)
          (detect_all core (swap res) (swap_ctx mc) base b a is)
  unfolding detect_all detect_at
  detect_all-Mirrors base a b [] = refl
  detect_all-Mirrors base a b (i ∷ is) =
      Mirrors-append (detect_at core res mc base a b i) (detect_all core res mc base a b is)
        (detect_at core (swap res) (swap_ctx mc) base b a i)
        (detect_all core (swap res) (swap_ctx mc) base b a is)
        (detect_between-Mirrors base a b i (last_of i mc.a_places) (last_of i mc.b_places))
        (detect_all-Mirrors base a b is)

  survivor_cell-Mirrors :
      (cid : String) (s : Bool) (base_c c : Encoded)
      → Mirrors
          (survivor_cell core res mc cid s base_c c)
          (survivor_cell core (swap res) (swap_ctx mc) cid (not s) base_c c)
  unfolding survivor_cell
  survivor_cell-Mirrors cid s (refused e) c = record_unencodable-Mirrors res cid "node" e e
  survivor_cell-Mirrors cid s (ok z) (refused e) = record_unencodable-Mirrors res cid "node" e e
  survivor_cell-Mirrors cid true (ok z) (ok x) = elim (Bool-cases (bytes_eq x z)) [
    | inl e ↦ rw e refl
    | inr e ↦ rw e (record_classed-Mirrors res cid "node" delete_modify (some z) (some x) (some []))
  ]
  survivor_cell-Mirrors cid false (ok z) (ok x) = elim (Bool-cases (bytes_eq x z)) [
    | inl e ↦ rw e refl
    | inr e ↦ rw e (record_classed-Mirrors res cid "node" delete_modify (some z) (some []) (some x))
  ]

  delete_cell-Mirrors :
      (cid : String) (bc : Node) (a b : Option Node)
      → Mirrors
          (delete_cell core res mc cid bc a b)
          (delete_cell core (swap res) (swap_ctx mc) cid bc b a)
  unfolding delete_cell
  delete_cell-Mirrors cid bc none none = refl
  delete_cell-Mirrors cid bc (some x) (some y) = refl
  delete_cell-Mirrors cid bc none (some y) = elim (Bool-cases (is_placed mc.a_places cid)) [
    | inl e ↦ rw e refl
    | inr e ↦ rw e (survivor_cell-Mirrors cid false (encode_node core bc) (encode_node core y))
  ]
  delete_cell-Mirrors cid bc (some x) none = elim (Bool-cases (is_placed mc.b_places cid)) [
    | inl e ↦ rw e refl
    | inr e ↦ rw e (survivor_cell-Mirrors cid true (encode_node core bc) (encode_node core x))
  ]

  pub delete_cells-Mirrors :
      (z x y : List Node) (cids : List String)
      → Mirrors
          (delete_cells core res mc z x y cids)
          (delete_cells core (swap res) (swap_ctx mc) z y x cids)
  unfolding delete_cells
  delete_cells-Mirrors z x y [] = refl
  delete_cells-Mirrors z x y (cid ∷ cids) =
      let bc = or_zero (node_at cid z) in
      Mirrors-append (delete_cell core res mc cid bc (node_at cid x) (node_at cid y))
        (delete_cells core res mc z x y cids)
        (delete_cell core (swap res) (swap_ctx mc) cid bc (node_at cid y) (node_at cid x))
        (delete_cells core (swap res) (swap_ctx mc) z y x cids)
        (delete_cell-Mirrors cid bc (node_at cid x) (node_at cid y))
        (delete_cells-Mirrors z x y cids)

  pub insert_twice-Mirrors :
      (cid : String) (ac bc : Node) (a_c b_c : Encoded)
      → Mirrors
          (insert_twice core res mc cid ac bc a_c b_c).0
          (insert_twice core (swap res) (swap_ctx mc) cid bc ac b_c a_c).0
  unfolding insert_twice
  insert_twice-Mirrors cid ac bc (refused d) (refused e) =
      record_unencodable-Mirrors res cid "insert" d e
  insert_twice-Mirrors cid ac bc (refused d) (ok y) =
      record_unencodable-Mirrors res cid "insert" d d
  insert_twice-Mirrors cid ac bc (ok x) (refused e) =
      record_unencodable-Mirrors res cid "insert" e e
  insert_twice-Mirrors cid ac bc (ok x) (ok y) =
      rw (bytes_eq_comm y x) (elim (Bool-cases (bytes_eq x y)) [
        | inl e ↦ rw e refl
        | inr e ↦ rw e (record_conflict-Mirrors res cid "insert" (some []) (some x) (some y))
      ])
