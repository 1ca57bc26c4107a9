-- ===== src/Merge/Moves.antt =====
-- merge/merge.go: what detectConcurrentMoves refuses.
use fuaran_go.Prelude.{
  String, ◌≡◌, refl, sym, ap, ◌∙◌, ◌⊎◌, inl, inr, false, List, [], ◌∷◌, ◌++◌, append_assoc, some,
  arith, str_eq, eq_iff, Bool-cases, Option-cases,
}
use fuaran_go.Wire.Core.{Core, Bytes, bytes_eq}
use fuaran_go.Wire.Value.{Node}
use fuaran_go.Wire.Encode.{Encoded, ok, refused, encode_node}
use fuaran_go.Merge.Order.{insert_string, sorted_set}
use fuaran_go.Merge.Refusal.{
  Resolution, Conflict, agnostic, concurrent_move, record_classed, record_unencodable,
}
use fuaran_go.Merge.Places.{
  last_of, keys, MoveCtx, new_move_ctx, index_placement, detect_between, detect_at, detect_all,
  detect_concurrent_moves, compare_moved, contest_cells, node_index, or_zero,
}
use fuaran_go.Merge.Engine.{merge3, merge_whole, merge_3way, conclude, Result, merged, blocked}

abbrev In : String → List String → Type 0
In x [] = ⊥
In x (y ∷ ys) = (y ≡ x) ⊎ In x ys

In-insert_string_self : (x : String) (ys : List String) → In x (insert_string x ys)
unfolding insert_string
In-insert_string_self x [] = inl refl
In-insert_string_self x (y ∷ ys) = ground (arith, eq_iff x y, In-insert_string_self x ys)

In-insert_string : (z x : String) (ys : List String) → In z ys → In z (insert_string x ys)
unfolding insert_string
In-insert_string z x [] h = elim h [ ]
In-insert_string z x (y ∷ ys) h = ground (arith, In-insert_string z x ys)

In-sorted_set : (z : String) (xs : List String) → In z xs → In z (sorted_set xs)
unfolding sorted_set
In-sorted_set z [] h = elim h [ ]
In-sorted_set z (x ∷ xs) (inl same) = rw same (In-insert_string_self z (sorted_set xs))
In-sorted_set z (x ∷ xs) (inr later) =
    In-insert_string z x (sorted_set xs) (In-sorted_set z xs later)

In-keys :
    {V : Type 0} (i : String) (m : List (String × V)) (v : V) → last_of i m ≡ some v → In i (keys m)
unfolding last_of
In-keys i [] v h = cc
In-keys i ((j, w) ∷ m) v h = elim (Option-cases (last_of i m)) [
  | inr (u, later) ↦ inr (In-keys i m u later)
  | inl gone ↦ elim (Bool-cases (str_eq j i)) [
    | inl same ↦ inl ((eq_iff j i).0 same)
    | inr other ↦ cc
  ]
]

-- a result that is blocked by a list of conflicts with one among them
abbrev pub BlockedBy : (Conflict → Type 0) → Result → Type 0
BlockedBy P r =
    (pre : List Conflict) × (c : Conflict) × (post : List Conflict) × P c
    × (r ≡ blocked (pre ++ c ∷ post))

pub conclude-blocked :
    (pre : List Conflict) (c : Conflict) (post : List Conflict) (r : Result)
    → conclude (pre ++ c ∷ post) r ≡ blocked (pre ++ c ∷ post)
unfolding conclude
conclude-blocked [] c post r = refl
conclude-blocked (d ∷ pre) c post r = refl

module _ (core : Core) (res : Resolution) (mc : MoveCtx) (base a b : Node) where
  abbrev Among : Conflict → List Conflict → Type 0
  Among c l = (pre : List Conflict) × (post : List Conflict) × (l ≡ pre ++ c ∷ post)

  detect_all-Among :
      (i : String) (c : Conflict) (cs : List Conflict) (is : List String)
      → detect_at core res mc base a b i ≡ c ∷ cs
      → In i is
      → Among c (detect_all core res mc base a b is)
  unfolding detect_all
  detect_all-Among i c cs [] h k = elim k [ ]
  detect_all-Among i c cs (j ∷ is) h (inl same) =
      ([], cs ++ detect_all core res mc base a b is, rw (same, h) refl)
  detect_all-Among i c cs (j ∷ is) h (inr later) =
      let (pre, post, e) = detect_all-Among i c cs is h later in
      (
        detect_at core res mc base a b j ++ pre,
        post,
        rw e (sym (append_assoc (detect_at core res mc base a b j) pre (c ∷ post))),
      )

-- a conflict that is found at a node of the base blocks the merge
detected-blocks :
    (core : Core) (base a b : Node) (P : Conflict → Type 0) (i p : String) (c : Conflict)
    (cs : List Conflict)
    → last_of i (index_placement base) ≡ some p
    → P c
    → detect_at core agnostic (new_move_ctx base a b) base a b i ≡ c ∷ cs
    → BlockedBy P (merge_3way core base a b)
unfolding merge_3way merge_whole detect_concurrent_moves new_move_ctx
detected-blocks core base a b P i p c cs placed holds found =
    let mc = new_move_ctx base a b in
    let tree = merge3 core agnostic mc base (some a) (some b) in
    let (pre, post, e) =
      detect_all-Among core agnostic mc base a b i c cs (sorted_set (keys (index_placement base)))
        found
        (In-sorted_set i (keys (index_placement base))
          (In-keys i (index_placement base) p placed)) in
    let split : detect_concurrent_moves core agnostic mc base a b ++ tree.0
        ≡ pre ++ c ∷ (post ++ tree.0) =
      ap (λ l. l ++ tree.0) e ∙ append_assoc pre (c ∷ post) tree.0 in
    (
      pre,
      c,
      post ++ tree.0,
      holds,
      ap (λ l. conclude l (merged tree.1 [])) split
          ∙ conclude-blocked pre c (post ++ tree.0) (merged tree.1 []),
    )

-- a non-empty list of conflicts whose first one satisfies the predicate
abbrev First : (Conflict → Type 0) → List Conflict → Type 0
First P l = (c : Conflict) × (cs : List Conflict) × P c × (l ≡ c ∷ cs)

abbrev pub IsAt : String → Conflict → Type 0
IsAt i c = c.node_id ≡ i

moved_apart :
    (res : Resolution) (i p q r : String) (a_c b_c base_c : Encoded)
    → str_eq q p ≡ false
    → str_eq r p ≡ false
    → First (IsAt i) (compare_moved res i p q r a_c b_c base_c)
unfolding compare_moved contest_cells record_classed record_unencodable
moved_apart res i p q r (refused e) b_c base_c h k = (_, _, refl, refl)
moved_apart res i p q r (ok x) (refused e) base_c h k = (_, _, refl, refl)
moved_apart res i p q r (ok x) (ok y) (refused e) h k = (_, _, refl, refl)
moved_apart res i p q r (ok x) (ok y) (ok z) h k = rw (h, k) (_, _, refl, refl)

abbrev encoding : Core → Node → String → Encoded
encoding core n i = encode_node core (or_zero (last_of i (node_index n)))

detect_at-compared :
    (core : Core) (res : Resolution) (base a b : Node) (i p q r : String)
    → last_of i (index_placement base) ≡ some p
    → last_of i (index_placement a) ≡ some q
    → last_of i (index_placement b) ≡ some r
    → str_eq q r ≡ false
    → detect_at core res (new_move_ctx base a b) base a b i
      ≡ compare_moved res i p q r (encoding core a i) (encoding core b i) (encoding core base i)
unfolding detect_at detect_between new_move_ctx
detect_at-compared core res base a b i p q r hp hq hr apart = rw (hq, hr, apart, hp)

-- A node of the base that the two branches put under two new parents, different ones, always blocks
-- the merge, with a conflict at that node.
pub merge_3way-moved_apart :
    (core : Core) (base a b : Node) (i p q r : String)
    → last_of i (index_placement base) ≡ some p
    → last_of i (index_placement a) ≡ some q
    → last_of i (index_placement b) ≡ some r
    → str_eq q p ≡ false
    → str_eq r p ≡ false
    → str_eq q r ≡ false
    → BlockedBy (IsAt i) (merge_3way core base a b)
merge_3way-moved_apart core base a b i p q r hp hq hr q_new r_new apart =
    let (c, cs, at, e) =
      moved_apart agnostic i p q r (encoding core a i) (encoding core b i) (encoding core base i)
        q_new r_new in
    detected-blocks core base a b (IsAt i) i p c cs hp at
      (detect_at-compared core agnostic base a b i p q r hp hq hr apart ∙ e)

abbrev pub IsMoveConflict : String → Conflict → Type 0
IsMoveConflict i c = (c.node_id ≡ i) × (c.conflict_class ≡ concurrent_move)

moved_edit :
    (res : Resolution) (i p q r : String) (x y z : Bytes)
    → bytes_eq x y ≡ false
    → First (IsMoveConflict i) (compare_moved res i p q r (ok x) (ok y) (ok z))
unfolding compare_moved contest_cells record_classed
moved_edit res i p q r x y z h = elim (Bool-cases (str_eq q p)) [
  | inl m ↦ rw (m, h) (_, _, (refl, refl), refl)
  | inr m ↦ elim (Bool-cases (str_eq r p)) [
    | inl n ↦ rw (m, n, h) (_, _, (refl, refl), refl)
    | inr n ↦ rw (m, n) (_, _, (refl, refl), refl)
  ]
]

-- A merge with an untouched branch is blocked all the same where the other branch moved a node to
-- another parent and changed its content: the test compares the two branches with one another, and
-- not the branch that left the node alone with the base.
pub merge_3way-one_sided_move :
    (core : Core) (base a : Node) (i p q : String) (x y : Bytes)
    → last_of i (index_placement base) ≡ some p
    → last_of i (index_placement a) ≡ some q
    → str_eq q p ≡ false
    → encode_node core (or_zero (last_of i (node_index a))) ≡ ok x
    → encode_node core (or_zero (last_of i (node_index base))) ≡ ok y
    → bytes_eq x y ≡ false
    → BlockedBy (IsMoveConflict i) (merge_3way core base a base)
merge_3way-one_sided_move core base a i p q x y hp hq moved hx hy edited =
    let (c, cs, at, e) = moved_edit agnostic i p q p x y y edited in
    detected-blocks core base a base (IsMoveConflict i) i p c cs hp at
      (detect_at-compared core agnostic base a base i p q p hp hq hp moved ∙ (rw (hx, hy) e))
