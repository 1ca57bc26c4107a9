-- ===== src/Ops/Laws/Overflow.antt =====
-- ops/apply.go and ops/prop.go: an UpdateProp panics only where its path has a negative index, which
-- the overflow of the index gives.
use fuaran_go.Prelude.{
  ℕ, ◌-◌, ◌^◌, String, ◌≡◌, ◌≢◌, ◌⊎◌, refl, sym, ap, ◌∙◌, List, [], ◌∷◌, ◌++◌, Bool, true, false,
  Option, none, some, if◌then◌else◌, Option-cases, Bool-cases, inl, inr, ◌==◌,
}
use fuaran_go.Prelude.Int.{ℤ, pos, negsuc}
use fuaran_go.Wire.Core.{Core, Bytes, codes}
use fuaran_go.Wire.Value.{Value, str, Obj, Fields, Node, kind, tag, get, as_str}
use fuaran_go.Ops.Traverse.{find_node}
use fuaran_go.Ops.Prop.Path.{
  PathSeg, Parsed, parsed, bad, parse_path, parse_segment, parse_segments, split_dots, all_space,
}
use fuaran_go.Ops.Prop.Store.{FieldOutcome, update_field}
use fuaran_go.Ops.Prop.Nested.{NestedOutcome, index_panic, update_nested}
use fuaran_go.Ops.Apply.{Outcome, panicked, tree_or_zero}
use fuaran_go.Ops.Apply.Engine.{update_prop, update_at, of_field, of_nested}
use fuaran_go.Ops.Laws.Panic.{update_nested-total, update_nested-negative}

-- the first segment, where there is one
record IsHeaded (segs : List PathSeg) : Type 0 where
  head : PathSeg
  rest : List PathSeg
  split : segs ≡ head ∷ rest

record IsSplit (raws : List Bytes) : Type 0 where
  raw : Bytes
  more : List Bytes
  split : raws ≡ raw ∷ more

split_dots-IsSplit : (cur path : Bytes) → IsSplit (split_dots cur path)
unfolding split_dots
split_dots-IsSplit cur [] = record { raw = cur; more = []; split = refl }
split_dots-IsSplit cur (c ∷ cs) = elim (Bool-cases (c == b'.')) [
  | inl dot ↦ record { raw = cur; more = split_dots [] cs; split = rw dot refl }
  | inr other ↦
      let p = split_dots-IsSplit (cur ++ c ∷ []) cs in
      record { raw = p.raw; more = p.more; split = rw other p.split }
]

parse_segments-IsHeaded :
    (raw : Bytes) (raws : List Bytes) (segs : List PathSeg)
    → parse_segments (raw ∷ raws) ≡ parsed segs
    → IsHeaded segs
unfolding parse_segments
parse_segments-IsHeaded raw raws segs h = both (parse_segment raw) (parse_segments raws) h
  where
    both :
        (s : Parsed PathSeg) (ss : Parsed (List PathSeg))
        → elim s [
          | bad e ↦ bad e
          | parsed a ↦ elim ss [ bad e ↦ bad e | parsed as_ ↦ parsed (a ∷ as_) ]
        ]
          ≡ parsed segs
        → IsHeaded segs
    both (bad e) ss h = cc
    both (parsed a) (bad e) h = cc
    both (parsed a) (parsed rest) h = record { head = a; rest = rest; split = cc }

parse_path-IsHeaded :
    (path : Bytes) (segs : List PathSeg) → parse_path path ≡ parsed segs → IsHeaded segs
unfolding parse_path
parse_path-IsHeaded path segs h = elim (Bool-cases (all_space path)) [
  | inl blank ↦ cc (rw (blank, parse_path) at h)
  | inr other ↦
      let p = split_dots-IsSplit [] path in
      parse_segments-IsHeaded p.raw p.more segs
        (ap parse_segments (sym p.split) ∙ rw (other, parse_path) at h)
]

map_node-returns : (o : Option Node) → tree_or_zero o ≢ panicked
map_node-returns none p = cc
map_node-returns (some t) p = cc

of_field-returns :
    (target : String) (root : Node) (o : FieldOutcome) → of_field target root o ≢ panicked
of_field-returns target root (FieldOutcome.updated k) p = map_node-returns _ p
of_field-returns target root FieldOutcome.unknown_field p = cc
of_field-returns target root FieldOutcome.unsupported p = cc
of_field-returns target root FieldOutcome.type_mismatch p = cc

of_nested-panicked :
    (target : String) (root : Node) (o : NestedOutcome)
    → of_nested target root o ≡ panicked
    → o ≡ index_panic
of_nested-panicked target root (NestedOutcome.updated k) p = absurd (map_node-returns _ p)
of_nested-panicked target root NestedOutcome.missing_index p = cc
of_nested-panicked target root NestedOutcome.index_out_of_range p = cc
of_nested-panicked target root NestedOutcome.field_not_found p = cc
of_nested-panicked target root NestedOutcome.not_supported p = cc
of_nested-panicked target root NestedOutcome.type_mismatch p = cc
of_nested-panicked target root NestedOutcome.index_panic p = refl

negative :
    (core : Core) (head : PathSeg) (rest : List PathSeg) (v : Value) (k : Obj) (i : ℤ)
    → head.index ≡ i
    → update_nested core head rest v k ≡ index_panic
    → (n : ℕ) × (head.index ≡ negsuc n)
negative core head rest v k (pos i) e h = absurd (update_nested-total core head rest v k i e h)
negative core head rest v k (negsuc n) e h = (n, e)

one_of :
    (b : Bool) {x y : Outcome} → (if b then x else y) ≡ panicked → (x ≡ panicked) ⊎ (y ≡ panicked)
one_of true h = inl h
one_of false h = inr h

update_at-panicked :
    (core : Core) (target path : String) (head : PathSeg) (rest : List PathSeg) (v : Value)
    (k : Obj) (root : Node)
    → update_at core target path (head ∷ rest) v k root ≡ panicked
    → (n : ℕ) × (head.index ≡ negsuc n)
update_at-panicked core target path head [] v k root h = elim (one_of head.has_index h) [
  | inl nested ↦
      negative core head [] v k head.index refl
        (of_nested-panicked target root (update_nested core head [] v k) nested)
  | inr plain ↦ absurd (of_field-returns target root (update_field core path v k) plain)
]
update_at-panicked core target path head (r ∷ rest) v k root h =
    negative core head (r ∷ rest) v k head.index refl
      (of_nested-panicked target root (update_nested core head (r ∷ rest) v k) h)

-- a path whose first index is negative
pub record IsWrapped (fs : Fields) : Type 0 where
  pub path : String
  pub given : as_str (get "path" fs) ≡ some path
  pub head : PathSeg
  pub rest : List PathSeg
  pub reads : parse_path (codes path) ≡ parsed (head ∷ rest)
  pub below_zero : ℕ
  pub wrapped : head.index ≡ negsuc below_zero

-- An UpdateProp panics only if the first index of its path is read as a negative number.
pub update_prop-IsWrapped :
    (core : Core) (fs : Fields) (root : Node) → update_prop core fs root ≡ panicked → IsWrapped fs
unfolding update_prop
update_prop-IsWrapped core fs root h = elim (Option-cases (as_str (get "path" fs))) [
  | inl e ↦ cc (rw (e, update_prop) at h)
  | inr (path, p) ↦ elim (Option-cases (as_str (get "target" fs))) [
    | inl e ↦ cc (rw (p, e, update_prop) at h)
    | inr (target, t) ↦ elim (Option-cases (get "value" fs)) [
      | inl e ↦ cc (rw (p, t, e, update_prop) at h)
      | inr (v, w) ↦ at_path path p target t v w (parse_path (codes path)) refl
    ]
  ]
]
  where
    at_path :
        (path : String)
        → as_str (get "path" fs) ≡ some path
        → (target : String) → as_str (get "target" fs) ≡ some target
        → (v : Value) → get "value" fs ≡ some v
        → (r : Parsed (List PathSeg)) → parse_path (codes path) ≡ r
        → IsWrapped fs
    at_path path p target t v w (bad e) r = cc (rw (p, t, w, r, update_prop) at h)
    at_path path p target t v w (parsed []) r =
        let headed = parse_path-IsHeaded (codes path) [] r in cc (headed.split)
    at_path path p target t v w (parsed (head ∷ rest)) r =
        elim (Option-cases (find_node target root)) [
          | inl e ↦ cc (rw (p, t, w, r, e, update_prop) at h)
          | inr (n, here) ↦
              let (k, below) =
                update_at-panicked core target path head rest v (kind n) root
                  (rw (p, t, w, r, here, update_prop) at h) in
              record {
                path = path;
                given = p;
                head = head;
                rest = rest;
                reads = r;
                below_zero = k;
                wrapped = below;
              }
        ]

abbrev pub past_int64 : String
past_int64 = "YFields[9223372036854775808]"

-- A text written by the path YFields[9223372036854775808] into a Chart of the tree panics.
pub update_prop-overflow :
    (core : Core) (fs : Fields) (root n : Node) (target s : String)
    → as_str (get "path" fs) ≡ some past_int64
    → as_str (get "target" fs) ≡ some target
    → get "value" fs ≡ some (str s)
    → find_node target root ≡ some n
    → tag (kind n) ≡ "Chart"
    → update_prop core fs root ≡ panicked
unfolding update_prop parse_path parse_segment
update_prop-overflow core fs root n target s p t w here chart =
    rw (p, update_prop)
      (rw t (
        rw w (
          rw here (
            ap (of_nested target root)
              (update_nested-negative core (2 ^ 63 - 1) s (kind n) chart)))))
