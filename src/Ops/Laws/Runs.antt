-- ===== src/Ops/Laws/Runs.antt =====
-- ops/apply.go: a batch is a run of its ops, one after the other, and all or nothing.
use fuaran_go.Prelude.{
  ℕ, suc, ◌+◌, ◌≡◌, refl, sym, ◌∙◌, subst, ◌↔◌, List, [], ◌∷◌, some, take, get_elem?, arith,
}
use fuaran_go.Wire.Core.{Core}
use fuaran_go.Wire.Value.{
  Value, str, int, float, bool, null, arr, obj, node, Obj, tagged, Fields, Node, get, as_arr,
}
use fuaran_go.Ops.Apply.{ErrorCode, batch_aborted, Outcome, applied, refused, panicked}
use fuaran_go.Ops.Apply.Engine.{run_batch, batch, apply_one}
use fuaran_go.Ops.Laws.Batch.{apply_one-Batch}

-- the ops applied one after the other, each to what the one before it left
pub data Runs (core : Core) : List Value → Node → Node → Type 0 where
  ends : {t : Node} → Runs core [] t t
  steps :
      {op : Obj} {rest : List Value} {t next last : Node}
      → apply_one core op t ≡ applied next
      → Runs core rest next last
      → Runs core (obj op ∷ rest) t last

-- the ops in front of `place` ran, and the op there is refused
pub record Aborts (core : Core) (items : List Value) (root : Node) (place : ℕ) : Type 0 where
  pub state : Node
  pub before : Runs core (take place items) root state
  pub op : Obj
  pub there : get_elem? items place ≡ some (obj op)
  pub left : Node
  pub code : ErrorCode
  pub stopped : apply_one core op state ≡ refused left code

-- an outcome, with the equation kept
data Seen (o : Outcome) : Type 0 where
  is_applied : (t : Node) → o ≡ applied t → Seen o
  is_refused : (t : Node) (e : ErrorCode) → o ≡ refused t e → Seen o
  is_panicked : o ≡ panicked → Seen o

see : (o : Outcome) → Seen o
see (applied t) = is_applied t refl
see (refused t e) = is_refused t e refl
see panicked = is_panicked refl

module _ (core : Core) where
  abbrev go : Obj → Node → Outcome
  go = apply_one core

  run_batch-Runs :
      (root : Node) (i : ℕ) (state : Node) (items : List Value) (last : Node)
      → run_batch go root i state items ≡ applied last
      → Runs core items state last
  run_batch-Runs root i state [] last h =
      let e : state ≡ last = cc in subst (Runs core [] state) e ends
  run_batch-Runs root i state (obj o ∷ vs) last h = elim (see (go o state)) [
    | is_applied t e ↦ steps e (run_batch-Runs root (suc i) t vs last (rw (e, run_batch) at h))
    | is_refused t c e ↦ cc (rw (e, run_batch) at h)
    | is_panicked e ↦ cc (rw (e, run_batch) at h)
  ]
  run_batch-Runs root i state (str s ∷ vs) last h = cc
  run_batch-Runs root i state (int s ∷ vs) last h = cc
  run_batch-Runs root i state (float s ∷ vs) last h = cc
  run_batch-Runs root i state (bool s ∷ vs) last h = cc
  run_batch-Runs root i state (null ∷ vs) last h = cc
  run_batch-Runs root i state (arr s ∷ vs) last h = cc
  run_batch-Runs root i state (node s ∷ vs) last h = cc

  Runs-run_batch :
      (root : Node) (i : ℕ) (state : Node) (items : List Value) (last : Node)
      → Runs core items state last
      → run_batch go root i state items ≡ applied last
  Runs-run_batch root i state [] last ends = refl
  Runs-run_batch root i state (obj o ∷ vs) last (steps {next} e more) =
      rw (e, run_batch) (Runs-run_batch root (suc i) next vs last more)
  Runs-run_batch root i state (str s ∷ vs) last r = elim r [ ]
  Runs-run_batch root i state (int s ∷ vs) last r = elim r [ ]
  Runs-run_batch root i state (float s ∷ vs) last r = elim r [ ]
  Runs-run_batch root i state (bool s ∷ vs) last r = elim r [ ]
  Runs-run_batch root i state (null ∷ vs) last r = elim r [ ]
  Runs-run_batch root i state (arr s ∷ vs) last r = elim r [ ]
  Runs-run_batch root i state (node s ∷ vs) last r = elim r [ ]

  -- A batch returns a tree exactly when its ops run one after the other to that tree.
  pub batch-Runs :
      (fs : Fields) (root last : Node) (items : List Value)
      → as_arr (get "ops" fs) ≡ some items
      → (apply_one core (tagged "Batch" fs) root ≡ applied last) ↔ Runs core items root last
  batch-Runs fs root last items h =
      let e : apply_one core (tagged "Batch" fs) root ≡ run_batch go root 0 root items =
        (apply_one-Batch core fs root ∙ unfold batch in rw (h, batch) refl) in
      (
        λ p. run_batch-Runs root 0 root items last (sym e ∙ p),
        λ r. e ∙ Runs-run_batch root 0 root items last r,
      )

  run_batch-refused :
      (root : Node) (i : ℕ) (state : Node) (items : List Value) (t : Node) (k : ℕ)
      → run_batch go root i state items ≡ refused t (batch_aborted k)
      → (t ≡ root) × (place : ℕ) × (k ≡ i + place) × Aborts core items state place
  run_batch-refused root i state [] t k h = cc
  run_batch-refused root i state (obj o ∷ vs) t k h = elim (see (go o state)) [
    | is_applied next e ↦
        let (same, place, here, a) =
          run_batch-refused root (suc i) next vs t k (rw (e, run_batch) at h) in
        (
          same,
          suc place,
          omega arith,
          record {
            state = a.state;
            before = steps e a.before;
            op = a.op;
            there = a.there;
            left = a.left;
            code = a.code;
            stopped = a.stopped;
          },
        )
    | is_refused left c e ↦
        let h' : refused root (batch_aborted i) ≡ refused t (batch_aborted k) =
          (rw (e, run_batch) at h) in
        (
          cc,
          0,
          (let e' : i ≡ k = cc in omega arith),
          record {
            state = state;
            before = ends;
            op = o;
            there = refl;
            left = left;
            code = c;
            stopped = e;
          },
        )
    | is_panicked e ↦ cc (rw (e, run_batch) at h)
  ]
  run_batch-refused root i state (str s ∷ vs) t k h = cc
  run_batch-refused root i state (int s ∷ vs) t k h = cc
  run_batch-refused root i state (float s ∷ vs) t k h = cc
  run_batch-refused root i state (bool s ∷ vs) t k h = cc
  run_batch-refused root i state (null ∷ vs) t k h = cc
  run_batch-refused root i state (arr s ∷ vs) t k h = cc
  run_batch-refused root i state (node s ∷ vs) t k h = cc

  -- A batch that is aborted at a place gives back the tree that it was given, the ops in front of the
  -- place ran one after the other, and the op at the place is refused where they ended.
  pub batch-Aborts :
      (fs : Fields) (root t : Node) (items : List Value) (place : ℕ)
      → as_arr (get "ops" fs) ≡ some items
      → apply_one core (tagged "Batch" fs) root ≡ refused t (batch_aborted place)
      → (t ≡ root) × Aborts core items root place
  batch-Aborts fs root t items place h r =
      let e : apply_one core (tagged "Batch" fs) root ≡ run_batch go root 0 root items =
        (apply_one-Batch core fs root ∙ unfold batch in rw (h, batch) refl) in
      let (same, p, here, a) = run_batch-refused root 0 root items t place (sym e ∙ r) in
      let at_place : p ≡ place = omega arith in (same, subst (Aborts core items root) at_place a)
