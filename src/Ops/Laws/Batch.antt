-- ===== src/Ops/Laws/Batch.antt =====
-- ops/apply.go: batches. The fuel of the recursion into the inner ops, and a batch as a run of steps.
use fuaran_go.Prelude.{
  ℕ, zero, suc, ◌≤◌, ◌<◌, String, ◌≡◌, refl, sym, ap, ◌∙◌, subst, List, [], ◌∷◌, some, All, arith,
  Option-cases, inl, inr,
}
use fuaran_go.Wire.Core.{Core}
use fuaran_go.Wire.Size.{value_size, values_size, obj_size, fields_size, get-lt}
use fuaran_go.Wire.Value.{
  Value, str, int, float, bool, null, arr, obj, node, Values, nil, cons, Obj, tagged, Fields, Node,
  get, as_arr, to_list,
}
use fuaran_go.Ops.Apply.{batch_aborted, Outcome, applied, refused, panicked}
use fuaran_go.Ops.Apply.Engine.{run_batch, batch, apply_step, apply_fuel, apply_one}

-- the inner ops that are smaller than a bound
abbrev pub Below : ℕ → Value → Type 0
Below n (obj o) = obj_size o < n
Below n _ = Unit

values-Below : (n : ℕ) (vs : Values) → values_size vs ≤ n → All (Below n) (to_list vs)
unfolding value_size
values-Below n nil h = tt
values-Below n (cons (obj o) vs) h = (omega arith, values-Below n vs (omega arith))
values-Below n (cons (str s) vs) h = (tt, values-Below n vs (omega arith))
values-Below n (cons (int s) vs) h = (tt, values-Below n vs (omega arith))
values-Below n (cons (float s) vs) h = (tt, values-Below n vs (omega arith))
values-Below n (cons (bool s) vs) h = (tt, values-Below n vs (omega arith))
values-Below n (cons null vs) h = (tt, values-Below n vs (omega arith))
values-Below n (cons (arr s) vs) h = (tt, values-Below n vs (omega arith))
values-Below n (cons (node s) vs) h = (tt, values-Below n vs (omega arith))

-- the array that an assertion found
as_arr-Below :
    (n : ℕ) (v : Value) (items : List Value)
    → as_arr (some v) ≡ some items
    → value_size v ≤ suc n
    → All (Below n) items
unfolding value_size
as_arr-Below n (arr vs) items h k =
    let e : to_list vs ≡ items = cc in
    subst (λ l. All (Below n) l) e (values-Below n vs (omega arith))
as_arr-Below n (str s) items h k = cc
as_arr-Below n (int s) items h k = cc
as_arr-Below n (float s) items h k = cc
as_arr-Below n (bool s) items h k = cc
as_arr-Below n null items h k = cc
as_arr-Below n (obj s) items h k = cc
as_arr-Below n (node s) items h k = cc

pub inner-Below :
    (t : String) (fs : Fields) (items : List Value)
    → as_arr (get "ops" fs) ≡ some items
    → All (Below (obj_size (tagged t fs))) items
unfolding value_size
inner-Below t fs items h = elim (Option-cases (get "ops" fs)) [
  | inl gone ↦ cc (rw (gone, as_arr) at h)
  | inr (v, here) ↦
      as_arr-Below (suc (fields_size fs)) v items (ap as_arr (sym here) ∙ h)
        (omega (arith, get-lt "ops" fs v here))
]

run_batch-congr :
    (go go' : Obj → Node → Outcome) (n : ℕ)
    → ((o : Obj) (t : Node) → obj_size o < n → go o t ≡ go' o t)
    → (root : Node) (i : ℕ) (state : Node) (items : List Value) → All (Below n) items
    → run_batch go root i state items ≡ run_batch go' root i state items
run_batch-congr go go' n same root i state [] _ = refl
run_batch-congr go go' n same root i state (obj o ∷ vs) (p, ps) = λ j. elim (same o state p j) [
  | applied next ↦ run_batch-congr go go' n same root (suc i) next vs ps j
  | refused t e ↦ refused root (batch_aborted i)
  | panicked ↦ panicked
]
run_batch-congr go go' n same root i state (str s ∷ vs) _ = refl
run_batch-congr go go' n same root i state (int s ∷ vs) _ = refl
run_batch-congr go go' n same root i state (float s ∷ vs) _ = refl
run_batch-congr go go' n same root i state (bool s ∷ vs) _ = refl
run_batch-congr go go' n same root i state (null ∷ vs) _ = refl
run_batch-congr go go' n same root i state (arr s ∷ vs) _ = refl
run_batch-congr go go' n same root i state (node s ∷ vs) _ = refl

module _ (core : Core) where
  -- One round of the engine looks at its recursive call at smaller ops alone.
  apply_step-congr :
      (go go' : Obj → Node → Outcome) (op : Obj) (root : Node)
      → ((o : Obj) (t : Node) → obj_size o < obj_size op → go o t ≡ go' o t)
      → apply_step core go op root ≡ apply_step core go' op root
  unfolding apply_step batch
  apply_step-congr go go' (tagged t fs) root same =
      let e : batch go fs root ≡ batch go' fs root = (elim (Option-cases (as_arr (get "ops" fs))) [
        | inl gone ↦ rw (gone, batch) refl
        | inr (items, here) ↦
            rw (here, batch)
              (run_batch-congr go go' (obj_size (tagged t fs)) same root 0 root items
                (inner-Below t fs items here))
      ]) in
      rw e refl

  pub apply_fuel-enough :
      (f g : ℕ) (op : Obj) (root : Node)
      → obj_size op ≤ f
      → obj_size op ≤ g
      → apply_fuel core f op root ≡ apply_fuel core g op root
  unfolding apply_fuel value_size
  apply_fuel-enough zero g (tagged t fs) root h k = absurd (omega arith)
  apply_fuel-enough (suc f) zero (tagged t fs) root h k = absurd (omega arith)
  apply_fuel-enough (suc f) (suc g) (tagged t fs) root h k =
      apply_step-congr (apply_fuel core f) (apply_fuel core g) (tagged t fs) root
        (λ o s p. apply_fuel-enough f g o s (omega arith) (omega arith))

  -- The equation of the recursive function.
  pub apply_one_lem :
      (op : Obj) (root : Node) → apply_one core op root ≡ apply_step core (apply_one core) op root
  unfolding apply_one
  apply_one_lem op root =
      apply_fuel-enough (obj_size op) (suc (obj_size op)) op root (omega arith) (omega arith)
      ∙ unfold apply_fuel in
        apply_step-congr (apply_fuel core (obj_size op)) (apply_one core) op root
          (λ o s p. apply_fuel-enough (obj_size op) (obj_size o) o s (omega arith) (omega arith))

  pub apply_one-Batch :
      (fs : Fields) (root : Node)
      → apply_one core (tagged "Batch" fs) root ≡ batch (apply_one core) fs root
  apply_one-Batch fs root = apply_one_lem (tagged "Batch" fs) root ∙ unfold apply_step in refl
