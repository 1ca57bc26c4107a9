-- ===== src/Ops/Laws/Nested.antt =====
-- ops/limits.go: the recursions into batches of insertedNodes and opCanGrow end: the size of the op is
-- fuel enough.
use fuaran_go.Prelude.{
  ℕ, zero, suc, ◌≤◌, ◌<◌, ◌≡◌, refl, List, [], ◌∷◌, Bool, All, arith, Option-cases, inl, inr,
}
use fuaran_go.Wire.Size.{value_size, obj_size}
use fuaran_go.Wire.Value.{
  Value, str, int, float, bool, null, arr, obj, node, Obj, tagged, Node, get, as_arr,
}
use fuaran_go.Ops.Limits.{inserted_fuel, roots_in, batch_roots, grows_fuel, any_grows, batch_grows}
use fuaran_go.Ops.Laws.Batch.{Below, inner-Below}

roots_in-congr :
    (go other : Obj → List Node) (n : ℕ)
    → ((o : Obj) → obj_size o < n → go o ≡ other o)
    → (vs : List Value) → All (Below n) vs
    → roots_in go vs ≡ roots_in other vs
roots_in-congr go other n same [] _ = refl
roots_in-congr go other n same (obj o ∷ vs) (p, ps) =
    cc (same o p, roots_in-congr go other n same vs ps)
roots_in-congr go other n same (str s ∷ vs) (p, ps) = roots_in-congr go other n same vs ps
roots_in-congr go other n same (int s ∷ vs) (p, ps) = roots_in-congr go other n same vs ps
roots_in-congr go other n same (float s ∷ vs) (p, ps) = roots_in-congr go other n same vs ps
roots_in-congr go other n same (bool s ∷ vs) (p, ps) = roots_in-congr go other n same vs ps
roots_in-congr go other n same (null ∷ vs) (p, ps) = roots_in-congr go other n same vs ps
roots_in-congr go other n same (arr s ∷ vs) (p, ps) = roots_in-congr go other n same vs ps
roots_in-congr go other n same (node s ∷ vs) (p, ps) = roots_in-congr go other n same vs ps

any_grows-congr :
    (go other : Obj → Bool) (n : ℕ)
    → ((o : Obj) → obj_size o < n → go o ≡ other o)
    → (vs : List Value) → All (Below n) vs
    → any_grows go vs ≡ any_grows other vs
any_grows-congr go other n same [] _ = refl
any_grows-congr go other n same (obj o ∷ vs) (p, ps) =
    cc (same o p, any_grows-congr go other n same vs ps)
any_grows-congr go other n same (str s ∷ vs) (p, ps) = any_grows-congr go other n same vs ps
any_grows-congr go other n same (int s ∷ vs) (p, ps) = any_grows-congr go other n same vs ps
any_grows-congr go other n same (float s ∷ vs) (p, ps) = any_grows-congr go other n same vs ps
any_grows-congr go other n same (bool s ∷ vs) (p, ps) = any_grows-congr go other n same vs ps
any_grows-congr go other n same (null ∷ vs) (p, ps) = any_grows-congr go other n same vs ps
any_grows-congr go other n same (arr s ∷ vs) (p, ps) = any_grows-congr go other n same vs ps
any_grows-congr go other n same (node s ∷ vs) (p, ps) = any_grows-congr go other n same vs ps

-- Any fuel from the size of the op upwards gives the same inserted nodes.
inserted_fuel-enough :
    (f g : ℕ) (op : Obj)
    → obj_size op ≤ f
    → obj_size op ≤ g
    → inserted_fuel f op ≡ inserted_fuel g op
unfolding inserted_fuel value_size
inserted_fuel-enough zero g (tagged t fs) h k = absurd (omega arith)
inserted_fuel-enough (suc f) zero (tagged t fs) h k = absurd (omega arith)
inserted_fuel-enough (suc f) (suc g) (tagged t fs) h k =
    let e : batch_roots (inserted_fuel f) (as_arr (get "ops" fs))
        ≡ batch_roots (inserted_fuel g) (as_arr (get "ops" fs)) =
      (elim (Option-cases (as_arr (get "ops" fs))) [
        | inl gone ↦ rw (gone, batch_roots) refl
        | inr (items, here) ↦
            rw (here, batch_roots)
              (roots_in-congr (inserted_fuel f) (inserted_fuel g) (obj_size (tagged t fs))
                (λ o p. inserted_fuel-enough f g o (omega arith) (omega arith)) items
                (inner-Below t fs items here))
      ]) in
    rw e refl

-- Any fuel from the size of the op upwards gives the same answer whether the op can grow a tree.
grows_fuel-enough :
    (f g : ℕ) (op : Obj) → obj_size op ≤ f → obj_size op ≤ g → grows_fuel f op ≡ grows_fuel g op
unfolding grows_fuel value_size
grows_fuel-enough zero g (tagged t fs) h k = absurd (omega arith)
grows_fuel-enough (suc f) zero (tagged t fs) h k = absurd (omega arith)
grows_fuel-enough (suc f) (suc g) (tagged t fs) h k =
    let e : batch_grows (grows_fuel f) (as_arr (get "ops" fs))
        ≡ batch_grows (grows_fuel g) (as_arr (get "ops" fs)) =
      (elim (Option-cases (as_arr (get "ops" fs))) [
        | inl gone ↦ rw (gone, batch_grows) refl
        | inr (items, here) ↦
            rw (here, batch_grows)
              (any_grows-congr (grows_fuel f) (grows_fuel g) (obj_size (tagged t fs))
                (λ o p. grows_fuel-enough f g o (omega arith) (omega arith)) items
                (inner-Below t fs items here))
      ]) in
    rw e refl
