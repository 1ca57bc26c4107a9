-- ===== src/ServerDriven/Batches.antt =====
-- serverdriven/gate.go: the recursion of opMissingCapabilities into batches ends: the size of the op is
-- fuel enough.
use fuaran_go.Prelude.{
  ℕ, zero, suc, ◌≤◌, ◌<◌, String, ◌≡◌, refl, List, [], ◌∷◌, All, arith, Option-cases, inl, inr,
}
use fuaran_go.Wire.Size.{value_size, obj_size}
use fuaran_go.Wire.Value.{
  Value, str, int, float, bool, null, arr, obj, node, Obj, tagged, get, as_arr,
}
use fuaran_go.Ops.Traverse.{elements}
use fuaran_go.Ops.Laws.Batch.{Below, inner-Below}
use fuaran_go.ServerDriven.Gate.{CapabilityGate, op_missing_fuel, missing_of_all}

missing_of_all-congr :
    (go other : Obj → List String) (n : ℕ)
    → ((o : Obj) → obj_size o < n → go o ≡ other o)
    → (vs : List Value) → All (Below n) vs
    → missing_of_all go vs ≡ missing_of_all other vs
missing_of_all-congr go other n same [] _ = refl
missing_of_all-congr go other n same (obj o ∷ vs) (p, ps) =
    cc (same o p, missing_of_all-congr go other n same vs ps)
missing_of_all-congr go other n same (str s ∷ vs) (p, ps) =
    missing_of_all-congr go other n same vs ps
missing_of_all-congr go other n same (int s ∷ vs) (p, ps) =
    missing_of_all-congr go other n same vs ps
missing_of_all-congr go other n same (float s ∷ vs) (p, ps) =
    missing_of_all-congr go other n same vs ps
missing_of_all-congr go other n same (bool s ∷ vs) (p, ps) =
    missing_of_all-congr go other n same vs ps
missing_of_all-congr go other n same (null ∷ vs) (p, ps) =
    missing_of_all-congr go other n same vs ps
missing_of_all-congr go other n same (arr s ∷ vs) (p, ps) =
    missing_of_all-congr go other n same vs ps
missing_of_all-congr go other n same (node s ∷ vs) (p, ps) =
    missing_of_all-congr go other n same vs ps

-- Any fuel from the size of the op upwards gives the same missing capabilities.
op_missing_fuel-enough :
    (c : CapabilityGate) (f g : ℕ) (op : Obj)
    → obj_size op ≤ f
    → obj_size op ≤ g
    → op_missing_fuel c f op ≡ op_missing_fuel c g op
unfolding op_missing_fuel value_size
op_missing_fuel-enough c zero g (tagged t fs) h k = absurd (omega arith)
op_missing_fuel-enough c (suc f) zero (tagged t fs) h k = absurd (omega arith)
op_missing_fuel-enough c (suc f) (suc g) (tagged t fs) h k =
    let e : missing_of_all (op_missing_fuel c f) (elements (as_arr (get "ops" fs)))
        ≡ missing_of_all (op_missing_fuel c g) (elements (as_arr (get "ops" fs))) =
      (elim (Option-cases (as_arr (get "ops" fs))) [
        | inl gone ↦ rw (gone, elements) refl
        | inr (items, here) ↦
            rw (here, elements)
              (missing_of_all-congr (op_missing_fuel c f) (op_missing_fuel c g)
                (obj_size (tagged t fs))
                (λ o p. op_missing_fuel-enough c f g o (omega arith) (omega arith)) items
                (inner-Below t fs items here))
      ]) in
    rw e refl
