-- ===== src/Wire/Size.antt =====
-- The size of a value: every value that an object or an array holds is smaller.
use fuaran_go.Prelude.{ℕ, suc, ◌+◌, ◌<◌, String, ◌≡◌, some, arith, str_eq, Bool-cases, inl, inr}
use fuaran_go.Wire.Value.{
  Value, str, int, float, bool, null, arr, obj, node, Values, nil, cons, Obj, tagged, Fields, end,
  field, Node, envelope, get,
}

unfoldable mutual
  pub value_size : Value → ℕ
  value_size (arr vs) = suc (values_size vs)
  value_size (obj o) = suc (obj_size o)
  value_size (node n) = suc (node_size n)
  value_size (str s) = 1
  value_size (int i) = 1
  value_size (float b) = 1
  value_size (bool b) = 1
  value_size null = 1

  pub values_size : Values → ℕ
  values_size nil = 1
  values_size (cons v vs) = suc (value_size v + values_size vs)

  pub obj_size : Obj → ℕ
  obj_size (tagged t fs) = suc (fields_size fs)

  pub fields_size : Fields → ℕ
  fields_size end = 1
  fields_size (field k v fs) = suc (value_size v + fields_size fs)

  pub node_size : Node → ℕ
  node_size (envelope i k x) = suc (obj_size k + fields_size x)

pub get-lt :
    (k : String) (fs : Fields) (v : Value) → get k fs ≡ some v → value_size v < fields_size fs
unfolding get value_size
get-lt k end v h = cc
get-lt k (field j w fs) v h = elim (Bool-cases (str_eq j k)) [
  | inl same ↦ ground arith
  | inr other ↦ let h' : get k fs ≡ some v = (rw other at h) in omega (arith, get-lt k fs v h')
]
