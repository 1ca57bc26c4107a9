-- ===== src/Wire/Value.antt =====
-- wire/value.go and wire/node.go: the decoded wire values, their fields, and the type assertions
-- that read them. A Go map is an association list; a missing key and a nil interface are `none`.
use fuaran_go.Prelude.{
  ℕ, String, ◌≡◌, refl, List, [], ◌∷◌, Bool, Option, none, some, str_eq, if◌then◌else◌, arith,
  eq_iff, eq_refl,
}
use fuaran_go.Prelude.Int.{ℤ}

mutual
  -- `float` holds the 64 bits of the number.
  pub data Value : Type 0 where
    str : String → Value
    int : ℤ → Value
    float : ℕ → Value
    bool : Bool → Value
    null : Value
    arr : Values → Value
    obj : Obj → Value
    node : Node → Value

  pub data Values : Type 0 where
    nil : Values
    cons : Value → Values → Values

  pub data Obj : Type 0 where
    tagged : String → Fields → Obj

  pub data Fields : Type 0 where
    end : Fields
    field : String → Value → Fields → Fields

  pub data Node : Type 0 where
    envelope : String → Obj → Fields → Node

abbrev pub tag : Obj → String
tag (tagged t fs) = t

abbrev pub fields : Obj → Fields
fields (tagged t fs) = fs

abbrev pub id : Node → String
id (envelope i k x) = i

abbrev pub kind : Node → Obj
kind (envelope i k x) = k

abbrev pub extras : Node → Fields
extras (envelope i k x) = x

abbrev pub to_list : Values → List Value
to_list nil = []
to_list (cons v vs) = v ∷ to_list vs

abbrev pub from_list : List Value → Values
from_list [] = nil
from_list (v ∷ vs) = cons v (from_list vs)

pub to_list-from_list : (vs : List Value) → to_list (from_list vs) ≡ vs
to_list-from_list [] = refl
to_list-from_list (v ∷ vs) = cc (to_list-from_list vs)

unfoldable pub get : String → Fields → Option Value
get k end = none
get k (field j v fs) = if str_eq j k then some v else get k fs

-- `m[k] = v` on a copy of the map
unfoldable pub set : String → Value → Fields → Fields
set k v end = field k v end
set k v (field j w fs) = if str_eq j k then field k v fs else field j w (set k v fs)

unfoldable pub delete : String → Fields → Fields
delete k end = end
delete k (field j w fs) = let rest = delete k fs in if str_eq j k then rest else field j w rest

-- every pair of `over` written into `base`, in order
unfoldable pub set_all : Fields → Fields → Fields
set_all base end = base
set_all base (field k v over) = set_all (set k v base) over

abbrev pub as_str : Option Value → Option String
as_str (some (str s)) = some s
as_str _ = none

abbrev pub as_int : Option Value → Option ℤ
as_int (some (int i)) = some i
as_int _ = none

abbrev pub as_arr : Option Value → Option (List Value)
as_arr (some (arr vs)) = some (to_list vs)
as_arr _ = none

abbrev pub as_obj : Option Value → Option Obj
as_obj (some (obj o)) = some o
as_obj _ = none

abbrev pub as_node : Option Value → Option Node
as_node (some (node n)) = some n
as_node _ = none

-- the elements that are nodes
abbrev pub nodes_in : List Value → List Node
nodes_in [] = []
nodes_in (node n ∷ vs) = n ∷ nodes_in vs
nodes_in (v ∷ vs) = nodes_in vs

pub get-set :
    (k j : String) (v : Value) (fs : Fields)
    → get j (set k v fs) ≡ (if str_eq k j then some v else get j fs)
unfolding get set
get-set k j v end = refl
get-set k j v (field i w fs) = ground (arith, eq_iff k j, eq_iff i k, eq_iff i j, get-set k j v fs)

pub get-set_self : (k : String) (v : Value) (fs : Fields) → get k (set k v fs) ≡ some v
get-set_self k v fs = simp (get-set, eq_refl)

pub get-delete :
    (k j : String) (fs : Fields) → get j (delete k fs) ≡ (if str_eq k j then none else get j fs)
unfolding get delete
get-delete k j end = ground arith
get-delete k j (field i w fs) =
    ground (arith, eq_iff k j, eq_iff i k, eq_iff i j, get-delete k j fs)
