-- ===== src/Idl/Types.antt =====
-- wire/idl/idl.go: the shape of the generated tables.
use fuaran_go.Prelude.{String, List, Bool, true, false}

pub data Optionality : Type 0 where
  required optional omit_default host_only : Optionality

pub data TypeKind : Type 0 where
  t_str t_bool t_int t_float t_json t_node t_kind t_op t_list t_map : TypeKind
  t_enum t_union t_record t_fn t_hosted t_var : TypeKind

mutual
  -- the kind, the name, the arguments, the element and the wire form
  pub data IdlType : Type 0 where
    idl_type : TypeKind → String → Args → Elem → String → IdlType

  pub data Args : Type 0 where
    no_args : Args
    arg : IdlType → Args → Args

  pub data Elem : Type 0 where
    no_elem : Elem
    elem : IdlType → Elem

abbrev pub type_kind : IdlType → TypeKind
type_kind (idl_type k n a e w) = k

abbrev pub type_name : IdlType → String
type_name (idl_type k n a e w) = n

abbrev pub type_elem : IdlType → Elem
type_elem (idl_type k n a e w) = e

pub record Field : Type 0 where
  pub name : String
  pub optionality : Optionality
  pub default : String
  pub type : IdlType

pub record Kind : Type 0 where
  pub tag : String
  pub category : String
  pub fields : List Field

pub record Case : Type 0 where
  pub tag : String
  pub fields : List Field

pub record Union : Type 0 where
  pub name : String
  pub cases : List Case

pub record Record : Type 0 where
  pub name : String
  pub fields : List Field

-- one line of a generated table
abbrev pub row : String → Optionality → String → IdlType → Field
row n o d t = record { name = n; optionality = o; default = d; type = t }

abbrev pub plain : TypeKind → IdlType
plain k = idl_type k "" no_args no_elem ""

abbrev pub named : TypeKind → String → IdlType
named k n = idl_type k n no_args no_elem ""

abbrev pub wired : TypeKind → String → IdlType
wired k w = idl_type k "" no_args no_elem w

abbrev pub list_of : IdlType → IdlType
list_of t = idl_type t_list "" no_args (elem t) ""

abbrev pub applied : TypeKind → String → Args → IdlType
applied k n a = idl_type k n a no_elem ""

-- `t.Kind == TNode`
abbrev pub is_node : IdlType → Bool
is_node (idl_type t_node n a e w) = true
is_node _ = false

abbrev elem_is_node : Elem → Bool
elem_is_node (elem t) = is_node t
elem_is_node no_elem = false

-- a list of nodes: an ordered child slot
abbrev pub is_node_list : IdlType → Bool
is_node_list (idl_type t_list n a e w) = elem_is_node e
is_node_list _ = false

abbrev pub is_host_only : Optionality → Bool
is_host_only host_only = true
is_host_only _ = false

abbrev pub is_omit_default : Optionality → Bool
is_omit_default omit_default = true
is_omit_default _ = false
