-- ===== src/Merge/Contested.antt =====
-- merge/merge.go: what a merge never decides in silence.
use fuaran_go.Prelude.{ℕ, suc, String, ◌≡◌, refl, sym, ap, ◌∙◌, List, ◌∷◌, ◌++◌, append_assoc}
use fuaran_go.Wire.Core.{Core, Bytes}
use fuaran_go.Wire.Size.{node_size}
use fuaran_go.Wire.Value.{Node, envelope, kind}
use fuaran_go.Wire.Encode.{Encoded}
use fuaran_go.Merge.Refusal.{Conflict}
use fuaran_go.Merge.Facets.{
  childless_kind, kind_canonical, state_canonical, accessibility_canonical, tooltip_canonical,
}

pub node_size-suc : (n : Node) → (m : ℕ) × (node_size n ≡ suc m)
unfolding node_size
node_size-suc (envelope i k x) = (_, refl)

-- the list has a conflict of the kind
abbrev pub Has : (Conflict → Type 0) → List Conflict → Type 0
Has P l =
    (pre : List Conflict) × (c : Conflict) × (post : List Conflict) × P c × (l ≡ pre ++ c ∷ post)

module _ (P : Conflict → Type 0) where
  pub Has-left : (xs ys : List Conflict) → Has P xs → Has P (xs ++ ys)
  Has-left xs ys (pre, c, post, p, e) =
      (pre, c, post ++ ys, p, ap (λ l. l ++ ys) e ∙ append_assoc pre (c ∷ post) ys)

  pub Has-right : (xs ys : List Conflict) → Has P ys → Has P (xs ++ ys)
  Has-right xs ys (pre, c, post, p, e) =
      (xs ++ pre, c, post, p, ap (λ l. xs ++ l) e ∙ sym (append_assoc xs pre (c ∷ post)))

-- the facets of a node that are compared by their canonical bytes
pub data Facet : Type 0 where
  kind_facet : Facet
  state_facet : Facet
  accessibility_facet : Facet
  tooltip_facet : Facet

abbrev pub facet_name : Facet → String
facet_name kind_facet = "kind"
facet_name state_facet = "state"
facet_name accessibility_facet = "accessibility"
facet_name tooltip_facet = "tooltip"

-- the bytes of a facet of a node, in the shell that the base gives
abbrev pub facet_bytes : Core → Node → Facet → Node → Encoded
facet_bytes core base kind_facet n = kind_canonical core n
facet_bytes core base state_facet n = state_canonical core (childless_kind (kind base)) n
facet_bytes core base accessibility_facet n =
    accessibility_canonical core (childless_kind (kind base)) n
facet_bytes core base tooltip_facet n = tooltip_canonical core (childless_kind (kind base)) n

-- the cell, with the value of each branch at its own side
pub record IsCell (i facet : String) (x y : Bytes) (c : Conflict) : Type 0 where
  pub at : c.node_id ≡ i
  pub of_facet : c.facet ≡ facet
  pub a_value : c.a.value ≡ x
  pub b_value : c.b.value ≡ y
