-- ===== src/Ops/Laws/Style.antt =====
-- ops/apply.go: what a style reads after a patch.
use fuaran_go.Prelude.{
  ◌+◌, ◌≤◌, String, ◌≡◌, refl, sym, ap, ◌∙◌, subst, ◌⊎◌, List, [], ◌∷◌, false, Option, none, some,
  str_eq, if◌then◌else◌, arith, Bool-cases, inl, inr, eq_iff,
}
use fuaran_go.Wire.Value.{
  Value, obj, tagged, Fields, end, field, Node, extras, get, set, set_all, get-set, get-set_self,
  get-delete, as_obj,
}
use fuaran_go.Ops.Traverse.{set_extra, drop_extra}
use fuaran_go.Ops.Apply.Structure.{tally}
use fuaran_go.Ops.Apply.Rewrite.{
  fields_of, is_identity, kept_members, store_kept, store_style, patch_style,
}

abbrev pub keys : Fields → List String
keys end = []
keys (field k v fs) = k ∷ keys fs

-- a Go map has a key at most once
abbrev pub Once : String → Fields → Type 0
Once k fs = tally k (keys fs) ≤ 1

-- the members of the style of a node
abbrev pub style_of : Node → Fields
style_of n = fields_of (as_obj (get "style" (extras n)))

-- the first of two readings
abbrev pub or_else : Option Value → Option Value → Option Value
or_else none o = o
or_else (some v) o = some v

-- a member at its identity reads as an absent one
abbrev pub not_identity : String → Option Value → Option Value
not_identity k none = none
not_identity k (some v) = if is_identity k v then none else some v

absent-get : (k : String) (fs : Fields) → tally k (keys fs) ≡ 0 → get k fs ≡ none
unfolding get
absent-get k end h = refl
absent-get k (field j v fs) h = elim (Bool-cases (str_eq j k)) [
  | inl same ↦ absurd (let h' : 1 + tally k (keys fs) ≡ 0 = (rw (same, tally) at h) in omega arith)
  | inr other ↦
      rw (other, get)
        (absent-get k fs
          (let h' : 0 + tally k (keys fs) ≡ 0 = (rw (other, tally) at h) in omega arith))
]

-- a write of a key that is there, or of a new one
tally-set_cases :
    (k j : String) (v : Value) (fs : Fields)
    → (tally k (keys (set j v fs)) ≡ tally k (keys fs))
      ⊎ ((j ≡ k) × (tally k (keys fs) ≡ 0) × (tally k (keys (set j v fs)) ≡ 1))
unfolding set
tally-set_cases k j v end = elim (Bool-cases (str_eq j k)) [
  | inl same ↦ inr ((eq_iff j k).0 same, refl, rw (same, tally) refl)
  | inr other ↦ inl (rw (other, tally) refl)
]
tally-set_cases k j v (field i w fs) = elim (Bool-cases (str_eq i j)) [
  | inl same ↦ inl (rw same (ap (λ x. tally k (x ∷ keys fs)) (sym ((eq_iff i j).0 same))))
  | inr other ↦ elim (tally-set_cases k j v fs) [
    | inl e ↦
        (let r : tally k (i ∷ keys (set j v fs)) ≡ tally k (i ∷ keys fs) = omega (arith, e) in
          inl (rw other r))
    | inr (e, z, o) ↦
        let apart : str_eq i k ≡ false = subst (λ x. str_eq i x ≡ false) e other in
        inr (e, rw (apart, tally) (omega arith), rw other (rw (apart, tally) (omega arith)))
  ]
]

tally-set : (k j : String) (v : Value) (fs : Fields) → Once k fs → Once k (set j v fs)
tally-set k j v fs h = elim (tally-set_cases k j v fs) [
  | inl e ↦ omega arith
  | inr (e, z, o) ↦ omega arith
]

set_all-Once : (k : String) (base over : Fields) → Once k base → Once k (set_all base over)
unfolding set_all
set_all-Once k base end h = h
set_all-Once k base (field j v over) h = set_all-Once k (set j v base) over (tally-set k j v base h)

get-set_all :
    (k : String) (base over : Fields)
    → Once k over
    → get k (set_all base over) ≡ or_else (get k over) (get k base)
unfolding set_all get
get-set_all k base end h = refl
get-set_all k base (field j v over) h = elim (Bool-cases (str_eq j k)) [
  | inl same ↦
      let h' : 1 + tally k (keys over) ≤ 1 = (rw (same, tally) at h) in
      get-set_all k (set j v base) over (omega arith)
      ∙ rw (absent-get k over (omega arith)) (get-set j k v base ∙ rw same refl)
  | inr other ↦
      let h' : 0 + tally k (keys over) ≤ 1 = (rw (other, tally) at h) in
      get-set_all k (set j v base) over (omega arith)
      ∙ ap (or_else (get k over)) {y = get k base} (get-set j k v base ∙ rw other refl)
      ∙ rw (other, get) refl
]

get-kept_members :
    (k : String) (fs : Fields) → Once k fs → get k (kept_members fs) ≡ not_identity k (get k fs)
unfolding kept_members get
get-kept_members k end h = refl
get-kept_members k (field j v fs) h = elim (Bool-cases (str_eq j k)) [
  | inl same ↦
      let h' : 1 + tally k (keys fs) ≤ 1 = (rw (same, tally) at h) in
      let e = (eq_iff j k).0 same in
      let rest =
        get-kept_members k fs (omega arith) ∙ ap (not_identity k) (absent-get k fs (omega arith)) in
      ground (arith, ap (λ i. is_identity i v) e)
  | inr other ↦
      let h' : 0 + tally k (keys fs) ≤ 1 = (rw (other, tally) at h) in
      let rest = get-kept_members k fs (omega arith) in ground arith
]

style_of-store_kept : (n : Node) (fs : Fields) → style_of (store_kept n fs) ≡ fs
unfolding set_extra drop_extra
style_of-store_kept n end = rw (get-delete "style" "style" (extras n)) refl
style_of-store_kept n (field k v fs) =
    rw (get-set_self "style" (obj (tagged "" (field k v fs))) (extras n)) refl

-- After a patch, a member of the style reads as the patch has it, else as it did before; a member at
-- its identity reads as absent. Neither the old style nor the patch has the member twice.
pub patch_style-reads :
    (k : String) (delta : Fields) (n : Node)
    → Once k (style_of n)
    → Once k delta
    → get k (style_of (patch_style delta n))
      ≡ not_identity k (or_else (get k delta) (get k (style_of n)))
unfolding patch_style store_style
patch_style-reads k delta n h d =
    ap (get k) (style_of-store_kept n (kept_members (set_all (style_of n) delta)))
    ∙ get-kept_members k (set_all (style_of n) delta) (set_all-Once k (style_of n) delta h)
    ∙ ap (not_identity k) (get-set_all k (style_of n) delta d)
