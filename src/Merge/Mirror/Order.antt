-- ===== src/Merge/Mirror/Order.antt =====
-- merge/merge.go: the order of the merged children does not depend on the order of the branches.
use fuaran_go.Prelude.{
  ids_eq, ids_eq→eq, String, ◌≡◌, refl, sym, ap, ◌∙◌, Bool, true, false, not, ◌&&◌, ◌||◌, List, [],
  ◌∷◌, ◌++◌, append-nil, Option, some, arith, str_eq, eq_iff, eq_refl, Bool-cases, inl, inr,
}
use fuaran_go.Wire.Core.{Bytes, codes}
use fuaran_go.Merge.Order.{
  text_less, less_trans, less_asym, less_total, codes-inj, insert_string, sorted_set, contains,
}
use fuaran_go.Merge.Refusal.{
  Resolution, Conflict, record_conflict, winner, record_classed, pick, Pick, from_base, from_a,
  from_b,
}
use fuaran_go.Merge.Engine.{
  new_ids, overlaps, is_pure_addition, union_sorted, join_ids, both_changed, children_order,
}
use fuaran_go.Merge.Mirror.{
  Mirrors, Mirrors-append, swap, flip, winner-swap, record_conflict-Mirrors,
}

text_total : (s t : String) → text_less s t ≡ false → text_less t s ≡ false → s ≡ t
text_total s t h k = codes-inj s t (less_total (codes s) (codes t) h k)

text_asym : (s t : String) → text_less s t ≡ true → text_less t s ≡ false
text_asym s t h = less_asym (codes s) (codes t) h

text_trans : (s t u : String) → text_less s t ≡ true → text_less t u ≡ true → text_less s u ≡ true
text_trans s t u h k = less_trans (codes s) (codes t) (codes u) h k

-- how two strings compare
data Compared (s t : String) : Type 0 where
  same : s ≡ t → Compared s t
  before :
      str_eq s t ≡ false
      → text_less s t ≡ true
      → str_eq t s ≡ false
      → text_less t s ≡ false
      → Compared s t
  after :
      str_eq s t ≡ false
      → text_less s t ≡ false
      → str_eq t s ≡ false
      → text_less t s ≡ true
      → Compared s t

unequal : (s t : String) → str_eq s t ≡ false → str_eq t s ≡ false
unequal s t h = ground (arith, eq_iff s t, eq_iff t s)

compared : (s t : String) → Compared s t
compared s t = elim (Bool-cases (str_eq s t)) [
  | inl e ↦ same ((eq_iff s t).0 e)
  | inr e ↦ elim (Bool-cases (text_less s t)) [
    | inl l ↦ before e l (unequal s t e) (text_asym s t l)
    | inr l ↦ elim (Bool-cases (text_less t s)) [
      | inl m ↦ after e l (unequal s t e) m
      | inr m ↦ cc ((eq_iff s t).1 (text_total s t l m))
    ]
  ]
]

-- two insertions in front of or behind a head, the smaller text first
insert_twice_at :
    (x y z : String) (s : List String)
    → str_eq x y ≡ false
    → text_less x y ≡ true
    → str_eq y x ≡ false
    → text_less y x ≡ false
    → insert_string x (insert_string y s) ≡ insert_string y (insert_string x s)
    → Compared x z
    → Compared y z
    → insert_string x (insert_string y (z ∷ s)) ≡ insert_string y (insert_string x (z ∷ s))
unfolding insert_string
insert_twice_at x y z s e l f m ih (same p) (same q) = ground (arith, eq_iff x y)
insert_twice_at x y z s e l f m ih (same p) (before a b c d) = cc
insert_twice_at x y z s e l f m ih (same p) (after a b c d) = ground (arith, eq_refl z, eq_refl x)
insert_twice_at x y z s e l f m ih (before g h i j) (same q) = ground (arith, eq_refl z, eq_refl y)
insert_twice_at x y z s e l f m ih (before g h i j) (before a b c d) =
    rw (a, b, g, h, e, l, f, m, a, b) refl
insert_twice_at x y z s e l f m ih (before g h i j) (after a b c d) =
    rw (a, b, g, h, f, m, a, b) refl
insert_twice_at x y z s e l f m ih (after g h i j) (same q) = cc
insert_twice_at x y z s e l f m ih (after g h i j) (before a b c d) = cc (text_trans x y z l b)
insert_twice_at x y z s e l f m ih (after g h i j) (after a b c d) =
    rw (a, b, g, h, a, b) (ap (λ r. z ∷ r) ih)

insert_less_comm :
    (x y : String)
    → str_eq x y ≡ false
    → text_less x y ≡ true
    → str_eq y x ≡ false
    → text_less y x ≡ false
    → (s : List String) → insert_string x (insert_string y s) ≡ insert_string y (insert_string x s)
insert_less_comm x y e l f m [] = unfold insert_string in ground arith
insert_less_comm x y e l f m (z ∷ s) =
    insert_twice_at x y z s e l f m (insert_less_comm x y e l f m s) (compared x z) (compared y z)

insert_string_comm :
    (x y : String) (s : List String)
    → insert_string x (insert_string y s) ≡ insert_string y (insert_string x s)
insert_string_comm x y s = elim (compared x y) [
  | same p ↦ rw p refl
  | before e l f m ↦ insert_less_comm x y e l f m s
  | after e l f m ↦ sym (insert_less_comm y x f m e l s)
]

sorted_set-middle :
    (xs : List String) (y : String) (ys : List String)
    → sorted_set (xs ++ y ∷ ys) ≡ insert_string y (sorted_set (xs ++ ys))
unfolding sorted_set
sorted_set-middle [] y ys = refl
sorted_set-middle (x ∷ xs) y ys =
    ap (insert_string x) (sorted_set-middle xs y ys)
    ∙ insert_string_comm x y (sorted_set (xs ++ ys))

-- The union of two sets of ids is sorted in the same way whichever comes first.
union_sorted_comm : (xs ys : List String) → union_sorted xs ys ≡ union_sorted ys xs
unfolding union_sorted sorted_set
union_sorted_comm [] ys = ap sorted_set (sym (append-nil ys))
union_sorted_comm (x ∷ xs) ys =
    ap (insert_string x) (union_sorted_comm xs ys) ∙ sym (sorted_set-middle ys x xs)

overlaps-nil : (ys : List String) → overlaps [] ys ≡ false
unfolding overlaps contains
overlaps-nil [] = refl
overlaps-nil (y ∷ ys) = overlaps-nil ys

overlaps-cons :
    (x : String) (xs ys : List String) → overlaps (x ∷ xs) ys ≡ (contains ys x || overlaps xs ys)
unfolding overlaps contains
overlaps-cons x xs [] = refl
overlaps-cons x xs (y ∷ ys) =
    ground
      (arith, overlaps-cons x xs ys, eq_iff x y, eq_iff y x, split (contains xs y) (contains ys x))
  where
    split : (p q : Bool) → (p || (q || overlaps xs ys)) ≡ (q || (p || overlaps xs ys))
    split true true = refl
    split true false = refl
    split false true = refl
    split false false = refl

overlaps_comm : (xs ys : List String) → overlaps xs ys ≡ overlaps ys xs
unfolding overlaps
overlaps_comm [] ys = overlaps-nil ys
overlaps_comm (x ∷ xs) ys =
    overlaps-cons x xs ys ∙ ap (λ r. contains ys x || r) (overlaps_comm xs ys)

ids_eq_comm : (xs ys : List String) → ids_eq xs ys ≡ ids_eq ys xs
ids_eq_comm xs ys = elim (Bool-cases (ids_eq xs ys)) [
  | inl e ↦ rw (ids_eq→eq xs ys e) refl
  | inr e ↦ elim (Bool-cases (ids_eq ys xs)) [
    | inl f ↦ rw (ids_eq→eq ys xs f) refl
    | inr f ↦ e ∙ sym f
  ]
]

pick-flip : (p : Pick) (x y z : List String) → pick (flip p) x z y ≡ pick p x y z
unfolding flip
pick-flip from_base x y z = refl
pick-flip from_a x y z = refl
pick-flip from_b x y z = refl

pub &&_comm : (p q : Bool) → (p && q) ≡ (q && p)
&&_comm true true = refl
&&_comm true false = refl
&&_comm false true = refl
&&_comm false false = refl

-- the same conflicts with their sides transposed, and the same value
abbrev pub MirrorsWith {ℓ} : {A : Type ℓ} → List Conflict × A → List Conflict × A → Type ℓ
MirrorsWith m m' = Mirrors m.0 m'.0 × (m'.1 ≡ m.1)

record_conflict-winner :
    (res : Resolution) (i facet : String) (z x y : Option Bytes)
    → (record_conflict res i facet z x y).1 ≡ winner res
unfolding record_conflict record_classed
record_conflict-winner res i facet z x y = refl

-- whether both sides only added children, and different ones
abbrev only_added : List String → List String → List String → Bool
only_added z x y =
    (is_pure_addition z x && is_pure_addition z y) && not (overlaps (new_ids z x) (new_ids z y))

only_added_comm : (z x y : List String) → only_added z y x ≡ only_added z x y
only_added_comm z x y =
    rw
      (
        &&_comm (is_pure_addition z y) (is_pure_addition z x),
        overlaps_comm (new_ids z y) (new_ids z x),
      )
      refl

children_conflict-Mirrors :
    (res : Resolution) (i : String) (z x y : List String) (u v w : Option Bytes)
    → MirrorsWith
        (
          (record_conflict res i "children" u v w).0 ++ [],
          pick (record_conflict res i "children" u v w).1 z x y,
        )
        (
          (record_conflict (swap res) i "children" u w v).0 ++ [],
          pick (record_conflict (swap res) i "children" u w v).1 z y x,
        )
children_conflict-Mirrors res i z x y u v w = (
  Mirrors-append (record_conflict res i "children" u v w).0 []
      (record_conflict (swap res) i "children" u w v).0 []
      (record_conflict-Mirrors res i "children" u v w) refl,
  ap (λ p. pick p z y x) (record_conflict-winner (swap res) i "children" u w v ∙ winner-swap res)
      ∙ pick-flip (winner res) z x y
      ∙ ap (λ p. pick p z x y) (sym (record_conflict-winner res i "children" u v w)),
)

both_changed-Mirrors :
    (res : Resolution) (i : String) (z x y : List String)
    → MirrorsWith (both_changed res i z x y) (both_changed (swap res) i z y x)
unfolding both_changed
both_changed-Mirrors res i z x y =
    rw (only_added_comm z x y) (elim (Bool-cases (only_added z x y)) [
      | inl e ↦ rw e (refl, ap (λ l. z ++ l) (union_sorted_comm (new_ids z y) (new_ids z x)))
      | inr e ↦ rw e (
          children_conflict-Mirrors res i z x y (some (join_ids z)) (some (join_ids x))
            (some (join_ids y)))
    ])

pub children_order-Mirrors :
    (res : Resolution) (i : String) (z x y : List String)
    → MirrorsWith (children_order res i z x y) (children_order (swap res) i z y x)
unfolding children_order
children_order-Mirrors res i z x y = rw (ids_eq_comm y x) (elim (Bool-cases (ids_eq x z)) [
  | inl e ↦ elim (Bool-cases (ids_eq y z)) [
    | inl f ↦ rw (e, f) (refl, refl)
    | inr f ↦ rw (e, f) (refl, refl)
  ]
  | inr e ↦ elim (Bool-cases (ids_eq y z)) [
    | inl f ↦ rw (e, f) (refl, refl)
    | inr f ↦ elim (Bool-cases (ids_eq x y)) [
      | inl g ↦ rw (e, f, g) (refl, sym (ids_eq→eq x y g))
      | inr g ↦ rw (e, f, g) (both_changed-Mirrors res i z x y)
    ]
  ]
])
