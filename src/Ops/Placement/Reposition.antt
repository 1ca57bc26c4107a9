-- ===== src/Ops/Placement/Reposition.antt =====
-- ops/placement.go: reposition.
use fuaran_go.Prelude.{
  ℕ, suc, ◌+◌, String, ◌≡◌, refl, sym, ap, ◌∙◌, inl, inr, List, [], ◌∷◌, ◌++◌, append-nil,
  append_assoc, false, Option, none, some, str_eq, eq_iff, length, take, drop, arith, Bool-cases,
  Option-cases,
}
use fuaran_go.Ops.Traverse.{contains_id}
use fuaran_go.Ops.Placement.{
  PlacementKind, last, first, before, after, unset, Placement, unknown_anchor, unknown_placement,
  Placed, placed, denied, without, index_of, anchored, at_place, reposition,
}

-- the anchor is at the place, and this is its first occurrence
abbrev pub AnchorAt : String → PlacementKind → List String → List String → Type 0
AnchorAt a last pre post = post ≡ []
AnchorAt a first pre post = pre ≡ []
AnchorAt a before pre post = (tail : List String) × (post ≡ a ∷ tail) × (contains_id a pre ≡ false)
AnchorAt a after pre post =
    (head : List String) × (pre ≡ head ++ a ∷ []) × (contains_id a head ≡ false)
AnchorAt a (unset k) pre post = ⊥

-- the moved node between the others, which keep their order
pub record IsAmong (moved : String) (p : Placement) (others out : List String) : Type 0 where
  pub pre : List String
  pub post : List String
  pub split : others ≡ pre ++ post
  pub whole : out ≡ pre ++ moved ∷ post
  pub at : AnchorAt p.anchor p.place pre post

abbrev pub NeedsAnchor : PlacementKind → Type 0
NeedsAnchor before = Unit
NeedsAnchor after = Unit
NeedsAnchor k = ⊥

abbrev pub IsUnset : PlacementKind → Type 0
IsUnset (unset k) = Unit
IsUnset k = ⊥

-- the order, or a refusal with its reason
abbrev pub IsAnswer : String → String → Placement → List String → Placed (List String) → Type 0
IsAnswer moved parent_id p others (placed out) = IsAmong moved p others out
IsAnswer moved parent_id p others (denied (unknown_anchor a q)) =
    NeedsAnchor p.place × (a ≡ p.anchor) × (q ≡ parent_id) × (contains_id p.anchor others ≡ false)
IsAnswer moved parent_id p others (denied unknown_placement) = IsUnset p.place
IsAnswer moved parent_id p others (denied e) = ⊥

take-more : (n : ℕ) (xs ys : List String) → take (length xs + n) (xs ++ ys) ≡ xs ++ take n ys
take-more n [] ys = let e : 0 + n ≡ n = omega arith in ap (λ k. take k ys) e
take-more n (x ∷ xs) ys =
    let e : suc (length xs) + n ≡ suc (length xs + n) = omega arith in
    rw e (ap (λ l. x ∷ l) (take-more n xs ys))

drop-more : (n : ℕ) (xs ys : List String) → drop (length xs + n) (xs ++ ys) ≡ drop n ys
drop-more n [] ys = let e : 0 + n ≡ n = omega arith in ap (λ k. drop k ys) e
drop-more n (x ∷ xs) ys =
    let e : suc (length xs) + n ≡ suc (length xs + n) = omega arith in rw e (drop-more n xs ys)

-- where an index is found, the list splits there
record SplitsAt (a : String) (xs : List String) (k : ℕ) : Type 0 where
  head : List String
  tail : List String
  list : xs ≡ head ++ a ∷ tail
  place : k ≡ length head
  fresh : contains_id a head ≡ false

index_of-SplitsAt :
    (a : String) (xs : List String) (k : ℕ) → index_of a xs ≡ some k → SplitsAt a xs k
index_of-SplitsAt a [] k h = cc
index_of-SplitsAt a (x ∷ xs) k h = elim (Bool-cases (str_eq x a)) [
  | inl same ↦
      let zero_k : 0 ≡ k = ground (arith) in
      record {
        head = [];
        tail = xs;
        list = ap (λ y. y ∷ xs) ((eq_iff x a).0 same);
        place = sym zero_k;
        fresh = refl;
      }
  | inr other ↦ elim (Option-cases (index_of a xs)) [
    | inl gone ↦ cc (rw (other, gone, index_of) at h)
    | inr (j, here) ↦
        let s = index_of-SplitsAt a xs j here in
        let next : suc j ≡ k = cc (rw (other, here, index_of) at h) in
        record {
          head = x ∷ s.head;
          tail = s.tail;
          list = ap (λ l. x ∷ l) s.list;
          place = sym next ∙ ap suc s.place;
          fresh = rw other s.fresh;
        }
  ]
]

index_of-none : (a : String) (xs : List String) → index_of a xs ≡ none → contains_id a xs ≡ false
index_of-none a [] h = refl
index_of-none a (x ∷ xs) h = elim (Bool-cases (str_eq x a)) [
  | inl same ↦ cc (rw (same, index_of) at h)
  | inr other ↦ elim (Option-cases (index_of a xs)) [
    | inl gone ↦ rw other (index_of-none a xs gone)
    | inr (j, here) ↦ cc (rw (other, here, index_of) at h)
  ]
]

module _ (moved parent_id a : String) (others : List String) where
  before-IsAnswer :
      (o : Option ℕ)
      → index_of a others ≡ o
      → IsAnswer moved parent_id
          (record { place = before; anchor = a })
          others
          (anchored others moved parent_id a 0)
  unfolding anchored
  before-IsAnswer none e = rw (e, anchored) (tt, refl, refl, index_of-none a others e)
  before-IsAnswer (some k) e =
      let s = index_of-SplitsAt a others k e in
      rw (e, anchored)
        (record {
          pre = s.head;
          post = a ∷ s.tail;
          split = s.list;
          whole =
              rw
                (
                  s.place,
                  s.list,
                  take-more 0 s.head (a ∷ s.tail),
                  drop-more 0 s.head (a ∷ s.tail),
                  append-nil s.head,
                )
                refl;
          at = (s.tail, refl, s.fresh);
        })

  after-IsAnswer :
      (o : Option ℕ)
      → index_of a others ≡ o
      → IsAnswer moved parent_id
          (record { place = after; anchor = a })
          others
          (anchored others moved parent_id a 1)
  unfolding anchored
  after-IsAnswer none e = rw (e, anchored) (tt, refl, refl, index_of-none a others e)
  after-IsAnswer (some k) e =
      let s = index_of-SplitsAt a others k e in
      rw (e, anchored)
        (record {
          pre = s.head ++ a ∷ [];
          post = s.tail;
          split = s.list ∙ sym (append_assoc s.head (a ∷ []) s.tail);
          whole =
              rw (s.place, s.list, take-more 1 s.head (a ∷ s.tail), drop-more 1 s.head (a ∷ s.tail))
                refl;
          at = (s.head, refl, s.fresh);
        })

-- An order by reposition has the other siblings as they were, with the moved node among them: behind
-- all, in front of all, or next to the first occurrence of the anchor, on the side asked for. It is
-- refused exactly for an anchor that is not among the others, and for a kind that is none of the four.
pub reposition-IsAnswer :
    (order : List String) (moved parent_id : String) (p : Placement)
    → IsAnswer moved parent_id p (without moved order) (reposition order moved parent_id p)
unfolding reposition at_place
reposition-IsAnswer order moved parent_id p = go p.place p.anchor
  where
    others : List String
    others = without moved order

    go :
        (k : PlacementKind) (a : String)
        → IsAnswer moved parent_id
            (record { place = k; anchor = a })
            others
            (at_place k a others moved parent_id)
    go last a = record {
      pre = others;
      post = [];
      split = sym (append-nil others);
      whole = refl;
      at = refl;
    }
    go first a = record { pre = []; post = others; split = refl; whole = refl; at = refl }
    go before a = before-IsAnswer moved parent_id a others (index_of a others) refl
    go after a = after-IsAnswer moved parent_id a others (index_of a others) refl
    go (unset k) a = tt
