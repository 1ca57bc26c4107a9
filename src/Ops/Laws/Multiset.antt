-- ===== src/Ops/Laws/Multiset.antt =====
-- ops/apply.go: the multiset test of ReorderChildren and the child list that it lets through.
use fuaran_go.Prelude.{
  ℕ, suc, ◌+◌, ◌≤◌, ◌<◌, String, ◌≡◌, refl, sym, ap, ◌∙◌, subst, ◌⊎◌, List, [], ◌∷◌, ◌++◌, map,
  true, str_eq, ltb, ◌==◌, ltb→lt, ==_iff, &&-true, if◌then◌else◌, length, length-append, arith,
  append_assoc, map-append, Bool-cases, inl, inr, eq_iff, eq_refl,
}
use fuaran_go.Wire.Value.{Node, id}
use fuaran_go.Ops.Traverse.{all_ids}
use fuaran_go.Ops.Traverse.Laws.{ids_of}
use fuaran_go.Ops.Traverse.Edit.{weigh, weigh-append}
use fuaran_go.Ops.Apply.Structure.{tally, takes_all, same_id_multiset, by_id, zero_node, reordered}
use fuaran_go.Ops.Laws.Unique.{tally-append}

abbrev pub id_of : Node → String
id_of c = id c

-- a place of an id
pub record At (i : String) (js : List String) : Type 0 where
  pub before : List String
  pub after : List String
  pub split : js ≡ before ++ i ∷ after

pub tally-At : (i : String) (js : List String) → 1 ≤ tally i js → At i js
tally-At i [] h = absurd (omega arith)
tally-At i (j ∷ js) h = elim (Bool-cases (str_eq j i)) [
  | inl same ↦ record { before = []; after = js; split = ap (λ x. x ∷ js) ((eq_iff j i).0 same) }
  | inr other ↦
      let rest =
        tally-At i js (let h' : 1 ≤ 0 + tally i js = (rw (other, tally) at h) in omega arith) in
      record { before = j ∷ rest.before; after = rest.after; split = ap (λ l. j ∷ l) rest.split }
]

-- nothing is taken more often than it is held
takes_all-le :
    (held taken is : List String)
    → takes_all held taken is ≡ true
    → (i : String) → (tally i is ≡ 0) ⊎ (tally i is + tally i taken ≤ tally i held)
takes_all-le held taken [] h i = inl refl
takes_all-le held taken (j ∷ is) h i =
    let (room, rest) =
      &&-true (ltb (tally j taken) (tally j held)) (takes_all held (j ∷ taken) is) h in
    let room' = ltb→lt (tally j taken) (tally j held) room in
    elim (Bool-cases (str_eq j i)) [
      | inl same ↦
          let room_i : tally i taken < tally i held =
            subst (λ x. tally x taken < tally x held) ((eq_iff j i).0 same) room' in
          elim (takes_all-le held (j ∷ taken) is rest i) [
            | inl none_left ↦ inr (rw (same, tally) (omega arith))
            | inr le ↦ inr (
                rw (same, tally)
                  (let le' : tally i is + (1 + tally i taken) ≤ tally i held =
                      (rw (same, tally) at le) in
                    omega arith))
          ]
      | inr other ↦ elim (takes_all-le held (j ∷ taken) is rest i) [
        | inl none_left ↦ inl (rw (other, tally) (omega arith))
        | inr le ↦ inr (
            rw (other, tally)
              (let le' : tally i is + (0 + tally i taken) ≤ tally i held =
                  (rw (other, tally) at le) in
                omega arith))
      ]
    ]

-- as long as, and nowhere more often: then a weight has the same total
pub weigh-covered :
    (g : String → ℕ) (is held : List String)
    → length held ≡ length is
    → ((i : String) → tally i is ≤ tally i held)
    → weigh g is ≡ weigh g held
weigh-covered g [] [] e h = refl
weigh-covered g [] (j ∷ held) e h = absurd (omega arith)
weigh-covered g (i ∷ is) held e h =
    let one : 1 ≤ tally i (i ∷ is) = (rw (eq_refl i, tally) (omega arith)) in
    let p = tally-At i held (omega (arith, h i)) in
    let rest = p.before ++ p.after in
    let covered : (k : String) → tally k is ≤ tally k rest = (λ k. omega (
      arith,
      h k,
      ap (tally k) p.split,
      tally-append k p.before (i ∷ p.after),
      tally-append k p.before p.after,
    )) in
    let long : length rest ≡ length is = omega (
      arith,
      ap length p.split,
      length-append {0} p.before (i ∷ p.after),
      length-append {0} p.before p.after,
    ) in
    omega (
      arith,
      weigh-covered g is rest long covered,
      ap (weigh g) p.split,
      weigh-append g p.before (i ∷ p.after),
      weigh-append g p.before p.after,
    )

-- what the test lets through
pub record IsReorder (cs : List Node) (order : List String) : Type 0 where
  pub covered : (i : String) → tally i order ≤ tally i (map id_of cs)
  pub long : length (map id_of cs) ≡ length order

pub length-map_id : (cs : List Node) → length (map id_of cs) ≡ length cs
length-map_id [] = refl
length-map_id (c ∷ cs) = ap suc (length-map_id cs)

pub same_id_multiset-IsReorder :
    (cs : List Node) (order : List String) → same_id_multiset cs order ≡ true → IsReorder cs order
unfolding same_id_multiset
same_id_multiset-IsReorder cs order h =
    let (long, takes) = &&-true (length cs == length order) (takes_all (map id_of cs) [] order) h in
    record {
      covered = λ i. elim (takes_all-le (map id_of cs) [] order takes i) [
        | inl none_left ↦ omega arith
        | inr le ↦ omega arith
      ];
      long = length-map_id cs ∙ (==_iff (length cs) (length order)).0 long;
    }

-- `byID[id]` has the id, if a child has it
by_id-id :
    (cs : List Node) (i : String) (d : Node)
    → (1 ≤ tally i (map id_of cs)) ⊎ (id d ≡ i)
    → id (by_id cs i d) ≡ i
by_id-id [] i d (inl h) = absurd (omega arith)
by_id-id [] i d (inr h) = h
by_id-id (c ∷ cs) i d h = elim (Bool-cases (str_eq (id c) i)) [
  | inl same ↦ rw (same, by_id) (by_id-id cs i c (inr ((eq_iff (id c) i).0 same)))
  | inr other ↦
      rw (other, by_id)
        (by_id-id cs i d (elim h [
          | inl k ↦
              inl
                (let k' : 1 ≤ 0 + tally i (map id_of cs) = (rw (other, tally) at k) in omega arith)
          | inr e ↦ inr e
        ]))
]

-- The new list has the ids of the order, in its order.
pub reordered-ids :
    (cs : List Node) (order : List String)
    → ((i : String) → tally i order ≤ tally i (map id_of cs))
    → map id_of (reordered cs order) ≡ order
reordered-ids cs [] h = refl
reordered-ids cs (i ∷ is) h =
    let one : 1 ≤ tally i (i ∷ is) = (rw (eq_refl i, tally) (omega arith)) in
    cc (
      by_id-id cs i zero_node (inl (omega (arith, h i))),
      reordered-ids cs is (λ k. omega (arith, h k)),
    )

-- a child that no later one shares its id with is what `byID` holds
by_id-later :
    (after : List Node) (i : String) (c : Node)
    → tally i (map id_of after) ≡ 0
    → by_id after i c ≡ c
by_id-later [] i c h = refl
by_id-later (a ∷ after) i c h = elim (Bool-cases (str_eq (id a) i)) [
  | inl same ↦
      absurd (let h' : 1 + tally i (map id_of after) ≡ 0 = (rw (same, tally) at h) in omega arith)
  | inr other ↦
      rw (other, by_id)
        (by_id-later after i c
          (let h' : 0 + tally i (map id_of after) ≡ 0 = (rw (other, tally) at h) in omega arith))
]

by_id-append :
    (before rest : List Node) (i : String) (d : Node)
    → by_id (before ++ rest) i d ≡ by_id rest i (by_id before i d)
by_id-append [] rest i d = refl
by_id-append (b ∷ before) rest i d = by_id-append before rest i (if str_eq (id b) i then b else d)

-- the weight of a subtree, read through the id of its root
abbrev through : (String → ℕ) → List Node → String → ℕ
through w cs i = weigh w (all_ids (by_id cs i zero_node))

weigh-through :
    (w : String → ℕ) (before rest : List Node)
    → ((i : String) → tally i (map id_of (before ++ rest)) ≤ 1)
    → weigh (through w (before ++ rest)) (map id_of rest) ≡ weigh w (ids_of rest)
weigh-through w before [] u = refl
weigh-through w before (c ∷ rest) u =
    let i = id c in
    let all = before ++ c ∷ rest in
    let counts : tally i (map id_of all)
        ≡ tally i (map id_of before) + tally i (i ∷ map id_of rest) =
      (ap (tally i) (map-append id_of before (c ∷ rest))
        ∙ tally-append i (map id_of before) (map id_of (c ∷ rest))) in
    let one : tally i (i ∷ map id_of rest) ≡ 1 + tally i (map id_of rest) =
      (rw (eq_refl i, tally) refl) in
    let held : by_id all i zero_node ≡ c =
      (by_id-append before (c ∷ rest) i zero_node
        ∙ rw (eq_refl i, by_id) (by_id-later rest i c (omega (arith, u i)))) in
    let e = append_assoc before (c ∷ []) rest in
    let ih =
      weigh-through w (before ++ c ∷ []) rest
        (subst (λ l. (k : String) → tally k (map id_of l) ≤ 1) (sym e) u) in
    omega (
      arith,
      ap (λ n. weigh w (all_ids n)) held,
      ap (λ l. weigh (through w l) (map id_of rest)) e,
      ih,
      weigh-append w (all_ids c) (ids_of rest),
    )

weigh-reordered :
    (w : String → ℕ) (cs : List Node) (order : List String)
    → weigh w (ids_of (reordered cs order)) ≡ weigh (through w cs) order
weigh-reordered w cs [] = refl
weigh-reordered w cs (i ∷ is) = omega (
  arith,
  weigh-append w (all_ids (by_id cs i zero_node)) (ids_of (reordered cs is)),
  weigh-reordered w cs is,
)

-- Children with different ids are all kept, each with its subtree.
pub weigh-IsReorder :
    (w : String → ℕ) (cs : List Node) (order : List String)
    → IsReorder cs order
    → ((i : String) → tally i (map id_of cs) ≤ 1)
    → weigh w (ids_of (reordered cs order)) ≡ weigh w (ids_of cs)
weigh-IsReorder w cs order r u =
    weigh-reordered w cs order
    ∙ weigh-covered (through w cs) order (map id_of cs) r.long r.covered
    ∙ weigh-through w [] cs u
