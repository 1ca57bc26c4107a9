-- ===== src/Ops/Traverse/Edit.antt =====
-- What rewriting one node does to the tree: `map_node` succeeds exactly where `find_node` does, it
-- replaces the ids of the found subtree by those of the new one and no other, and the new node is
-- found where the old one was.
use fuaran_go.Prelude.{
  ℕ, ◌+◌, String, ◌≡◌, refl, sym, ap, ◌∙◌, List, [], ◌∷◌, ◌++◌, map, true, false, none, some,
  str_eq, All, All-append, arith, Option-cases, Bool-cases, inl, inr, append_assoc, append-nil,
}
use native.Mathlib.Nat.{add_comm}
use fuaran_go.Wire.Value.{Node, id}
use fuaran_go.Ops.Traverse.{
  ChildSlot, child_slots, children, find_node, first_mapped, map_node, all_ids,
}
use fuaran_go.Ops.Traverse.Slots.{child_of}
use fuaran_go.Ops.Traverse.Rebuild.{Rebuilds}
use fuaran_go.Ops.Traverse.Rebuild.Whole.{child_slots-Rebuilds}
use fuaran_go.Ops.Traverse.Walk.{node_induction}
use fuaran_go.Ops.Traverse.Laws.{
  first_in, ids_of, all_ids_lem, ids_of-children, find_node-here, find_node-deeper, map_node-here,
  map_node-deeper,
}

-- the total of a weight over a list of ids: a count, or a length
abbrev pub weigh : (String → ℕ) → List String → ℕ
weigh w [] = 0
weigh w (i ∷ is) = w i + weigh w is

pub weigh-append :
    (w : String → ℕ) (xs ys : List String) → weigh w (xs ++ ys) ≡ weigh w xs + weigh w ys
weigh-append w [] ys = omega arith
weigh-append w (x ∷ xs) ys = omega (arith, weigh-append w xs ys)

pub ids_of-append : (xs ys : List Node) → ids_of (xs ++ ys) ≡ ids_of xs ++ ids_of ys
ids_of-append [] ys = refl
ids_of-append (c ∷ xs) ys =
    cc (ids_of-append xs ys, append_assoc (all_ids c) (ids_of xs) (ids_of ys))

module _ (t : String) (f : Node → Node) where
  -- `n` becomes `n'` when its node `m` is rewritten
  pub record IsEdited (n m n' : Node) : Type 0 where
    pub mapped : map_node t f n ≡ some n'
    pub weight :
        (w : String → ℕ)
        → weigh w (all_ids n') + weigh w (all_ids m) ≡ weigh w (all_ids n) + weigh w (all_ids (f m))
    pub finds : str_eq (id (f m)) t ≡ true → find_node t n' ≡ some (f m)
    pub root : str_eq (id n) t ≡ false → id n' ≡ id n

  abbrev Edits : Node → Type 0
  Edits n = (m : Node) → find_node t n ≡ some m → (n' : Node) × IsEdited n m n'

  -- one round of the loop over the slots
  record IsLoop (n m : Node) (before : List Node) (ss : List ChildSlot) (n' : Node) : Type 0 where
    mapped : first_mapped (map_node t f) ss ≡ some n'
    same_id : id n' ≡ id n
    weight :
        (w : String → ℕ)
        → weigh w (ids_of (children n')) + weigh w (all_ids m)
          ≡ weigh w (ids_of (before ++ map child_of ss)) + weigh w (all_ids (f m))
    finds : str_eq (id (f m)) t ≡ true → first_in (find_node t) (children n') ≡ some (f m)

  -- `map_node` finds nothing where `find_node` does not
  abbrev Agrees : Node → Type 0
  Agrees n = find_node t n ≡ none → map_node t f n ≡ none

  first_mapped-none :
      (ss : List ChildSlot)
      → All Agrees (map child_of ss)
      → first_in (find_node t) (map child_of ss) ≡ none
      → first_mapped (map_node t f) ss ≡ none
  first_mapped-none [] _ h = refl
  first_mapped-none (s ∷ ss) (a, rest) h = elim (Option-cases (find_node t s.child)) [
    | inl gone ↦ rw (a gone, first_mapped) (first_mapped-none ss rest (rw (gone, first_in) at h))
    | inr (c, here) ↦ cc (rw (here, first_in) at h)
  ]

  agrees : (n : Node) → Agrees n
  agrees = node_induction Agrees λ n ih h. elim (Bool-cases (str_eq (id n) t)) [
    | inl same ↦ cc (find_node-here t n same)
    | inr other ↦
        map_node-deeper t n f other
        ∙ first_mapped-none (child_slots n) (unfold children in ih)
            (unfold children in sym (find_node-deeper t n other) ∙ h)
  ]

  -- every node in front of the place holds no target
  abbrev Misses : List Node → Type 0
  Misses = All (λ c. find_node t c ≡ none)

  first_in-Misses :
      (before after : List Node)
      → Misses before
      → first_in (find_node t) (before ++ after) ≡ first_in (find_node t) after
  first_in-Misses [] after _ = refl
  first_in-Misses (c ∷ before) after (h, hs) = rw (h, first_in) (first_in-Misses before after hs)

  first_in-here :
      (c : Node) (after : List Node) (m : Node)
      → find_node t c ≡ some m
      → first_in (find_node t) (c ∷ after) ≡ some m
  first_in-here c after m h = rw (h, first_in)

  weigh-middle :
      (w : String → ℕ) (before : List Node) (c : Node) (after : List Node)
      → weigh w (ids_of (before ++ c ∷ after))
        ≡ weigh w (ids_of before) + weigh w (all_ids c) + weigh w (ids_of after)
  weigh-middle w before c after = omega (
    arith,
    ap (weigh w) (ids_of-append before (c ∷ after)),
    weigh-append w (ids_of before) (ids_of (c ∷ after)),
    weigh-append w (all_ids c) (ids_of after),
  )

  loop :
      (n m : Node) (before : List Node) (ss : List ChildSlot)
      → Rebuilds n before ss []
      → All Edits (map child_of ss)
      → Misses before
      → first_in (find_node t) (map child_of ss) ≡ some m
      → (n' : Node) × IsLoop n m before ss n'
  loop n m before [] _ _ _ h = cc
  loop n m before (s ∷ ss) (here, rest) (e, es) miss h = elim (Option-cases (find_node t s.child)) [
    | inl gone ↦
        let (n', done) =
          loop n m (before ++ s.child ∷ []) ss rest es
            (All-append _ before (s.child ∷ []) miss (gone, tt)) (rw (gone, first_in) at h) in
        (
          n',
          record {
            mapped = rw (agrees s.child gone, first_mapped) done.mapped;
            same_id = done.same_id;
            weight = λ w.
                done.weight w
                ∙ ap (λ l. weigh w (ids_of l) + weigh w (all_ids (f m)))
                    (append_assoc before (s.child ∷ []) (map child_of ss));
            finds = done.finds;
          },
        )
    | inr (m', found) ↦
        let same : m' ≡ m = cc (rw (found, first_in) at h) in
        let (c, edit) = e m (found ∙ ap some same) in
        let (kept, kids) = here c in
        let kids' : children (s.rebuild c) ≡ before ++ c ∷ map child_of ss =
          kids ∙ ap (λ l. before ++ c ∷ l) (append-nil (map child_of ss)) in
        (
          s.rebuild c,
          record {
            mapped = rw (edit.mapped, first_mapped);
            same_id = kept;
            weight = λ w. omega (
              arith,
              ap (λ l. weigh w (ids_of l)) kids',
              weigh-middle w before c (map child_of ss),
              weigh-middle w before s.child (map child_of ss),
              edit.weight w,
            );
            finds = λ p.
                ap (first_in (find_node t)) kids'
                ∙ first_in-Misses before (c ∷ map child_of ss) miss
                ∙ first_in-here c (map child_of ss) (f m) (edit.finds p);
          },
        )
  ]

  -- Where the target is found, it is rewritten.
  pub edits : (n : Node) → Edits n
  edits = node_induction Edits λ n ih m h. elim (Bool-cases (str_eq (id n) t)) [
    | inl same ↦
        let e : n ≡ m = cc (find_node-here t n same) in
        (
          f n,
          record {
            mapped = map_node-here t n f same;
            weight = λ w. cc (e, add_comm (weigh w (all_ids (f n))) (weigh w (all_ids n)));
            finds = λ p. cc (find_node-here t (f m) p, e);
            root = λ p. cc;
          },
        )
    | inr other ↦
        let (n', done) =
          loop n m [] (child_slots n) (child_slots-Rebuilds n) (unfold children in ih) tt
            (unfold children in sym (find_node-deeper t n other) ∙ h) in
        (
          n',
          record {
            mapped = map_node-deeper t n f other ∙ done.mapped;
            weight = λ w. omega (
              arith,
              ap (weigh w) (all_ids_lem n'),
              ap (weigh w) (all_ids_lem n),
              ap w done.same_id,
              done.weight w,
              ap (weigh w) (ids_of-children n),
            );
            finds = λ p.
                find_node-deeper t n' (ap (λ i. str_eq i t) done.same_id ∙ other) ∙ done.finds p;
            root = λ p. done.same_id;
          },
        )
  ]

  -- `map_node` succeeds exactly where `find_node` does.
  pub map_node-none : (n : Node) → find_node t n ≡ none → map_node t f n ≡ none
  map_node-none n h = agrees n h
