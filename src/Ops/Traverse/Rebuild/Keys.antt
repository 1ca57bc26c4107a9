-- ===== src/Ops/Traverse/Rebuild/Keys.antt =====
-- Slots under the keys of an object.
use fuaran_go.Prelude.{
  String, ◌≡◌, refl, sym, ap, ◌∙◌, subst, List, [], ◌∷◌, ◌++◌, true, false, none, some, arith,
  Option-cases, inl, inr, append_assoc, append-nil, eq_iff, eq_refl,
}
use fuaran_go.Wire.Value.{Value, node, Fields, Node, id, get, set, as_node, get-set, get-set_self}
use fuaran_go.Idl.Facts.{contains, distinct}
use fuaran_go.Ops.Traverse.{held_in, key_slots, children}
use fuaran_go.Ops.Traverse.Slots.{key_slots-children}
use fuaran_go.Ops.Traverse.Rebuild.{Rebuilds}

-- A write under a key of a list without repetition changes the node of that key alone.
pub held-set_ne :
    (fs : Fields) (k : String) (v : Value) (ks : List String)
    → contains k ks ≡ false
    → held_in (set k v fs) ks ≡ held_in fs ks
held-set_ne fs k v [] h = refl
held-set_ne fs k v (j ∷ ks) h =
    ground (arith, eq_iff j k, eq_iff k j, get-set k j v fs, held-set_ne fs k v ks)

contains-append :
    (k : String) (xs ys : List String)
    → contains k (xs ++ ys) ≡ false
    → (contains k xs ≡ false) × (contains k ys ≡ false)
contains-append k [] ys h = (refl, h)
contains-append k (x ∷ xs) ys h = ground (arith, contains-append k xs ys)

contains-middle : (k : String) (xs ys : List String) → contains k (xs ++ k ∷ ys) ≡ true
contains-middle k [] ys = rw eq_refl
contains-middle k (x ∷ xs) ys = ground (arith, contains-middle k xs ys)

distinct-middle :
    (k : String) (xs ys : List String)
    → distinct (xs ++ k ∷ ys) ≡ true
    → (contains k xs ≡ false) × (contains k ys ≡ false)
distinct-middle k [] ys h = ground arith
distinct-middle k (x ∷ xs) ys h =
    ground (arith, distinct-middle k xs ys, contains-append x xs (k ∷ ys), eq_iff x k, eq_iff k x)

held-append :
    (fs : Fields) (xs ys : List String) → held_in fs (xs ++ ys) ≡ held_in fs xs ++ held_in fs ys
held-append fs [] ys = refl
held-append fs (x ∷ xs) ys = ground (arith, held-append fs xs ys)

held-cons_some :
    (fs : Fields) (k : String) (c : Node) (ks : List String)
    → as_node (get k fs) ≡ some c
    → held_in fs (k ∷ ks) ≡ c ∷ held_in fs ks
held-cons_some fs k c ks h = rw (h, held_in)

held-cons_none :
    (fs : Fields) (k : String) (ks : List String)
    → as_node (get k fs) ≡ none
    → held_in fs (k ∷ ks) ≡ held_in fs ks
held-cons_none fs k ks h = rw (h, held_in)

held-set :
    (fs : Fields) (k : String) (c : Node) (xs ys : List String)
    → distinct (xs ++ k ∷ ys) ≡ true
    → held_in (set k (node c) fs) (xs ++ k ∷ ys) ≡ held_in fs xs ++ c ∷ held_in fs ys
held-set fs k c xs ys h =
    let (nx, ny) = distinct-middle k xs ys h in
    held-append (set k (node c) fs) xs (k ∷ ys)
    ∙ cc (
      held-set_ne fs k (node c) xs nx,
      held-set_ne fs k (node c) ys ny,
      held-cons_some (set k (node c) fs) k c ys (ap as_node (get-set_self k (node c) fs)),
    )

module _ (n : Node) (put : String → Node → Node) (fs : Fields) (all : List String)
    (pre after : List Node) (once : distinct all ≡ true)
    (put_id : (k : String) (c : Node) → id (put k c) ≡ id n)
    (put_children : (k : String) (c : Node)
      → contains k all ≡ true
      → children (put k c) ≡ pre ++ (held_in (set k (node c) fs) all ++ after)) where
  -- The slots under the keys of an object.
  pub key-Rebuilds :
      (done ks : List String)
      → all ≡ done ++ ks
      → Rebuilds n (pre ++ held_in fs done) (key_slots put fs ks) after
  unfolding key_slots
  key-Rebuilds done [] e = tt
  key-Rebuilds done (k ∷ ks) e = elim (Option-cases (as_node (get k fs))) [
    | inl gone ↦
        rw (gone, key_slots)
          (subst (λ l. Rebuilds n (pre ++ l) (key_slots put fs ks) after)
            (held-append fs done (k ∷ [])
              ∙ ap (λ l. held_in fs done ++ l) (held-cons_none fs k [] gone)
              ∙ append-nil (held_in fs done))
            (key-Rebuilds (done ++ k ∷ []) ks (e ∙ sym (append_assoc done (k ∷ []) ks))))
    | inr (c, here) ↦
        rw (here, key_slots)
          (
            (λ c'. (
              put_id k c',
              put_children k c' (rw e (contains-middle k done ks))
                  ∙ ap (λ l. pre ++ (l ++ after)) (rw e (held-set fs k c' done ks (rw e at once)))
                  ∙ ap (λ l. pre ++ l) (append_assoc (held_in fs done) (c' ∷ held_in fs ks) after)
                  ∙ sym (append_assoc pre (held_in fs done) (c' ∷ held_in fs ks ++ after))
                  ∙ ap (λ l. (pre ++ held_in fs done) ++ c' ∷ (l ++ after))
                      (sym (key_slots-children put fs ks)),
            )),
            subst (λ l. Rebuilds n l (key_slots put fs ks) after)
                (ap (λ l. pre ++ l)
                    (held-append fs done (k ∷ [])
                      ∙ ap (λ l. held_in fs done ++ l) (held-cons_some fs k c [] here))
                  ∙ sym (append_assoc pre (held_in fs done) (c ∷ [])))
                (key-Rebuilds (done ++ k ∷ []) ks (e ∙ sym (append_assoc done (k ∷ []) ks))),
          )
  ]
