-- ===== src/Merge/Envelope/Shuffle.antt =====
-- merge/merge.go: the envelope does not depend on the order in which a merge records its refusals.
use fuaran_go.Prelude.{
  String, ◌≡◌, refl, sym, ap, ◌∙◌, true, false, List, [], ◌∷◌, ◌++◌, arith, eq_iff, Bool-cases, inl,
  inr,
}
use fuaran_go.Wire.Core.{Core, Bytes, codes}
use fuaran_go.Merge.Order.{text_less, less_trans, less_asym, less_total, codes-inj}
use fuaran_go.Merge.Refusal.{Conflict}
use fuaran_go.Merge.Envelope.{
  cell_less, insert_cell, sort_canonical, encode_cells, encode_envelope, Apart, Shuffled, done,
  keep, pass, chain,
}

text_total : (s t : String) → text_less s t ≡ false → text_less t s ≡ false → s ≡ t
text_total s t h k = codes-inj s t (less_total (codes s) (codes t) h k)

cell_less_asym : (c d : Conflict) → cell_less c d ≡ true → cell_less d c ≡ false
unfolding cell_less
cell_less_asym c d h = ground (
  arith,
  eq_iff c.node_id d.node_id,
  eq_iff d.node_id c.node_id,
  less_asym (codes c.node_id) (codes d.node_id),
  less_asym (codes c.facet) (codes d.facet),
)

cell_less_trans :
    (c d e : Conflict) → cell_less c d ≡ true → cell_less d e ≡ true → cell_less c e ≡ true
unfolding cell_less
cell_less_trans c d e h k = ground (
  arith,
  eq_iff c.node_id d.node_id,
  eq_iff d.node_id e.node_id,
  eq_iff c.node_id e.node_id,
  less_trans (codes c.node_id) (codes d.node_id) (codes e.node_id),
  less_trans (codes c.facet) (codes d.facet) (codes e.facet),
  less_asym (codes c.node_id) (codes d.node_id),
)

cell_less_total : (c d : Conflict) → Apart c d → cell_less c d ≡ false → cell_less d c ≡ true
unfolding cell_less
cell_less_total c d apart h = ground (
  arith,
  eq_iff c.node_id d.node_id,
  eq_iff d.node_id c.node_id,
  eq_iff c.facet d.facet,
  text_total c.node_id d.node_id,
  text_total c.facet d.facet,
)

-- the head of the list against the two conflicts that are put in, the smaller one first
insert_twice_at :
    (c d e : Conflict) (l : List Conflict)
    → cell_less c d ≡ true
    → cell_less d c ≡ false
    → insert_cell c (insert_cell d l) ≡ insert_cell d (insert_cell c l)
    → insert_cell c (insert_cell d (e ∷ l)) ≡ insert_cell d (insert_cell c (e ∷ l))
unfolding insert_cell
insert_twice_at c d e l h k ih = elim (Bool-cases (cell_less e d)) [
  | inl ed ↦ elim (Bool-cases (cell_less e c)) [
    | inl ec ↦ rw (ed, ec, ed) (ap (λ r. e ∷ r) ih)
    | inr ec ↦ rw (ed, ec, h, ed) refl
  ]
  | inr ed ↦ elim (Bool-cases (cell_less e c)) [
    | inl ec ↦ cc (cell_less_trans e c d ec h)
    | inr ec ↦ rw (ed, ec, k, h, ed) refl
  ]
]

insert_less_comm :
    (c d : Conflict)
    → cell_less c d ≡ true
    → cell_less d c ≡ false
    → (l : List Conflict) → insert_cell c (insert_cell d l) ≡ insert_cell d (insert_cell c l)
insert_less_comm c d h k [] = unfold insert_cell in rw (h, k) refl
insert_less_comm c d h k (e ∷ l) = insert_twice_at c d e l h k (insert_less_comm c d h k l)

insert_cell_comm :
    (c d : Conflict) (l : List Conflict)
    → Apart c d
    → insert_cell c (insert_cell d l) ≡ insert_cell d (insert_cell c l)
insert_cell_comm c d l apart = elim (Bool-cases (cell_less c d)) [
  | inl h ↦ insert_less_comm c d h (cell_less_asym c d h) l
  | inr h ↦
      let k = cell_less_total c d apart h in sym (insert_less_comm d c k (cell_less_asym d c k) l)
]

sort_canonical-Shuffled : {l m : List Conflict} → Shuffled l m → sort_canonical l ≡ sort_canonical m
unfolding sort_canonical
sort_canonical-Shuffled done = refl
sort_canonical-Shuffled (keep c s) = ap (insert_cell c) (sort_canonical-Shuffled s)
sort_canonical-Shuffled (pass {l} c d apart) = insert_cell_comm c d (sort_canonical l) apart
sort_canonical-Shuffled (chain s t) = sort_canonical-Shuffled s ∙ sort_canonical-Shuffled t

-- Two recordings of one set of refusals, in whatever orders, have the same canonical order and the
-- same envelope, byte for byte, provided that refusals of one cell keep their order.
pub encode_envelope-Shuffled :
    (core : Core) (escape_bytes : Bytes → Bytes) (l m : List Conflict)
    → Shuffled l m
    → (sort_canonical l ≡ sort_canonical m)
      × (encode_envelope core escape_bytes l ≡ encode_envelope core escape_bytes m)
unfolding encode_envelope
encode_envelope-Shuffled core escape_bytes l m s =
    let e = sort_canonical-Shuffled s in
    (e, ap (λ cs. codes "[" ++ encode_cells core escape_bytes cs ++ codes "]") e)
