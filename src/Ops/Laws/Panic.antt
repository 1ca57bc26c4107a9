-- ===== src/Ops/Laws/Panic.antt =====
-- ops/prop.go: where an UpdateProp panics, and where it cannot.
use fuaran_go.Prelude.{
  ℕ, zero, suc, ◌<◌, String, ◌≡◌, ◌≢◌, refl, sym, ap, subst, List, [], ◌∷◌, Bool, true, false,
  Option, none, some, str_eq, length, get_elem?, arith, Option-cases, Bool-cases, inl, inr,
}
use fuaran_go.Prelude.Int.{pos, negsuc}
use fuaran_go.Wire.Core.{Core, Bytes, codes}
use fuaran_go.Wire.Value.{Value, str, Obj, kind, tag, fields, get, as_arr, as_obj}
use fuaran_go.Ops.Traverse.{elements}
use fuaran_go.Ops.Prop.Tables.{text}
use fuaran_go.Ops.Prop.Coerce.{coerce}
use fuaran_go.Ops.Prop.Path.{PathSeg}
use fuaran_go.Ops.Prop.Nested.{
  NestedOutcome, index_panic, NestedLeaf, NestedList, update_nested, nested_lists, chart_leg,
  record_leg, leaf_leg, record_write, coerced_or, write_element, chart_write, out_of_range,
  element_at, is_closure_leaf, find_leaf, names_field,
}

in_range :
    (i : ℕ) (items : List Value) → i < length items → (v : Value) × (get_elem? items i ≡ some v)
in_range i [] h = absurd (omega arith)
in_range zero (x ∷ xs) h = (x, refl)
in_range (suc i) (x ∷ xs) h = in_range i xs (omega arith)

element_at-in_range :
    (i : ℕ) (items : List Value)
    → out_of_range (pos i) (length items) ≡ false
    → (v : Value) × (element_at (pos i) items ≡ some v)
element_at-in_range i items h = in_range i items (ground arith)

module _ (core : Core) where
  write_element-total :
      (kind : Obj) (key : String) (i : ℕ) (items : List Value) (v : Value)
      → out_of_range (pos i) (length items) ≡ false
      → write_element core kind key (pos i) items v ≢ index_panic
  write_element-total kind key i items v h p =
      let (old, here) = element_at-in_range i items h in cc (rw (here, write_element) at p)

  coerced_or-total :
      (o : Option Value) (put : Value → NestedOutcome)
      → ((w : Value) → put w ≢ index_panic)
      → coerced_or core o put ≢ index_panic
  coerced_or-total none put h p = cc
  coerced_or-total (some w) put h p = h w p

  -- a head segment with an index that is not negative
  abbrev at : Bytes → ℕ → Bool → PathSeg
  at f i b = record { field = f; index = pos i; has_index = b }

  chart_write-total :
      (f : Bytes) (i : ℕ) (b : Bool) (rest : List PathSeg) (items : List Value) (v : Value)
      (kind : Obj)
      → out_of_range (pos i) (length items) ≡ false
      → chart_write core (at f i b) rest items v kind ≢ index_panic
  chart_write-total f i b [] items v kind h p =
      coerced_or-total (coerce core text v) (write_element core kind "yFields" (pos i) items)
        (λ w. write_element-total kind "yFields" i items w h) p
  chart_write-total f i b (r ∷ rest) items v kind h p = cc

  chart_leg-total :
      (f : Bytes) (i : ℕ) (b : Bool) (rest : List PathSeg) (v : Value) (kind : Obj)
      → chart_leg core (at f i b) rest v kind ≢ index_panic
  unfolding chart_leg
  chart_leg-total f i b rest v kind p =
      let items = elements (as_arr (get "yFields" (fields kind))) in
      elim (Bool-cases (names_field f "YFields")) [
        | inr other ↦ cc (rw (other, chart_leg) at p)
        | inl same ↦ elim (Bool-cases b) [
          | inr bare ↦ cc (rw (same, bare, chart_leg) at p)
          | inl indexed ↦ elim (Bool-cases (out_of_range (pos i) (length items))) [
            | inl past ↦ cc (rw (same, indexed, past, chart_leg) at p)
            | inr within ↦
                chart_write-total f i b rest items v kind within
                  (rw (same, indexed, within, chart_leg) at p)
          ]
        ]
      ]

  record_write-total :
      (entry : NestedList) (l : NestedLeaf) (f : Bytes) (i : ℕ) (b : Bool) (items : List Value)
      (v : Value) (kind : Obj)
      → out_of_range (pos i) (length items) ≡ false
      → record_write core entry l (at f i b) items v kind ≢ index_panic
  unfolding record_write
  record_write-total entry l f i b items v kind h p =
      let (old, here) = element_at-in_range i items h in
      elim (Option-cases (as_obj (some old))) [
        | inl other ↦ cc (rw (here, other, record_write) at p)
        | inr (o, is_obj) ↦
            write_element-total kind entry.wire_key i items _ h
              (rw (here, is_obj, record_write) at p)
      ]

  leaf_leg-total :
      (entry : NestedList) (f : Bytes) (i : ℕ) (b : Bool) (rest : List PathSeg) (items : List Value)
      (v : Value) (kind : Obj)
      → out_of_range (pos i) (length items) ≡ false
      → leaf_leg core entry (at f i b) rest items v kind ≢ index_panic
  unfolding leaf_leg
  leaf_leg-total entry f i b [] items v kind h p = cc
  leaf_leg-total entry f i b (s ∷ r ∷ rest) items v kind h p = cc
  leaf_leg-total entry f i b (s ∷ []) items v kind h p = elim (Bool-cases s.has_index) [
    | inl indexed ↦ cc (rw (indexed, leaf_leg) at p)
    | inr plain ↦ elim (Bool-cases (is_closure_leaf s.field entry.closure_leaves)) [
      | inl closure ↦ cc (rw (plain, closure, leaf_leg) at p)
      | inr open_leaf ↦ elim (Option-cases (find_leaf s.field entry.leaves)) [
        | inl gone ↦ cc (rw (plain, open_leaf, gone, leaf_leg) at p)
        | inr (l, here) ↦
            coerced_or-total (coerce core l.coercer v)
              (λ w. record_write core entry l (at f i b) items w kind)
              (λ w. record_write-total entry l f i b items w kind h)
              (rw (plain, open_leaf, here, leaf_leg) at p)
      ]
    ]
  ]

  record_leg-total :
      (entry : NestedList) (f : Bytes) (i : ℕ) (b : Bool) (rest : List PathSeg) (v : Value)
      (kind : Obj)
      → record_leg core entry (at f i b) rest v kind ≢ index_panic
  unfolding record_leg
  record_leg-total entry f i b rest v kind p =
      let items = elements (as_arr (get entry.wire_key (fields kind))) in
      elim (Bool-cases (names_field f entry.name)) [
        | inr other ↦ cc (rw (other, record_leg) at p)
        | inl same ↦ elim (Bool-cases b) [
          | inr bare ↦ cc (rw (same, bare, record_leg) at p)
          | inl indexed ↦ elim (Bool-cases (out_of_range (pos i) (length items))) [
            | inl past ↦ cc (rw (same, indexed, past, record_leg) at p)
            | inr within ↦
                leaf_leg-total entry f i b rest items v kind within
                  (rw (same, indexed, within, record_leg) at p)
          ]
        ]
      ]

  at-total :
      (f : Bytes) (i : ℕ) (b : Bool) (rest : List PathSeg) (v : Value) (kind : Obj)
      → update_nested core (at f i b) rest v kind ≢ index_panic
  unfolding update_nested
  at-total f i b rest v kind p = elim (Bool-cases (str_eq (tag kind) "Chart")) [
    | inl chart ↦ chart_leg-total f i b rest v kind (rw (chart, update_nested) at p)
    | inr other ↦ elim (Option-cases (nested_lists (tag kind))) [
      | inl gone ↦ cc (rw (other, gone, update_nested) at p)
      | inr (entry, here) ↦
          record_leg-total entry f i b rest v kind (rw (other, here, update_nested) at p)
    ]
  ]

  -- An index that is not negative never makes the nested update panic.
  pub update_nested-total :
      (head : PathSeg) (rest : List PathSeg) (v : Value) (kind : Obj) (i : ℕ)
      → head.index ≡ pos i
      → update_nested core head rest v kind ≢ index_panic
  update_nested-total head rest v kind i e =
      let same : at head.field i head.has_index ≡ head =
        ap (λ j. record { field = head.field; index = j; has_index = head.has_index }) (sym e) in
      subst (λ h. update_nested core h rest v kind ≢ index_panic) same
        (at-total head.field i head.has_index rest v kind)

  -- On a Chart, a text written through a negative index into its y fields panics.
  pub update_nested-negative :
      (k : ℕ) (s : String) (kind : Obj)
      → tag kind ≡ "Chart"
      → update_nested core
          (record { field = codes "YFields"; index = negsuc k; has_index = true })
          []
          (str s)
          kind
        ≡ index_panic
  unfolding update_nested chart_leg coerce
  update_nested-negative k s kind e = rw (e, update_nested) refl
