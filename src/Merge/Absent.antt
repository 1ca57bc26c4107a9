-- ===== src/Merge/Absent.antt =====
-- merge/merge.go: a refusal whose primary side has removed a style member.
use fuaran_go.Prelude.{
  String, ◌≡◌, refl, sym, subst, true, false, [], ◌∷◌, Option, none, some, str_eq,
}
use fuaran_go.Wire.Core.{Core}
use fuaran_go.Wire.Value.{Node, id}
use fuaran_go.Merge.Refusal.{
  Resolution, Conflict, keep_primary, keep_secondary, keep_base, primary_author, secondary_author,
  resolve_author, pick_field, pick_facet, record_conflict, record_classed, Merged,
}
use fuaran_go.Merge.Facets.{style_field, merge_member, merge_style, kind_canonical}
use fuaran_go.Merge.Places.{MoveCtx, new_move_ctx, detect_concurrent_moves}
use fuaran_go.Merge.Engine.{merge_step, merge3_fuel, merge3, merge_whole}
use fuaran_go.Merge.Contested.{Has, Has-left, Has-right, node_size-suc}

-- the pin is held and the menu offers to keep the primary value, and there is none
pub record NamesAbsent (facet : String) (c : Conflict) : Type 0 where
  pub of_facet : c.facet ≡ facet
  pub pinned : c.primacy_held ≡ true
  pub offered : c.choices ≡ keep_primary ∷ keep_secondary ∷ keep_base ∷ []
  pub absent : c.primary ≡ none

module _ (t : Option String) (base a b : Node) (x y : String)
    (in_base : style_field base "role" ≡ some x) (in_a : style_field a "role" ≡ none)
    (in_b : style_field b "role" ≡ some y) (changed : str_eq y x ≡ false) where
  abbrev res : Resolution
  res = resolve_author primary_author (secondary_author t)

  abbrev P : Conflict → Type 0
  P = NamesAbsent "style.role"

  role-Has : Has P (merge_member res (id base) base a b "style.role" "role").0
  unfolding merge_member pick_field record_conflict record_classed resolve_author
  role-Has =
      rw (in_base, in_a, in_b, changed)
        ([], _, [], record { of_facet = refl; pinned = refl; offered = refl; absent = refl }, refl)

  style-Has : Has P (merge_style res (id base) base a b).0
  unfolding merge_style
  style-Has = Has-right P (merge_member res (id base) base a b "style.tone" "tone").0 _ (
      Has-right P (merge_member res (id base) base a b "style.weight" "weight").0 _ (
        Has-right P (merge_member res (id base) base a b "style.emphasis" "emphasis").0 _
          (Has-left P (merge_member res (id base) base a b "style.role" "role").0 _ role-Has)))

  step-Has :
      (core : Core) (mc : MoveCtx) (go : Node → Option Node → Option Node → Merged Node)
      → Has P (merge_step core res mc go base a b).0
  unfolding merge_step
  step-Has core mc go =
      Has-right P
        (pick_facet res (id base) "kind" (kind_canonical core base) (kind_canonical core a)
          (kind_canonical core b)).0
        _ (Has-left P (merge_style res (id base) base a b).0 _ style-Has)

  -- Where the primary branch has removed the role of the root and the other branch has set another
  -- one, the merge records a conflict that holds the pin and offers to keep the primary value, and
  -- whose primary slot is empty.
  pub merge_whole-NamesAbsent :
      (core : Core)
      → Has
          (NamesAbsent "style.role")
          (merge_whole core (resolve_author primary_author (secondary_author t)) base a b).0
  unfolding merge_whole merge3 merge3_fuel
  merge_whole-NamesAbsent core =
      let mc = new_move_ctx base a b in
      let (n, e) = node_size-suc base in
      Has-right P (detect_concurrent_moves core res mc base a b)
        (merge3 core res mc base (some a) (some b)).0
        (subst (λ k. Has P (merge3_fuel core res mc k base (some a) (some b)).0) (sym e)
          (step-Has core mc (merge3_fuel core res mc n)))
