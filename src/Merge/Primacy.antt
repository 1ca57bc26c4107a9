-- ===== src/Merge/Primacy.antt =====
-- merge/merge.go: what a conflict says of the branches and their authors, and what a held pin decides.
use fuaran_go.Prelude.{◌≡◌, ◌⊎◌, Bool, true, false, none, All}
use fuaran_go.Wire.Core.{Core}
use fuaran_go.Merge.Refusal.{Resolution, Conflict}
use fuaran_go.Merge.Engine.{Result, merged, blocked}
use fuaran_go.Merge.Agreement.{IsUnencodable}

-- a refusal that lacks an encoding holds no pin; any other holds it as the authors do
abbrev pub HoldsPin : Bool → Conflict → Type 0
HoldsPin pin c = (IsUnencodable c × (c.primacy_held ≡ false)) ⊎ (c.primacy_held ≡ pin)

-- without a pin no side is named the winner
abbrev pub IsNeutral : Conflict → Type 0
IsNeutral c = ((c.primary ≡ none) × (c.secondary ≡ none)) ⊎ (c.primacy_held ≡ true)

pub record IsEnvelope (res : Resolution) (c : Conflict) : Type 0 where
  pub a_side : c.a.side_tag ≡ res.a_tag
  pub b_side : c.b.side_tag ≡ res.b_tag
  pub offered : c.choices ≡ res.menu
  pub loser : c.secondary_tag ≡ res.loser_tag
  pub pinned : HoldsPin res.pin_held c
  pub neutral : IsNeutral c

-- a tree with conflicts that the pin has decided, or a block by facets without an encoding
abbrev pub IsDecided : Result → Type 0
IsDecided (merged tree resolved) = All (λ c. c.primacy_held ≡ true) resolved
IsDecided (blocked cs) = All IsUnencodable cs
