-- ===== src/Bond.antt =====
-- util/order_utils/bond_resolution.rs: what happens to the bonds when an admin closes a dispute.
use mostrix.Prelude.{
  ℕ, suc, Bool, true, false, String, Option, none, some, List, [], ◌∷◌, get_elem?, unwrap_or,
  if◌then◌else◌, same,
}
use mostrix.Protocol.{Payload, BondResolution}

pub data BondSlashChoice : Type 0 where
  no_slash slash_buyer slash_seller slash_both : BondSlashChoice

unfoldable pub BondSlashChoice-discrete : Discrete BondSlashChoice
BondSlashChoice-discrete = hlevel

-- `BondSlashChoice::ALL`
abbrev pub all_choices : List BondSlashChoice
all_choices = no_slash ∷ slash_buyer ∷ slash_seller ∷ slash_both ∷ []

-- `iter().position`
abbrev position : BondSlashChoice → List BondSlashChoice → Option ℕ
position c [] = none
position c (x ∷ xs) =
    let rest = position c xs in
    if same BondSlashChoice-discrete x c
    then some 0
    else elim rest [ none ↦ none | some i ↦ some (suc i) ]

unfoldable pub choice_index : BondSlashChoice → ℕ
choice_index c = unwrap_or (position c all_choices) 0

unfoldable pub from_choice_index : ℕ → BondSlashChoice
from_choice_index i = unwrap_or (get_elem? all_choices i) no_slash

unfoldable pub label : BondSlashChoice → String
label no_slash = "🔓 No bond slash"
label slash_buyer = "⚔\u{fe0f} Slash buyer bond"
label slash_seller = "⚔\u{fe0f} Slash seller bond"
label slash_both = "⚔\u{fe0f} Slash both bonds"

abbrev pub slashes_seller : BondSlashChoice → Bool
slashes_seller slash_seller = true
slashes_seller slash_both = true
slashes_seller _ = false

abbrev pub slashes_buyer : BondSlashChoice → Bool
slashes_buyer slash_buyer = true
slashes_buyer slash_both = true
slashes_buyer _ = false

abbrev pub to_bond_resolution : BondSlashChoice → BondResolution
to_bond_resolution c = record { slash_seller = slashes_seller c; slash_buyer = slashes_buyer c }

abbrev pub to_payload : BondSlashChoice → Payload
to_payload c = Payload.bond_resolution (to_bond_resolution c)

unfoldable pub to_optional_payload : BondSlashChoice → Option Payload
to_optional_payload no_slash = none
to_optional_payload c = some (to_payload c)
