-- ===== src/Ui/AdminTab.antt =====
-- ui/navigation.rs (`AdminTab`): the tabs of a dispute solver.
use mostrix.Prelude.{ℕ, String, Option, [], ◌∷◌, get_elem?}

pub data AdminTab : Type 0 where
  disputes_pending disputes_in_progress observer mostro_info settings exit : AdminTab

-- `Display`
abbrev pub to_string : AdminTab → String
to_string disputes_pending = "Disputes Pending"
to_string disputes_in_progress = "Disputes Management"
to_string observer = "Observer"
to_string mostro_info = "Mostro Info"
to_string settings = "Settings"
to_string exit = "Exit"

-- `none` is the panic.
unfoldable pub from_index : ℕ → Option AdminTab
from_index index =
    get_elem?
      (disputes_pending ∷ disputes_in_progress ∷ observer ∷ mostro_info ∷ settings ∷ exit ∷ [])
      index

unfoldable pub as_index : AdminTab → ℕ
as_index disputes_pending = 0
as_index disputes_in_progress = 1
as_index observer = 2
as_index mostro_info = 3
as_index settings = 4
as_index exit = 5

abbrev pub count : ℕ
count = 6

abbrev pub first : AdminTab
first = disputes_pending

abbrev pub last : AdminTab
last = exit

unfoldable pub prev : AdminTab → AdminTab
prev disputes_pending = disputes_pending
prev disputes_in_progress = disputes_pending
prev observer = disputes_in_progress
prev mostro_info = observer
prev settings = mostro_info
prev exit = settings

unfoldable pub next : AdminTab → AdminTab
next disputes_pending = disputes_in_progress
next disputes_in_progress = observer
next observer = mostro_info
next mostro_info = settings
next settings = exit
next exit = exit
