-- ===== src/Ui/UserTab.antt =====
-- ui/navigation.rs (`UserTab`): the tabs of a trader.
use mostrix.Prelude.{ℕ, String, Option, [], ◌∷◌, get_elem?}

pub data UserTab : Type 0 where
  orders my_trades messages mostro_info settings create_new_order exit : UserTab

-- `Display`
abbrev pub to_string : UserTab → String
to_string orders = "Orders"
to_string my_trades = "Order Chat"
to_string messages = "Messages"
to_string mostro_info = "Mostro Info"
to_string settings = "Settings"
to_string create_new_order = "Create New Order"
to_string exit = "Exit"

-- `none` is the panic.
unfoldable pub from_index : ℕ → Option UserTab
from_index index =
    get_elem?
      (orders ∷ my_trades ∷ messages ∷ mostro_info ∷ create_new_order ∷ settings ∷ exit ∷ []) index

unfoldable pub as_index : UserTab → ℕ
as_index orders = 0
as_index my_trades = 1
as_index messages = 2
as_index mostro_info = 3
as_index create_new_order = 4
as_index settings = 5
as_index exit = 6

abbrev pub count : ℕ
count = 7

abbrev pub first : UserTab
first = orders

abbrev pub last : UserTab
last = exit

unfoldable pub prev : UserTab → UserTab
prev orders = orders
prev my_trades = orders
prev messages = my_trades
prev mostro_info = messages
prev create_new_order = mostro_info
prev settings = create_new_order
prev exit = settings

unfoldable pub next : UserTab → UserTab
next orders = my_trades
next my_trades = messages
next messages = mostro_info
next mostro_info = create_new_order
next create_new_order = settings
next settings = exit
next exit = exit
