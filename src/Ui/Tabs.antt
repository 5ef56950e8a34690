-- ===== src/Ui/Tabs.antt =====
-- ui/navigation.rs: the roles, the tabs of either role, and the moves between them.
use mostrix.Prelude.{ℕ, String, Option}
use mathlib.Core.Option
use mostrix.Ui.UserTab
use mostrix.Ui.UserTab.{UserTab}
use mostrix.Ui.AdminTab
use mostrix.Ui.AdminTab.{AdminTab}

pub data UserRole : Type 0 where
  user admin : UserRole

pub data Tab : Type 0 where
  user : UserTab → Tab
  admin : AdminTab → Tab

-- `none` is the panic.
unfoldable pub from_index : ℕ → UserRole → Option Tab
unfolding UserTab.from_index AdminTab.from_index
from_index index UserRole.user = Option.map Tab.user (UserTab.from_index index)
from_index index UserRole.admin = Option.map Tab.admin (AdminTab.from_index index)

unfoldable pub as_index : Tab → ℕ
unfolding UserTab.as_index AdminTab.as_index
as_index (Tab.user tab) = UserTab.as_index tab
as_index (Tab.admin tab) = AdminTab.as_index tab

abbrev pub count : UserRole → ℕ
count UserRole.user = UserTab.count
count UserRole.admin = AdminTab.count

abbrev pub first : UserRole → Tab
first UserRole.user = Tab.user UserTab.first
first UserRole.admin = Tab.admin AdminTab.first

abbrev pub last : UserRole → Tab
last UserRole.user = Tab.user UserTab.last
last UserRole.admin = Tab.admin AdminTab.last

-- A tab of the other role stays.
unfoldable pub prev : Tab → UserRole → Tab
unfolding UserTab.prev AdminTab.prev
prev (Tab.user tab) UserRole.user = Tab.user (UserTab.prev tab)
prev (Tab.admin tab) UserRole.admin = Tab.admin (AdminTab.prev tab)
prev (Tab.user tab) UserRole.admin = Tab.user tab
prev (Tab.admin tab) UserRole.user = Tab.admin tab

unfoldable pub next : Tab → UserRole → Tab
unfolding UserTab.next AdminTab.next
next (Tab.user tab) UserRole.user = Tab.user (UserTab.next tab)
next (Tab.admin tab) UserRole.admin = Tab.admin (AdminTab.next tab)
next (Tab.user tab) UserRole.admin = Tab.user tab
next (Tab.admin tab) UserRole.user = Tab.admin tab

abbrev pub to_string : Tab → String
to_string (Tab.user tab) = UserTab.to_string tab
to_string (Tab.admin tab) = AdminTab.to_string tab
