-- ===== src/Ui/Placed.antt =====
-- When the role, the tab, the mode and the settings row fit together.
use mostrix.Prelude.{◌<◌, ◌≡◌, refl, Bool, true, false}
use mostrix.Ui.Tabs.{UserRole, Tab, first}
use mostrix.Ui.Mode.{UiMode, clone, default_for_role}
use mostrix.Ui.App.{App}
use mostrix.Ui.Task.{Step}
use mostrix.Ui.SettingsMenu.{options_count}
use mostrix.Ui.TabSwitch.{is_disputes_in_progress, is_observer, is_create_new_order}

abbrev pub is_user : UserRole → Bool
is_user UserRole.user = true
is_user UserRole.admin = false

abbrev pub is_admin : UserRole → Bool
is_admin UserRole.user = false
is_admin UserRole.admin = true

-- The tab is one of the role's.
abbrev pub IsTabOf : UserRole → Tab → Type 0
IsTabOf UserRole.user (Tab.user t) = Unit
IsTabOf UserRole.admin (Tab.admin t) = Unit
IsTabOf UserRole.user (Tab.admin t) = ⊥
IsTabOf UserRole.admin (Tab.user t) = ⊥

-- The modes of either role, and the popups that come back to such a mode.
abbrev pub mode_fits : UserRole → UiMode → Bool
mode_fits r (UiMode.user_mode m) = is_user r
mode_fits r (UiMode.admin_mode m) = is_admin r
mode_fits r (UiMode.user_save_attachment_popup o i) = is_user r
mode_fits r (UiMode.user_send_attachment_picker o) = is_user r
mode_fits r (UiMode.save_attachment_popup i) = is_admin r
mode_fits r (UiMode.observer_save_attachment_popup i) = is_admin r
mode_fits r (UiMode.help_popup tab previous) = mode_fits r previous
mode_fits r (UiMode.settings_instructions_popup role previous) = mode_fits r previous
mode_fits r _ = true

abbrev pub IsPlaced : App → Type 0
IsPlaced app =
    IsTabOf app.user_role app.active_tab
    × (mode_fits app.user_role app.mode ≡ true)
    × (app.selected_settings_option < options_count app.user_role)

pub default-fits : (r : UserRole) → mode_fits r (default_for_role r) ≡ true
default-fits UserRole.user = refl
default-fits UserRole.admin = refl

pub first-IsTabOf : (r : UserRole) → IsTabOf r (first r)
first-IsTabOf UserRole.user = tt
first-IsTabOf UserRole.admin = tt

pub clone-fits : (r : UserRole) (m : UiMode) → mode_fits r (clone m) ≡ mode_fits r m
unfolding clone
clone-fits r (UiMode.help_popup tab previous) = clone-fits r previous
clone-fits r (UiMode.settings_instructions_popup role previous) = clone-fits r previous
clone-fits r mode = refl

pub disputes_tab-is_admin :
    (r : UserRole) (t : Tab) → IsTabOf r t → is_disputes_in_progress t ≡ true → is_admin r ≡ true
disputes_tab-is_admin UserRole.admin t h q = refl
disputes_tab-is_admin UserRole.user (Tab.user t) h q = cc
disputes_tab-is_admin UserRole.user (Tab.admin t) h q = absurd h

pub observer_tab-is_admin :
    (r : UserRole) (t : Tab) → IsTabOf r t → is_observer t ≡ true → is_admin r ≡ true
observer_tab-is_admin UserRole.admin t h q = refl
observer_tab-is_admin UserRole.user (Tab.user t) h q = cc
observer_tab-is_admin UserRole.user (Tab.admin t) h q = absurd h

pub order_tab-is_user :
    (r : UserRole) (t : Tab) → IsTabOf r t → is_create_new_order t ≡ true → is_user r ≡ true
order_tab-is_user UserRole.user t h q = refl
order_tab-is_user UserRole.admin (Tab.admin t) h q = cc
order_tab-is_user UserRole.admin (Tab.user t) h q = absurd h

-- A step ends in such a state.
abbrev pub LeadsToPlaced : Step → Type 0
LeadsToPlaced s = IsPlaced s.app

-- A property of a case distinction on the role.
pub role_lem {ℓ κ} :
    {A : Type ℓ} {a b : A} (P : A → Type κ) (r : UserRole)
    → (r ≡ UserRole.user → P a)
    → (r ≡ UserRole.admin → P b)
    → P (elim r [ UserRole.user ↦ a | UserRole.admin ↦ b ])
role_lem P UserRole.user h k = h refl
role_lem P UserRole.admin h k = k refl
