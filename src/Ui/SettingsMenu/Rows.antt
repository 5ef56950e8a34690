-- ===== src/Ui/SettingsMenu/Rows.antt =====
-- ui/tabs/settings_tab.rs: the rows of either role.
use mostrix.Prelude.{ℕ, zero, suc, ◌≡◌, refl, Bool, true, Option, OnSome}
use mostrix.Ui.Tabs.{UserRole}
use mostrix.Ui.Placed.{is_admin}
use mostrix.Ui.SettingsMenu.{SettingsMenuAction, settings_action_for_index}

abbrev pub allowed : UserRole → SettingsMenuAction → Bool
allowed r SettingsMenuAction.add_dispute_solver = is_admin r
allowed r SettingsMenuAction.change_admin_key = is_admin r
allowed r _ = true

admin-allowed : (a : SettingsMenuAction) → allowed UserRole.admin a ≡ true
admin-allowed SettingsMenuAction.add_dispute_solver = refl
admin-allowed SettingsMenuAction.change_admin_key = refl
admin-allowed a = refl

abbrev Allowed : UserRole → Option SettingsMenuAction → Type 0
Allowed r o = OnSome (λ a. allowed r a ≡ true) o

admin_rows : (o : Option SettingsMenuAction) → Allowed UserRole.admin o
admin_rows Option.none = tt
admin_rows (Option.some a) = admin-allowed a

user_rows : (i : ℕ) → Allowed UserRole.user (settings_action_for_index UserRole.user i)
unfolding settings_action_for_index
user_rows zero = refl
user_rows (suc zero) = refl
user_rows (suc (suc zero)) = refl
user_rows (suc (suc (suc zero))) = refl
user_rows (suc (suc (suc (suc zero)))) = refl
user_rows (suc (suc (suc (suc (suc zero))))) = refl
user_rows (suc (suc (suc (suc (suc (suc zero)))))) = refl
user_rows (suc (suc (suc (suc (suc (suc (suc zero))))))) = refl
user_rows (suc (suc (suc (suc (suc (suc (suc (suc zero)))))))) = refl
user_rows (suc (suc (suc (suc (suc (suc (suc (suc (suc i))))))))) = tt

pub settings_action_for_index-Allowed :
    (r : UserRole) (i : ℕ) → Allowed r (settings_action_for_index r i)
settings_action_for_index-Allowed UserRole.user i = user_rows i
settings_action_for_index-Allowed UserRole.admin i =
    admin_rows (settings_action_for_index UserRole.admin i)
