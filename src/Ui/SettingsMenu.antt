-- ===== src/Ui/SettingsMenu.antt =====
-- ui/tabs/settings_tab.rs: the rows of the Settings tab.
pub mod Rows
use mostrix.Prelude.{ℕ, String, Option, List, [], ◌∷◌, length, get_elem?}
use mathlib.Core.Option
use mostrix.Ui.Tabs.{UserRole}

pub data SettingsMenuAction : Type 0 where
  switch_mode change_mostro_pubkey add_relay : SettingsMenuAction
  set_buyer_ln_address clear_buyer_ln_address : SettingsMenuAction
  add_currency_filter clear_currency_filters view_seed_words : SettingsMenuAction
  add_dispute_solver change_admin_key generate_new_keys : SettingsMenuAction

abbrev pub admin_settings : List (SettingsMenuAction × String)
admin_settings =
    (switch_mode, "Switch Mode (User ↔ Admin)")
    ∷ (change_mostro_pubkey, "Change Mostro Pubkey")
    ∷ (add_relay, "Add Nostr Relay")
    ∷ (add_currency_filter, "Add Currency Filter")
    ∷ (clear_currency_filters, "Clear Currency Filters")
    ∷ (view_seed_words, "View Seed Words")
    ∷ (add_dispute_solver, "Add Dispute Solver")
    ∷ (change_admin_key, "Change Admin Key")
    ∷ []

abbrev pub user_settings : List (SettingsMenuAction × String)
user_settings =
    (switch_mode, "Switch Mode (User ↔ Admin)")
    ∷ (change_mostro_pubkey, "Change Mostro Pubkey")
    ∷ (add_relay, "Add Nostr Relay")
    ∷ (set_buyer_ln_address, "Set Lightning Address (buyer)")
    ∷ (clear_buyer_ln_address, "Clear Lightning Address")
    ∷ (add_currency_filter, "Add Currency Filter")
    ∷ (clear_currency_filters, "Clear Currency Filters")
    ∷ (view_seed_words, "View Seed Words")
    ∷ (generate_new_keys, "Generate New Keys")
    ∷ []

abbrev pub settings_rows : UserRole → List (SettingsMenuAction × String)
settings_rows UserRole.admin = admin_settings
settings_rows UserRole.user = user_settings

-- `ADMIN_SETTINGS_OPTIONS_COUNT` and `USER_SETTINGS_OPTIONS_COUNT`
abbrev pub options_count : UserRole → ℕ
options_count role = length (settings_rows role)

unfoldable pub settings_action_for_index : UserRole → ℕ → Option SettingsMenuAction
settings_action_for_index role idx = Option.map (λ row. row.0) (get_elem? (settings_rows role) idx)
