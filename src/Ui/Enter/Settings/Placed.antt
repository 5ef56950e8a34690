-- ===== src/Ui/Enter/Settings/Placed.antt =====
-- key_handler/enter_handlers.rs: the role, the tab and the mode under the popups of the Settings tab.
use mostrix.Prelude.{◌≡◌, refl, String, Bool, true, false, Option, none, some, trim}
use mostrix.Protocol.{Uuid, PublicKey}
use mostrix.Ui.Tabs.{UserRole}
use mostrix.Ui.Mode.{UiMode}
use mostrix.Ui.App.{App}
use mostrix.Ui.Host.{Host}
use mostrix.Ui.Validation.{
  Validated, ok, err, normalize_mostro_pubkey, validate_relay, validate_currency,
  validate_ln_address_format,
}
use mostrix.Ui.Placed.{IsPlaced, LeadsToPlaced, mode_fits}
use mostrix.Ui.Enter.Message.Placed.{defaulted-IsPlaced}
use mostrix.Ui.Enter.Dispute.Placed.{handle_input_to_confirmation-IsPlaced}
use mostrix.Ui.Enter.Settings.{
  confirming, confirming_pubkey, save_pubkey, save_currency, clear_filters, save_relay, rotate_keys,
  handle_enter_settings_mode, handle_enter_delete_history_order, handle_enter_bulk_delete_history,
  handle_enter_generate_new_keys,
}

confirming-IsPlaced :
    (v : Validated) (s : String) (f : String → UiMode) (app : App)
    → IsPlaced app
    → mode_fits app.user_role (f s) ≡ true
    → IsPlaced (confirming v s f app)
confirming-IsPlaced (err m) s f app p a = (p.0, refl, p.2)
confirming-IsPlaced (ok _) s f app p a = handle_input_to_confirmation-IsPlaced s f app p a

confirming_pubkey-IsPlaced :
    (v : Validated) (app : App) → IsPlaced app → IsPlaced (confirming_pubkey v app)
confirming_pubkey-IsPlaced (err m) app p = (p.0, refl, p.2)
confirming_pubkey-IsPlaced (ok s) app p =
    handle_input_to_confirmation-IsPlaced s (λ s'. UiMode.confirm_mostro_pubkey s' true) app p refl

save_pubkey-LeadsToPlaced :
    (s : String) (k : Option PublicKey) (app : App)
    → IsPlaced app
    → LeadsToPlaced (save_pubkey s k app)
unfolding save_pubkey
save_pubkey-LeadsToPlaced s none app p = defaulted-IsPlaced app p
save_pubkey-LeadsToPlaced s (some k) app p = (p.0, refl, p.2)

pub handle_enter_settings_mode-LeadsToPlaced :
    (h : Host) (m : UiMode) (app : App)
    → IsPlaced app
    → LeadsToPlaced (handle_enter_settings_mode h m app)
unfolding handle_enter_settings_mode save_currency clear_filters save_relay
handle_enter_settings_mode-LeadsToPlaced h (UiMode.add_mostro_pubkey k) app p =
    confirming_pubkey-IsPlaced (normalize_mostro_pubkey h k.key_input) app p
handle_enter_settings_mode-LeadsToPlaced h (UiMode.confirm_mostro_pubkey s true) app p =
    save_pubkey-LeadsToPlaced s (h.parse_pubkey s) app p
handle_enter_settings_mode-LeadsToPlaced h (UiMode.confirm_mostro_pubkey s false) app p =
    (p.0, refl, p.2)
handle_enter_settings_mode-LeadsToPlaced h (UiMode.add_relay k) app p =
    confirming-IsPlaced (validate_relay k.key_input) k.key_input (λ s. UiMode.confirm_relay s true)
      app p refl
handle_enter_settings_mode-LeadsToPlaced h (UiMode.confirm_relay s true) app p =
    defaulted-IsPlaced app p
handle_enter_settings_mode-LeadsToPlaced h (UiMode.confirm_relay s false) app p = (p.0, refl, p.2)
handle_enter_settings_mode-LeadsToPlaced h (UiMode.add_ln_address k) app p =
    confirming-IsPlaced (validate_ln_address_format h k.key_input) (trim k.key_input)
      (λ s. UiMode.confirm_ln_address s true) app p refl
handle_enter_settings_mode-LeadsToPlaced h (UiMode.confirm_ln_address s true) app p =
    (p.0, refl, p.2)
handle_enter_settings_mode-LeadsToPlaced h (UiMode.confirm_ln_address s false) app p =
    (p.0, refl, p.2)
handle_enter_settings_mode-LeadsToPlaced h (UiMode.add_currency k) app p =
    confirming-IsPlaced (validate_currency k.key_input) k.key_input
      (λ s. UiMode.confirm_currency s true) app p refl
handle_enter_settings_mode-LeadsToPlaced h (UiMode.confirm_clear_ln_address true) app p =
    defaulted-IsPlaced app p
handle_enter_settings_mode-LeadsToPlaced h (UiMode.confirm_clear_ln_address false) app p =
    defaulted-IsPlaced app p
handle_enter_settings_mode-LeadsToPlaced h (UiMode.confirm_currency s true) app p =
    defaulted-IsPlaced app p
handle_enter_settings_mode-LeadsToPlaced h (UiMode.confirm_currency s false) app p =
    defaulted-IsPlaced app p
handle_enter_settings_mode-LeadsToPlaced h (UiMode.confirm_clear_currencies true) app p =
    defaulted-IsPlaced app p
handle_enter_settings_mode-LeadsToPlaced h (UiMode.confirm_clear_currencies false) app p =
    defaulted-IsPlaced app p
handle_enter_settings_mode-LeadsToPlaced h (UiMode.confirm_exit true) app p = p
handle_enter_settings_mode-LeadsToPlaced h (UiMode.confirm_exit false) app p =
    defaulted-IsPlaced app p
handle_enter_settings_mode-LeadsToPlaced h m app p = defaulted-IsPlaced app p

pub handle_enter_delete_history_order-LeadsToPlaced :
    (i : Uuid) (b : Bool) (app : App)
    → IsPlaced app
    → LeadsToPlaced (handle_enter_delete_history_order i b app)
unfolding handle_enter_delete_history_order
handle_enter_delete_history_order-LeadsToPlaced i true app p = (p.0, refl, p.2)
handle_enter_delete_history_order-LeadsToPlaced i false app p = defaulted-IsPlaced app p

pub handle_enter_bulk_delete_history-LeadsToPlaced :
    (b : Bool) (app : App) → IsPlaced app → LeadsToPlaced (handle_enter_bulk_delete_history b app)
unfolding handle_enter_bulk_delete_history
handle_enter_bulk_delete_history-LeadsToPlaced true app p = (p.0, refl, p.2)
handle_enter_bulk_delete_history-LeadsToPlaced false app p = defaulted-IsPlaced app p

rotate_keys-LeadsToPlaced :
    (e : Option String) (r : UserRole) (app : App)
    → IsPlaced app
    → LeadsToPlaced (rotate_keys e r app)
unfolding rotate_keys
rotate_keys-LeadsToPlaced e UserRole.admin app p = (p.0, refl, p.2)
rotate_keys-LeadsToPlaced (some m) UserRole.user app p = (p.0, refl, p.2)
rotate_keys-LeadsToPlaced none UserRole.user app p = (p.0, refl, p.2)

pub handle_enter_generate_new_keys-LeadsToPlaced :
    (h : Host) (b : Bool) (app : App)
    → IsPlaced app
    → LeadsToPlaced (handle_enter_generate_new_keys h b app)
unfolding handle_enter_generate_new_keys
handle_enter_generate_new_keys-LeadsToPlaced h true app p =
    rotate_keys-LeadsToPlaced h.new_keys_error app.user_role app p
handle_enter_generate_new_keys-LeadsToPlaced h false app p = defaulted-IsPlaced app p
