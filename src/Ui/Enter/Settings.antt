-- ===== src/Ui/Enter/Settings.antt =====
-- key_handler/enter_handlers.rs (`handle_enter_settings_mode` and the confirmations of keys and history):
-- Enter in the popups of the Settings tab.
pub mod Placed
use mostrix.Prelude.{
  String, Bool, true, false, not, ◌&&◌, Option, none, some, List, [], ◌∷◌, ◌++◌, any, str_eq,
  is_empty, trim, if◌then◌else◌,
}
use mostrix.Protocol.{Uuid, PublicKey}
use mostrix.Ui.Tabs.{UserRole}
use mostrix.Ui.Mode.{UiMode, OperationResult, create_key_input_state}
use mostrix.Ui.App.{App, set_mode}
use mostrix.Ui.Host.{Host}
use mostrix.Ui.Task.{Task, Step, quiet, doing}
use mostrix.Ui.Validation.{
  Validated, ok, err, normalize_mostro_pubkey, validate_relay, validate_currency,
  validate_ln_address_format,
}
use mostrix.Ui.Enter.Message.{defaulted}
use mostrix.Ui.Enter.Dispute.{show, show_error, handle_input_to_confirmation}

-- A validated input is asked for confirmation, with YES highlighted.
abbrev pub confirming : Validated → String → (String → UiMode) → App → App
confirming (err message) input confirm app = show_error message app
confirming (ok _) input confirm app = handle_input_to_confirmation input confirm app

-- The normalized key, not the input, is asked for confirmation.
abbrev confirming_pubkey : Validated → App → App
confirming_pubkey (err message) app = show_error message app
confirming_pubkey (ok hex) app =
    handle_input_to_confirmation hex (λ s. UiMode.confirm_mostro_pubkey s true) app

-- A confirmed key that does not parse ends the program.
save_pubkey : String → Option PublicKey → App → Step
save_pubkey s none app = record {
  app = defaulted app;
  tasks = Task.save_pubkey s ∷ [];
  goes_on = false;
}
save_pubkey s (some key) app = doing (Task.save_pubkey s ∷ Task.refresh_info_of key ∷ []) (
    show (OperationResult.info "Fetching Mostro instance info...")
      (record app { pending_fetch_scheduler_reload = true }))

-- A currency is kept once, in upper case.
abbrev pub with_currency : String → List String → List String
with_currency c cs = if not (is_empty c) && not (any (str_eq c) cs) then cs ++ c ∷ [] else cs

save_currency : Host → String → App → Step
save_currency h s app = doing (Task.save_currency s ∷ []) (
    defaulted (record app {
      pending_fetch_scheduler_reload = true;
      currencies_filter = with_currency (h.to_uppercase (trim s)) app.currencies_filter;
    }))

clear_filters : App → Step
clear_filters app =
    doing (Task.clear_currencies ∷ [])
      (defaulted (record app { pending_fetch_scheduler_reload = true; currencies_filter = [] }))

save_relay : String → App → Step
save_relay s app = doing (Task.save_relay s ∷ Task.add_relay (trim s) ∷ []) (defaulted app)

unfoldable pub handle_enter_settings_mode : Host → UiMode → App → Step
unfolding save_pubkey save_currency clear_filters save_relay normalize_mostro_pubkey validate_relay
    validate_currency validate_ln_address_format
handle_enter_settings_mode h (UiMode.add_mostro_pubkey k) app =
    quiet (confirming_pubkey (normalize_mostro_pubkey h k.key_input) app)
handle_enter_settings_mode h (UiMode.confirm_mostro_pubkey s true) app =
    save_pubkey s (h.parse_pubkey s) app
handle_enter_settings_mode h (UiMode.confirm_mostro_pubkey s false) app =
    quiet (set_mode (UiMode.add_mostro_pubkey (create_key_input_state s)) app)
handle_enter_settings_mode h (UiMode.add_relay k) app =
    quiet
      (confirming (validate_relay k.key_input) k.key_input (λ s. UiMode.confirm_relay s true) app)
handle_enter_settings_mode h (UiMode.confirm_relay s true) app = save_relay s app
handle_enter_settings_mode h (UiMode.confirm_relay s false) app =
    quiet (set_mode (UiMode.add_relay (create_key_input_state s)) app)
handle_enter_settings_mode h (UiMode.add_ln_address k) app = quiet (
    confirming (validate_ln_address_format h k.key_input) (trim k.key_input)
      (λ s. UiMode.confirm_ln_address s true) app)
handle_enter_settings_mode h (UiMode.confirm_ln_address s true) app =
    doing (Task.verify_ln_address s ∷ [])
      (show (OperationResult.info "Verifying Lightning address...") app)
handle_enter_settings_mode h (UiMode.confirm_ln_address s false) app =
    quiet (set_mode (UiMode.add_ln_address (create_key_input_state s)) app)
handle_enter_settings_mode h (UiMode.confirm_clear_ln_address true) app =
    doing (Task.clear_ln_address ∷ []) (defaulted app)
handle_enter_settings_mode h (UiMode.confirm_clear_ln_address false) app = quiet (defaulted app)
handle_enter_settings_mode h (UiMode.add_currency k) app = quiet (
    confirming (validate_currency k.key_input) k.key_input (λ s. UiMode.confirm_currency s true)
      app)
handle_enter_settings_mode h (UiMode.confirm_currency s true) app = save_currency h s app
handle_enter_settings_mode h (UiMode.confirm_currency s false) app = quiet (defaulted app)
handle_enter_settings_mode h (UiMode.confirm_clear_currencies true) app = clear_filters app
handle_enter_settings_mode h (UiMode.confirm_clear_currencies false) app = quiet (defaulted app)
handle_enter_settings_mode h (UiMode.confirm_exit true) app = record {
  app = app;
  tasks = [];
  goes_on = false;
}
handle_enter_settings_mode h (UiMode.confirm_exit false) app = quiet (defaulted app)
handle_enter_settings_mode h _ app = quiet (defaulted app)

unfoldable pub handle_enter_delete_history_order : Uuid → Bool → App → Step
handle_enter_delete_history_order i true app =
    doing (Task.delete_order i ∷ [])
      (show (OperationResult.info "Deleting selected terminal order from local history...") app)
handle_enter_delete_history_order i false app = quiet (defaulted app)

unfoldable pub handle_enter_bulk_delete_history : Bool → App → Step
handle_enter_bulk_delete_history true app =
    doing (Task.bulk_delete ∷ [])
      (show (OperationResult.info "Cleaning up success/canceled orders from local history...") app)
handle_enter_bulk_delete_history false app = quiet (defaulted app)

rotate_keys : Option String → UserRole → App → Step
rotate_keys e UserRole.admin app = quiet (
    show_error
      "Generate New Keys is User-mode only. Use Change Admin Key to set the Mostro daemon nsec."
      app)
rotate_keys (some message) UserRole.user app = quiet (show_error message app)
rotate_keys none UserRole.user app =
    doing (Task.rotate_keys ∷ []) (show (OperationResult.info "Saving new keys...") app)

-- `new_keys_error` is the message of a failure to make seed words or their key.
unfoldable pub handle_enter_generate_new_keys : Host → Bool → App → Step
unfolding rotate_keys
handle_enter_generate_new_keys h true app = rotate_keys h.new_keys_error app.user_role app
handle_enter_generate_new_keys h false app = quiet (defaulted app)
