-- ===== src/Ui/Esc.antt =====
-- key_handler/esc_handlers.rs: the Esc key.
pub mod Placed
use mostrix.Prelude.{ℕ, String, Bool, true, false, Option, none, some, if◌then◌else◌}
use mostrix.Protocol.{Uuid}
use mostrix.Bond.{BondSlashChoice, choice_index}
use mostrix.Ui.UserTab.{UserTab}
use mostrix.Ui.AdminTab.{AdminTab}
use mostrix.Ui.Tabs.{UserRole, Tab, first}
use mostrix.Ui.Form.{FormState}
use mostrix.Ui.Mode.{
  UiMode, UserMode, AdminMode, OperationResult, AddSolverState, SolverPermission, default_for_role,
  clone, create_key_input_state,
}
use mostrix.Ui.App.{App, set_mode}
use mostrix.Ui.TabSwitch.{is_disputes_in_progress}

-- The tabs on which closing a result by Esc stays.
abbrev pub esc_stays : Tab → Bool
esc_stays (Tab.admin AdminTab.settings) = true
esc_stays (Tab.user UserTab.settings) = true
esc_stays (Tab.admin AdminTab.observer) = true
esc_stays (Tab.user UserTab.messages) = true
esc_stays _ = false

abbrev pub default_mode : App → UiMode
default_mode app = default_for_role app.user_role

abbrev pub to_default : App → App
to_default app = set_mode (default_mode app) app

-- Closing a result; Enter stays on more tabs than Esc does.
abbrev pub close_result : (Tab → Bool) → App → App
close_result stays app =
    if is_disputes_in_progress app.active_tab
    then set_mode (UiMode.admin_mode AdminMode.managing_dispute) app
    else if stays app.active_tab
    then to_default app
    else record app { active_tab = first app.user_role; mode = default_mode app }

-- A result that waited behind an invoice popup comes up when that is dismissed.
abbrev pub dismiss_popup : App → App
dismiss_popup app = elim app.pending_post_take_operation_result [
  | none ↦ to_default app
  | some r ↦ record app {
    mode = UiMode.operation_result r;
    pending_post_take_operation_result = none;
  }
]

abbrev pub close_backup : App → App
close_backup app =
    if app.backup_requires_restart
    then record app {
      pending_key_reload = true;
      mode =
          UiMode.operation_result
            (OperationResult.info "Reloading keys and resetting active session...");
    }
    else to_default app

-- The button that a confirmation of `is_settle` came from.
abbrev pub review_again : Uuid → Bool → BondSlashChoice → UiMode
review_again dispute_id is_settle bond = UiMode.admin_mode (
    AdminMode.reviewing_dispute dispute_id (if is_settle then 0 else 1) bond false
      (choice_index bond))

esc_user : UserMode → App → App
esc_user (UserMode.creating_order form) app = record app {
  order_form_draft = none;
  mode = default_mode app;
}
esc_user (UserMode.confirming_order form b) app =
    set_mode (UiMode.user_mode (UserMode.creating_order form)) app
esc_user (UserMode.taking_order t) app = to_default app
esc_user _ app = app

esc_admin : AdminMode → App → App
esc_admin (AdminMode.add_solver st) app = to_default app
esc_admin (AdminMode.setup_admin_key k) app = to_default app
esc_admin (AdminMode.confirm_add_solver key permission b) app =
    set_mode
      (UiMode.admin_mode (
        AdminMode.add_solver
          (record { key_input = create_key_input_state key; permission = permission })))
      app
esc_admin (AdminMode.confirm_admin_key key b) app =
    set_mode (UiMode.admin_mode (AdminMode.setup_admin_key (create_key_input_state key))) app
esc_admin (AdminMode.reviewing_dispute i button bond true index) app =
    set_mode (UiMode.admin_mode (AdminMode.reviewing_dispute i button bond false index)) app
esc_admin (AdminMode.reviewing_dispute i button bond false index) app =
    set_mode (UiMode.admin_mode AdminMode.managing_dispute) app
esc_admin (AdminMode.confirm_finalize_dispute i is_settle bond b) app =
    set_mode (review_again i is_settle bond) app
esc_admin _ app = app

esc_mode : UiMode → App → App
unfolding esc_user esc_admin clone
esc_mode (UiMode.user_mode m) app = esc_user m app
esc_mode (UiMode.admin_mode m) app = esc_admin m app
esc_mode (UiMode.help_popup tab previous) app = set_mode (clone previous) app
esc_mode (UiMode.settings_instructions_popup role previous) app = set_mode (clone previous) app
esc_mode (UiMode.save_attachment_popup i) app =
    set_mode (UiMode.admin_mode AdminMode.managing_dispute) app
esc_mode (UiMode.user_save_attachment_popup o i) app =
    set_mode (UiMode.user_mode UserMode.normal) app
esc_mode (UiMode.user_send_attachment_picker o) app =
    set_mode (UiMode.user_mode UserMode.normal) app
esc_mode (UiMode.operation_result r) app = close_result esc_stays app
esc_mode (UiMode.new_message_notification n a st) app = dismiss_popup app
esc_mode (UiMode.confirm_saved_ln_address_for_invoice n b) app = dismiss_popup app
esc_mode (UiMode.confirm_mostro_pubkey s b) app =
    set_mode (UiMode.add_mostro_pubkey (create_key_input_state s)) app
esc_mode (UiMode.confirm_relay s b) app = set_mode (UiMode.add_relay (create_key_input_state s)) app
esc_mode (UiMode.confirm_ln_address s b) app =
    set_mode (UiMode.add_ln_address (create_key_input_state s)) app
esc_mode (UiMode.confirm_currency s b) app =
    set_mode (UiMode.add_currency (create_key_input_state s)) app
esc_mode (UiMode.backup_new_keys words) app = close_backup app
esc_mode UiMode.normal app = app
esc_mode (UiMode.observer_save_attachment_popup i) app = to_default app
esc_mode (UiMode.viewing_message v) app = to_default app
esc_mode (UiMode.rating_order r) app = to_default app
esc_mode (UiMode.add_mostro_pubkey k) app = to_default app
esc_mode (UiMode.add_relay k) app = to_default app
esc_mode (UiMode.add_ln_address k) app = to_default app
esc_mode (UiMode.add_currency k) app = to_default app
esc_mode (UiMode.confirm_clear_ln_address b) app = to_default app
esc_mode (UiMode.confirm_clear_currencies b) app = to_default app
esc_mode (UiMode.confirm_delete_history_order i b) app = to_default app
esc_mode (UiMode.confirm_bulk_delete_history b) app = to_default app
esc_mode (UiMode.confirm_generate_new_keys b) app = to_default app
esc_mode (UiMode.confirm_exit b) app = to_default app

-- Only a result that is fatal ends the program.
abbrev pub continues : UiMode → App → Bool
continues (UiMode.operation_result r) app = if app.fatal_exit_on_close then false else true
continues mode app = true

-- The new state, and whether the program goes on.
unfoldable pub handle_esc_key : App → App × Bool
unfolding esc_mode
handle_esc_key app = if continues app.mode app then (esc_mode app.mode app, true) else (app, false)
