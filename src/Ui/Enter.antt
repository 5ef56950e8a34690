-- ===== src/Ui/Enter.antt =====
-- key_handler/enter_handlers.rs: the Enter key.
pub mod Message
pub mod Dispute
pub mod Chat
pub mod Settings
pub mod Opening
pub mod Normal
pub mod Placed
use Prim.Native.String.{◌++◌}
use mostrix.Prelude.{
  ℕ, ℤ, String, Bool, true, false, not, ◌&&◌, Option, none, some, List, [], ◌∷◌, is_empty, trim,
  parse_i64, is_some, if◌then◌else◌, and_then,
}
use mostrix.Protocol.{Uuid, Action}
use mostrix.Messages.{MessageNotification}
use mostrix.Ui.UserTab.{UserTab}
use mostrix.Ui.AdminTab.{AdminTab}
use mostrix.Ui.Tabs.{UserRole, Tab, first}
use mostrix.Ui.Form.{FormState, TakeOrderState}
use mostrix.Ui.Mode.{UiMode, UserMode, AdminMode, OperationResult, default_for_role}
use mostrix.Ui.App.{App, set_mode}
use mostrix.Ui.Host.{Host}
use mostrix.Ui.Task.{Task, Step, quiet, doing}
use mostrix.Ui.TabSwitch.{is_create_new_order}
use mostrix.Ui.Esc.{close_result, close_backup, review_again}
use mostrix.Ui.Invoice.{apply_saved_ln_address_invoice_choice}
use Message.{
  defaulted, submit_add_invoice, handle_enter_message_notification, handle_enter_viewing_message,
  handle_enter_rating_order,
}
use Dispute.{
  show_error, execute_take_dispute_action, execute_finalize_dispute_action, handle_enter_admin_mode,
  handle_enter_reviewing_dispute,
}
use Chat.{handle_enter_admin_managing_dispute_chat}
use Settings.{
  handle_enter_settings_mode, handle_enter_delete_history_order, handle_enter_bulk_delete_history,
  handle_enter_generate_new_keys,
}
use Normal.{handle_enter_normal_mode}

-- user_handlers.rs
unfoldable pub handle_enter_creating_order : FormState → App → Step
handle_enter_creating_order form app = quiet (
    set_mode
      (UiMode.user_mode (
        if is_create_new_order app.active_tab
        then UserMode.confirming_order form true
        else UserMode.creating_order form))
      app)

abbrev pub lacks_amount : TakeOrderState → Bool
lacks_amount t =
    if t.is_range_order
    then (if is_empty t.amount_input then true else is_some t.validation_error)
    else false

-- `parse::<i64>().ok()`: a text that is no integer gives no amount.
abbrev pub take_amount : TakeOrderState → Option ℤ
take_amount t = if t.is_range_order then parse_i64 (trim t.amount_input) else none

unfoldable pub execute_take_order_action : TakeOrderState → App → Step
execute_take_order_action t app =
    if lacks_amount t
    then quiet (set_mode (UiMode.user_mode (UserMode.taking_order t)) app)
    else doing (Task.take_order t (take_amount t) ∷ [])
        (set_mode (UiMode.user_mode (UserMode.waiting_take_order t)) app)

unfoldable pub handle_enter_taking_order : TakeOrderState → App → Step
unfolding execute_take_order_action
handle_enter_taking_order t app =
    if t.selected_button then execute_take_order_action t app else quiet (defaulted app)

-- The draft is kept until the submission has succeeded.
confirm_order : FormState → Bool → App → Step
confirm_order form true app = doing (Task.send_new_order form ∷ []) (
    set_mode (UiMode.user_mode (UserMode.waiting_for_mostro form))
      (record app { order_form_draft = some form }))
confirm_order form false app =
    quiet (set_mode (UiMode.user_mode (UserMode.creating_order form)) app)

use_saved_address : Host → Option Uuid → Option String → App → Step
unfolding submit_add_invoice
use_saved_address h none address app = quiet (show_error "No order ID for AddInvoice" app)
use_saved_address h (some i) none app =
    quiet (show_error ("Failed to load settings from disk: " ++ h.settings_error) app)
use_saved_address h (some i) (some address) app =
    if is_empty (trim address)
    then quiet (show_error "No saved Lightning address in settings" app)
    else submit_add_invoice i (trim address) (some i) app

confirm_saved_address : Host → MessageNotification → Bool → App → Step
unfolding use_saved_address apply_saved_ln_address_invoice_choice
confirm_saved_address h n true app = use_saved_address h n.order_id h.ln_address app
confirm_saved_address h n false app = quiet (apply_saved_ln_address_invoice_choice h n false app)

-- The tabs on which closing a result by Enter stays.
abbrev pub enter_stays : Tab → Bool
enter_stays (Tab.admin AdminTab.settings) = true
enter_stays (Tab.user UserTab.settings) = true
enter_stays (Tab.admin AdminTab.observer) = true
enter_stays (Tab.user UserTab.my_trades) = true
enter_stays (Tab.user UserTab.mostro_info) = true
enter_stays (Tab.admin AdminTab.mostro_info) = true
enter_stays (Tab.user UserTab.messages) = true
enter_stays _ = false

enter_result : App → Step
enter_result app = record {
  app = if app.fatal_exit_on_close then app else close_result enter_stays app;
  tasks = [];
  goes_on = not app.fatal_exit_on_close;
}

enter_user : Host → UserMode → App → Step
unfolding handle_enter_normal_mode handle_enter_creating_order confirm_order
    handle_enter_taking_order
enter_user h UserMode.normal app = handle_enter_normal_mode h app
enter_user h (UserMode.creating_order form) app = handle_enter_creating_order form app
enter_user h (UserMode.confirming_order form b) app = confirm_order form b app
enter_user h (UserMode.taking_order t) app = handle_enter_taking_order t app
enter_user h mode app = quiet (set_mode (UiMode.user_mode mode) app)

enter_admin : Host → AdminMode → App → Step
unfolding handle_enter_normal_mode handle_enter_admin_mode execute_take_dispute_action
    handle_enter_admin_managing_dispute_chat handle_enter_reviewing_dispute
    execute_finalize_dispute_action
enter_admin h AdminMode.normal app = handle_enter_normal_mode h app
enter_admin h (AdminMode.confirm_take_dispute i true) app = execute_take_dispute_action i app
enter_admin h (AdminMode.confirm_take_dispute i false) app = quiet (defaulted app)
enter_admin h (AdminMode.waiting_take_dispute i) app = quiet (defaulted app)
enter_admin h AdminMode.waiting_add_solver app = quiet (defaulted app)
enter_admin h AdminMode.managing_dispute app = handle_enter_admin_managing_dispute_chat h app
enter_admin h (AdminMode.reviewing_dispute i button bond is_open index) app =
    handle_enter_reviewing_dispute h i button bond is_open index app
enter_admin h (AdminMode.confirm_finalize_dispute i is_settle bond true) app =
    execute_finalize_dispute_action i is_settle bond app
enter_admin h (AdminMode.confirm_finalize_dispute i is_settle bond false) app =
    quiet (set_mode (review_again i is_settle bond) app)
enter_admin h (AdminMode.waiting_dispute_finalization i) app = quiet (defaulted app)
enter_admin h mode app = handle_enter_admin_mode h mode app

-- What Enter does in a mode, in the state that already has the role's default mode. Help and attachment
-- popups are handled before in `key_handler/mod.rs`.
enter_mode : Host → UiMode → App → Step
unfolding handle_enter_normal_mode enter_user enter_admin enter_result confirm_saved_address
    handle_enter_message_notification handle_enter_viewing_message handle_enter_rating_order
    handle_enter_settings_mode handle_enter_delete_history_order handle_enter_bulk_delete_history
    handle_enter_generate_new_keys
enter_mode h UiMode.normal app = handle_enter_normal_mode h app
enter_mode h (UiMode.user_mode m) app = enter_user h m app
enter_mode h (UiMode.admin_mode m) app = enter_admin h m app
enter_mode h (UiMode.confirm_saved_ln_address_for_invoice n b) app = confirm_saved_address h n b app
enter_mode h (UiMode.help_popup tab previous) app = quiet app
enter_mode h (UiMode.settings_instructions_popup role previous) app = quiet app
enter_mode h (UiMode.save_attachment_popup i) app =
    quiet (set_mode (UiMode.admin_mode AdminMode.managing_dispute) app)
enter_mode h (UiMode.observer_save_attachment_popup i) app = quiet app
enter_mode h (UiMode.user_save_attachment_popup o i) app =
    quiet (set_mode (UiMode.user_mode UserMode.normal) app)
enter_mode h (UiMode.user_send_attachment_picker o) app = quiet app
enter_mode h (UiMode.operation_result r) app = enter_result app
enter_mode h (UiMode.new_message_notification n a st) app =
    handle_enter_message_notification a st n.order_id app
enter_mode h (UiMode.viewing_message v) app = handle_enter_viewing_message v app
enter_mode h (UiMode.rating_order r) app = handle_enter_rating_order r app
enter_mode h (UiMode.confirm_delete_history_order i b) app =
    handle_enter_delete_history_order i b app
enter_mode h (UiMode.confirm_bulk_delete_history b) app = handle_enter_bulk_delete_history b app
enter_mode h (UiMode.confirm_generate_new_keys b) app = handle_enter_generate_new_keys h b app
enter_mode h (UiMode.backup_new_keys words) app = quiet (close_backup app)
enter_mode h mode app = handle_enter_settings_mode h mode app

unfoldable pub handle_enter_key : Host → App → Step
unfolding enter_mode
handle_enter_key h app = enter_mode h app.mode (defaulted app)
