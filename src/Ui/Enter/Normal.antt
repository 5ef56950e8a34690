-- ===== src/Ui/Enter/Normal.antt =====
-- key_handler/enter_handlers.rs (`handle_enter_normal_mode`): Enter where no popup is open.
pub mod Placed
use mostrix.Prelude.{
  ℕ, String, Bool, true, false, not, ◌&&◌, ◌||◌, Option, none, some, List, [], ◌∷◌, any, get_elem?,
  is_some, is_some_and, lookup, ◌==◌, is_empty, trim, if◌then◌else◌,
}
use mostrix.Protocol.{Uuid, Status, Action, SmallOrder}
use mostrix.Messages.{
  OrderMessage, MessageNotification, strip_new_order_messages_and_clamp_selected,
}
use mostrix.Messages.Popup.{
  invoice_popup_allowed_for_order_status, local_user_must_act_on_invoice_popup,
}
use mostrix.Messages.Notification.{
  order_message_to_notification, order_message_to_waiting_notification,
}
use mostrix.Messages.Labels.{message_action_compact_label_for_message}
use mostrix.Disputes.{Dispute}
use mostrix.Ui.UserTab.{UserTab}
use mostrix.Ui.AdminTab.{AdminTab}
use mostrix.Ui.Tabs.{Tab}
use mostrix.Ui.Form.{TakeOrderState}
use mostrix.Ui.Mode.{
  UiMode, UserMode, AdminMode, OperationResult, MessageViewState, ViewingMessageButtonSelection,
  ThreeState, SolverPermission, create_key_input_state,
}
use mostrix.Ui.App.{App, set_mode, begin_observer_fetch, handle_mode_switch}
use mostrix.Ui.Host.{Host}
use mostrix.Ui.Task.{Task, Step, quiet, doing}
use mostrix.Ui.Selection.{selected_filtered_book_order, selected_pending_dispute}
use mostrix.Ui.SettingsMenu.{SettingsMenuAction, settings_action_for_index}
use mostrix.Ui.Invoice.{invoice_state, present_add_invoice_popup}
use mostrix.Ui.Enter.Dispute.{show, show_error}
use mostrix.Ui.Enter.Chat.{handle_enter_user_order_chat}
use mostrix.Ui.Enter.Opening.{open_selected_message}

abbrev looks_pending : Option Status → Bool
looks_pending none = true
looks_pending (some Status.pending) = true
looks_pending _ = false

unfoldable pub is_my_pending_book_order : App → Uuid → Option Status → Bool
is_my_pending_book_order app i status =
    any (λ row. row.order_id == i) app.my_trades_maker_book
    || (looks_pending status
        && is_some_and (lookup i app.order_chat_static) (λ header. header.is_mine))

abbrev pub build_order_action_view_state : Uuid → Action → String → MessageViewState
build_order_action_view_state i a content = record {
  message_content = content;
  order_id = some i;
  action = a;
  button_selection = ViewingMessageButtonSelection.two true;
}

abbrev pub own_listing : App → SmallOrder → Option Uuid
own_listing app o = elim o.id [
  | none ↦ none
  | some i ↦ if is_my_pending_book_order app i o.status then some i else none
]

abbrev pub new_take : SmallOrder → TakeOrderState
new_take o = record {
  order = o;
  amount_input = "";
  is_range_order = is_some o.min_amount || is_some o.max_amount;
  validation_error = none;
  selected_button = true;
}

unfoldable pub cancelling : Uuid → UiMode
cancelling i = UiMode.viewing_message (
    build_order_action_view_state i Action.cancel
      "Cancel this pending order? It will be removed from the order book.")

-- An own pending listing is cancelled, another's is taken.
unfoldable pub open_order : Option SmallOrder → App → App
unfolding cancelling
open_order none app = app
open_order (some o) app = elim (own_listing app o) [
  | some i ↦ set_mode (cancelling i) app
  | none ↦ set_mode (UiMode.user_mode (UserMode.taking_order (new_take o))) app
]

open_dispute : Option Dispute → App → App
open_dispute none app = app
open_dispute (some d) app =
    set_mode (UiMode.admin_mode (AdminMode.confirm_take_dispute d.id true)) app

observer_failed : String → App → Step
observer_failed message app =
    quiet (show_error message (record app { observer_error = some message }))

fetch_observer_chat : Host → App → Step
unfolding begin_observer_fetch observer_failed
fetch_observer_chat h app =
    let key = trim app.observer_shared_key_input in
    let fetching = begin_observer_fetch app in
    if is_empty key
    then observer_failed "Shared key is required" app
    else if not (h.is_shared_hex key)
    then observer_failed "Shared key must be a valid 64-char hex secret (32 bytes)" app
    else doing (Task.fetch_observer key fetching.observer_fetch_generation ∷ []) fetching

abbrev adding_solver : UiMode
adding_solver = UiMode.admin_mode (
    AdminMode.add_solver
      (record { key_input = create_key_input_state ""; permission = SolverPermission.read_write }))

open_setting : Option SettingsMenuAction → App → Step
unfolding handle_mode_switch
open_setting none app = quiet app
open_setting (some SettingsMenuAction.switch_mode) app =
    doing (Task.save_user_mode ∷ []) (handle_mode_switch app)
open_setting (some SettingsMenuAction.change_mostro_pubkey) app =
    quiet (set_mode (UiMode.add_mostro_pubkey (create_key_input_state "")) app)
open_setting (some SettingsMenuAction.add_relay) app =
    quiet (set_mode (UiMode.add_relay (create_key_input_state "")) app)
open_setting (some SettingsMenuAction.set_buyer_ln_address) app =
    quiet (set_mode (UiMode.add_ln_address (create_key_input_state "")) app)
open_setting (some SettingsMenuAction.clear_buyer_ln_address) app =
    quiet (set_mode (UiMode.confirm_clear_ln_address true) app)
open_setting (some SettingsMenuAction.add_currency_filter) app =
    quiet (set_mode (UiMode.add_currency (create_key_input_state "")) app)
open_setting (some SettingsMenuAction.clear_currency_filters) app =
    quiet (set_mode (UiMode.confirm_clear_currencies true) app)
open_setting (some SettingsMenuAction.view_seed_words) app =
    doing (Task.load_seed_words ∷ []) (show (OperationResult.info "Loading seed words...") app)
open_setting (some SettingsMenuAction.add_dispute_solver) app = quiet (set_mode adding_solver app)
open_setting (some SettingsMenuAction.change_admin_key) app =
    quiet (set_mode (UiMode.admin_mode (AdminMode.setup_admin_key (create_key_input_state ""))) app)
open_setting (some SettingsMenuAction.generate_new_keys) app =
    quiet (set_mode (UiMode.confirm_generate_new_keys true) app)

abbrev refresh_info : App → Step
refresh_info app =
    doing (Task.refresh_info ∷ [])
      (show (OperationResult.info "Fetching Mostro instance info...") app)

settings_step : App → Step
unfolding open_setting settings_action_for_index
settings_step app =
    open_setting (settings_action_for_index app.user_role app.selected_settings_option) app

user_tab : Host → UserTab → App → Step
unfolding open_order open_selected_message settings_step handle_enter_user_order_chat
user_tab h UserTab.mostro_info app = refresh_info app
user_tab h UserTab.my_trades app = handle_enter_user_order_chat h app
user_tab h UserTab.orders app =
    quiet (open_order (selected_filtered_book_order h.to_uppercase app h.orders) app)
user_tab h UserTab.messages app = quiet (open_selected_message h app)
user_tab h UserTab.exit app = quiet (set_mode (UiMode.confirm_exit true) app)
user_tab h UserTab.settings app = settings_step app
user_tab h UserTab.create_new_order app = quiet app

admin_tab : Host → AdminTab → App → Step
unfolding open_dispute fetch_observer_chat settings_step
admin_tab h AdminTab.mostro_info app = refresh_info app
admin_tab h AdminTab.disputes_pending app =
    quiet (open_dispute (selected_pending_dispute h.dispute_text app h.disputes) app)
admin_tab h AdminTab.disputes_in_progress app = quiet app
admin_tab h AdminTab.observer app = fetch_observer_chat h app
admin_tab h AdminTab.exit app = quiet (set_mode (UiMode.confirm_exit true) app)
admin_tab h AdminTab.settings app = settings_step app

-- By the tab, whatever the role.
on_tab : Host → Tab → App → Step
unfolding user_tab admin_tab
on_tab h (Tab.user t) app = user_tab h t app
on_tab h (Tab.admin t) app = admin_tab h t app

unfoldable pub handle_enter_normal_mode : Host → App → Step
unfolding on_tab
handle_enter_normal_mode h app = on_tab h app.active_tab app
