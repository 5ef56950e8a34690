-- ===== src/Ui/Enter/Opening.antt =====
-- key_handler/enter_handlers.rs (`handle_enter_normal_mode`): Enter on a row of the Messages tab.
pub mod Placed
use mostrix.Prelude.{
  ℕ, String, Bool, true, false, not, ◌&&◌, ◌||◌, Option, none, some, List, [], ◌∷◌, any, get_elem?,
  is_some, is_some_and, lookup, ◌==◌, is_empty, trim, if◌then◌else◌,
}
use mostrix.Protocol.{Uuid, Status, Action, SmallOrder}
use mostrix.Messages.{
  OrderMessage, MessageNotification, strip_new_order_messages_and_clamp_selected,
}
use mostrix.Messages.Popup.{
  invoice_popup_allowed_for_order_status, local_user_must_act_on_invoice_popup,
}
use mostrix.Messages.Notification.{
  order_message_to_notification, order_message_to_waiting_notification,
}
use mostrix.Messages.Labels.{message_action_compact_label_for_message}
use mostrix.Disputes.{Dispute}
use mostrix.Ui.UserTab.{UserTab}
use mostrix.Ui.AdminTab.{AdminTab}
use mostrix.Ui.Tabs.{Tab}
use mostrix.Ui.Mode.{
  UiMode, UserMode, AdminMode, OperationResult, MessageViewState, ViewingMessageButtonSelection,
  ThreeState, SolverPermission, create_key_input_state,
}
use mostrix.Ui.App.{App, set_mode, begin_observer_fetch, handle_mode_switch}
use mostrix.Ui.Host.{Host}
use mostrix.Ui.Task.{Task, Step, quiet, doing}
use mostrix.Ui.Selection.{selected_filtered_book_order, selected_pending_dispute}
use mostrix.Ui.SettingsMenu.{SettingsMenuAction, settings_action_for_index}
use mostrix.Ui.Invoice.{invoice_state, present_add_invoice_popup}
use mostrix.Ui.Enter.Dispute.{show, show_error}

unfoldable pub invoice_popup_action_for_message_action : Action → Option Action
invoice_popup_action_for_message_action Action.add_invoice = some Action.add_invoice
invoice_popup_action_for_message_action Action.waiting_buyer_invoice = some Action.add_invoice
invoice_popup_action_for_message_action Action.add_bond_invoice = some Action.add_bond_invoice
invoice_popup_action_for_message_action Action.pay_invoice = some Action.pay_invoice
invoice_popup_action_for_message_action Action.waiting_seller_to_pay = some Action.pay_invoice
invoice_popup_action_for_message_action Action.pay_bond_invoice = some Action.pay_bond_invoice
invoice_popup_action_for_message_action _ = none

-- Opened by hand, the input has no focus, except where the popup is made for the automatic case.
acting_popup : Host → Action → MessageNotification → App → UiMode
unfolding present_add_invoice_popup
acting_popup h Action.add_invoice n app =
    present_add_invoice_popup h.ln_address app.buyer_invoice_preference n
acting_popup h a n app = UiMode.new_message_notification n a (invoice_state "" false)

waiting_popup : MessageNotification → UiMode
waiting_popup n = UiMode.new_message_notification n n.action (invoice_state "" false)

-- The text for an invoice message whose trade has moved on.
stale_info : Action → Option Status → String
stale_info Action.pay_invoice (some Status.waiting_buyer_invoice) =
    "Waiting for the buyer to add their invoice. Hold invoice is already paid."
stale_info _ _ = "Trade already advanced; invoice action no longer required."

open_invoice : Host → Action → OrderMessage → App → App
unfolding acting_popup waiting_popup stale_info
open_invoice h a m app =
    if not (invoice_popup_allowed_for_order_status a m.order_status)
    then show (OperationResult.info (stale_info m.message.action m.order_status)) app
    else if local_user_must_act_on_invoice_popup m a
    then set_mode (acting_popup h a (order_message_to_notification h.local_time m) app) app
    else set_mode (waiting_popup (order_message_to_waiting_notification h.local_time m)) app

-- The buttons of a message that can be answered; where the answer cancels, NO is highlighted.
abbrev buttons_for : Action → Option ViewingMessageButtonSelection
buttons_for Action.hold_invoice_payment_accepted =
    some (ViewingMessageButtonSelection.three ThreeState.to_yes)
buttons_for Action.cooperative_cancel_initiated_by_peer =
    some (ViewingMessageButtonSelection.two false)
buttons_for Action.buyer_took_order = some (ViewingMessageButtonSelection.two false)
buttons_for Action.fiat_sent_ok = some (ViewingMessageButtonSelection.two true)
buttons_for _ = none

view_of : MessageNotification → ViewingMessageButtonSelection → MessageViewState
view_of n buttons = record {
  message_content = n.message_preview;
  order_id = n.order_id;
  action = n.action;
  button_selection = buttons;
}

open_rating : Option Uuid → App → App
open_rating none app = show_error "No order ID for rating" app
open_rating (some i) app =
    set_mode (UiMode.rating_order (record { order_id = i; selected_rating = 3 })) app

abbrev pub is_rate : Action → Bool
is_rate Action.rate = true
is_rate _ = false

-- A message that is neither an invoice nor can be answered is only named.
open_other : OrderMessage → App → App
unfolding open_rating
open_other m app =
    if is_rate m.message.action
    then open_rating m.order_id app
    else show (OperationResult.info (message_action_compact_label_for_message m)) app

unfoldable pub open_message : Host → OrderMessage → App → App
unfolding open_invoice view_of open_other
open_message h m app = elim (invoice_popup_action_for_message_action m.message.action) [
  | some a ↦ open_invoice h a m app
  | none ↦ elim (buttons_for m.message.action) [
    | some buttons ↦
        set_mode
          (UiMode.viewing_message (view_of (order_message_to_notification h.local_time m) buttons))
          app
    | none ↦ open_other m app
  ]
]

unfoldable pub open_selected_message : Host → App → App
unfolding open_message
open_selected_message h app₀ =
    let kept =
      strip_new_order_messages_and_clamp_selected app₀.messages app₀.selected_message_idx in
    let app = record app₀ { messages = kept.0; selected_message_idx = kept.1 } in
    elim (get_elem? kept.0 kept.1) [ none ↦ app | some m ↦ open_message h m app ]
