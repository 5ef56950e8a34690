-- ===== src/Ui/Enter/Message.antt =====
-- key_handler/message_handlers.rs: Enter on a message, on an invoice popup and on a rating.
pub mod Placed
use mostrix.Prelude.{
  String, Bool, true, false, not, ◌&&◌, Option, none, some, List, [], ◌∷◌, is_empty, trim, remove,
  if◌then◌else◌, same,
}
use mostrix.Protocol.{Uuid, Action, Action-discrete}
use mostrix.Ui.Tabs.{UserRole}
use mostrix.Ui.Mode.{
  UiMode, UserMode, AdminMode, OperationResult, InvoiceInputState,
  InvoiceNotificationActionSelection, MessageViewState, RatingOrderState, ThreeState,
  ViewingMessageButtonSelection, default_for_role,
}
use mostrix.Ui.App.{App, set_mode}
use mostrix.Ui.Task.{Task, Step, quiet, doing}

abbrev pub role_waiting_mode : UserRole → UiMode
role_waiting_mode UserRole.user = UiMode.user_mode UserMode.waiting_add_invoice
role_waiting_mode UserRole.admin = UiMode.admin_mode AdminMode.normal

abbrev pub defaulted : App → App
defaulted app = set_mode (default_for_role app.user_role) app

abbrev pub waiting : App → App
waiting app = set_mode (role_waiting_mode app.user_role) app

abbrev pub error_report : String → Task
error_report message = Task.report (OperationResult.error message)

abbrev no_order_id : App → Step
no_order_id app = doing (error_report "No order ID in message" ∷ []) (defaulted app)

unfoldable pub submit_add_invoice : Uuid → String → Option Uuid → App → Step
submit_add_invoice i input remember app =
    if is_empty (trim input)
    then doing (error_report "Invoice cannot be empty" ∷ []) (defaulted app)
    else doing (Task.add_invoice i input remember ∷ [])
        (waiting (record app { pending_post_take_operation_result = none }))

unfoldable pub submit_add_bond_invoice : Uuid → String → App → Step
submit_add_bond_invoice i input app =
    if is_empty (trim input)
    then doing (error_report "Invoice cannot be empty" ∷ []) (defaulted app)
    else doing (Task.add_bond_invoice i input ∷ [])
        (waiting (record app { pending_post_take_operation_result = none }))

-- The order's invoice preference is forgotten.
unfoldable pub spawn_cancel_from_notification : Option Uuid → App → Step
spawn_cancel_from_notification none app = no_order_id app
spawn_cancel_from_notification (some i) app =
    doing (Task.cancel_order i ∷ [])
      (waiting (record app { buyer_invoice_preference = remove i app.buyer_invoice_preference }))

-- NO, which sends nothing.
abbrev pub dismisses : ViewingMessageButtonSelection → Bool
dismisses (ViewingMessageButtonSelection.two false) = true
dismisses (ViewingMessageButtonSelection.three ThreeState.to_no) = true
dismisses _ = false

abbrev hold_action : ViewingMessageButtonSelection → Option Action
hold_action (ViewingMessageButtonSelection.three ThreeState.to_cancel) = some Action.cancel
hold_action (ViewingMessageButtonSelection.three _) = some Action.fiat_sent
hold_action (ViewingMessageButtonSelection.two true) = some Action.fiat_sent
hold_action (ViewingMessageButtonSelection.two false) = none

-- What is sent in answer to a message; `none` only closes the popup.
abbrev pub action_to_send : Action → ViewingMessageButtonSelection → Option Action
action_to_send Action.hold_invoice_payment_accepted b = hold_action b
action_to_send Action.buyer_took_order b = some Action.cancel
action_to_send Action.fiat_sent_ok b = some Action.release
action_to_send Action.cooperative_cancel_initiated_by_peer b = some Action.cancel
action_to_send Action.cancel b = some Action.cancel
action_to_send Action.fiat_sent b = some Action.fiat_sent
action_to_send Action.release b = some Action.release
action_to_send _ b = none

abbrev asks_cooperative_cancel : Action → Action → Bool
asks_cooperative_cancel Action.cancel Action.hold_invoice_payment_accepted = true
asks_cooperative_cancel Action.cancel Action.buyer_took_order = true
asks_cooperative_cancel _ _ = false

abbrev pub is_dispute : Action → Bool
is_dispute Action.dispute = true
is_dispute _ = false

unfoldable pub spawn_dispute : Option Uuid → App → Step
spawn_dispute none app = no_order_id app
spawn_dispute (some i) app = doing (Task.open_dispute i ∷ []) (waiting app)

unfoldable pub send : Option Action → Action → Option Uuid → App → Step
send none source i app = quiet (defaulted app)
send (some a) source none app = no_order_id app
send (some a) source (some i) app =
    doing (Task.send_message i a source (asks_cooperative_cancel a source) ∷ []) (waiting app)

unfoldable pub handle_enter_viewing_message : MessageViewState → App → Step
unfolding spawn_dispute send
handle_enter_viewing_message v app =
    if dismisses v.button_selection
    then quiet (defaulted app)
    else if is_dispute v.action
    then spawn_dispute v.order_id app
    else send (action_to_send v.action v.button_selection) v.action v.order_id app

abbrev pub should_send_cancel_from_invoice_popup : InvoiceNotificationActionSelection → Bool
should_send_cancel_from_invoice_popup InvoiceNotificationActionSelection.cancel = true
should_send_cancel_from_invoice_popup InvoiceNotificationActionSelection.primary = false

-- The primary button of an invoice popup.
submit : Action → InvoiceInputState → Option Uuid → App → Step
unfolding submit_add_invoice submit_add_bond_invoice
submit Action.add_invoice st none app = no_order_id app
submit Action.add_invoice st (some i) app = submit_add_invoice i st.invoice_input none app
submit Action.add_bond_invoice st none app = no_order_id app
submit Action.add_bond_invoice st (some i) app = submit_add_bond_invoice i st.invoice_input app
submit _ st i app = quiet (defaulted app)

abbrev pub is_popup_action : Action → Bool
is_popup_action Action.add_invoice = true
is_popup_action Action.add_bond_invoice = true
is_popup_action Action.pay_invoice = true
is_popup_action Action.pay_bond_invoice = true
is_popup_action Action.waiting_seller_to_pay = true
is_popup_action Action.waiting_buyer_invoice = true
is_popup_action _ = false

unfoldable pub handle_enter_message_notification :
    Action → InvoiceInputState → Option Uuid → App → Step
unfolding submit spawn_cancel_from_notification
handle_enter_message_notification a st i app =
    if not (is_popup_action a)
    then doing (error_report "Invalid action" ∷ []) app
    else if should_send_cancel_from_invoice_popup st.action_selection
    then spawn_cancel_from_notification i app
    else submit a st i app

unfoldable pub handle_enter_rating_order : RatingOrderState → App → Step
handle_enter_rating_order r app =
    doing (Task.rate_user r.order_id r.selected_rating ∷ []) (waiting app)
