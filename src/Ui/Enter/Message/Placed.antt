-- ===== src/Ui/Enter/Message/Placed.antt =====
-- key_handler/message_handlers.rs: the role, the tab and the mode under the answers.
use mostrix.Prelude.{◌≡◌, refl, String, true, not, Option, none, some, is_empty, trim, if_lem}
use mostrix.Protocol.{Uuid, Action}
use mostrix.Ui.Tabs.{UserRole}
use mostrix.Ui.Mode.{InvoiceInputState, MessageViewState, RatingOrderState}
use mostrix.Ui.App.{App}
use mostrix.Ui.Placed.{IsPlaced, LeadsToPlaced, mode_fits, default-fits}
use mostrix.Ui.Enter.Message.{
  role_waiting_mode, defaulted, waiting, submit_add_invoice, submit_add_bond_invoice,
  spawn_cancel_from_notification, dismisses, is_dispute, action_to_send, spawn_dispute, send,
  submit, handle_enter_viewing_message, handle_enter_message_notification,
  handle_enter_rating_order, is_popup_action, should_send_cancel_from_invoice_popup,
}

pub defaulted-IsPlaced : (app : App) → IsPlaced app → IsPlaced (defaulted app)
defaulted-IsPlaced app p = (p.0, default-fits app.user_role, p.2)

waiting_fits : (r : UserRole) → mode_fits r (role_waiting_mode r) ≡ true
waiting_fits UserRole.user = refl
waiting_fits UserRole.admin = refl

waiting-IsPlaced : (app : App) → IsPlaced app → IsPlaced (waiting app)
waiting-IsPlaced app p = (p.0, waiting_fits app.user_role, p.2)

pub submit_add_invoice-LeadsToPlaced :
    (i : Uuid) (s : String) (r : Option Uuid) (app : App)
    → IsPlaced app
    → LeadsToPlaced (submit_add_invoice i s r app)
unfolding submit_add_invoice
submit_add_invoice-LeadsToPlaced i s r app p =
    if_lem LeadsToPlaced (is_empty (trim s)) (λ q. defaulted-IsPlaced app p)
      (λ q. waiting-IsPlaced (record app { pending_post_take_operation_result = none }) p)

submit_add_bond_invoice-LeadsToPlaced :
    (i : Uuid) (s : String) (app : App)
    → IsPlaced app
    → LeadsToPlaced (submit_add_bond_invoice i s app)
unfolding submit_add_bond_invoice
submit_add_bond_invoice-LeadsToPlaced i s app p =
    if_lem LeadsToPlaced (is_empty (trim s)) (λ q. defaulted-IsPlaced app p)
      (λ q. waiting-IsPlaced (record app { pending_post_take_operation_result = none }) p)

spawn_cancel_from_notification-LeadsToPlaced :
    (i : Option Uuid) (app : App)
    → IsPlaced app
    → LeadsToPlaced (spawn_cancel_from_notification i app)
unfolding spawn_cancel_from_notification
spawn_cancel_from_notification-LeadsToPlaced none app p = defaulted-IsPlaced app p
spawn_cancel_from_notification-LeadsToPlaced (some i) app p = (p.0, waiting_fits app.user_role, p.2)

spawn_dispute-LeadsToPlaced :
    (i : Option Uuid) (app : App) → IsPlaced app → LeadsToPlaced (spawn_dispute i app)
unfolding spawn_dispute
spawn_dispute-LeadsToPlaced none app p = defaulted-IsPlaced app p
spawn_dispute-LeadsToPlaced (some i) app p = waiting-IsPlaced app p

send-LeadsToPlaced :
    (a : Option Action) (source : Action) (i : Option Uuid) (app : App)
    → IsPlaced app
    → LeadsToPlaced (send a source i app)
unfolding send
send-LeadsToPlaced none source i app p = defaulted-IsPlaced app p
send-LeadsToPlaced (some a) source none app p = defaulted-IsPlaced app p
send-LeadsToPlaced (some a) source (some i) app p = waiting-IsPlaced app p

pub handle_enter_viewing_message-LeadsToPlaced :
    (v : MessageViewState) (app : App)
    → IsPlaced app
    → LeadsToPlaced (handle_enter_viewing_message v app)
unfolding handle_enter_viewing_message
handle_enter_viewing_message-LeadsToPlaced v app p =
    if_lem LeadsToPlaced (dismisses v.button_selection) (λ q. defaulted-IsPlaced app p)
      (λ q.
        if_lem LeadsToPlaced (is_dispute v.action)
          (λ q'. spawn_dispute-LeadsToPlaced v.order_id app p)
          (λ q'.
            send-LeadsToPlaced (action_to_send v.action v.button_selection) v.action v.order_id app
              p))

submit-LeadsToPlaced :
    (a : Action) (st : InvoiceInputState) (i : Option Uuid) (app : App)
    → IsPlaced app
    → LeadsToPlaced (submit a st i app)
unfolding submit
submit-LeadsToPlaced Action.add_invoice st none app p = defaulted-IsPlaced app p
submit-LeadsToPlaced Action.add_invoice st (some i) app p =
    submit_add_invoice-LeadsToPlaced i st.invoice_input none app p
submit-LeadsToPlaced Action.add_bond_invoice st none app p = defaulted-IsPlaced app p
submit-LeadsToPlaced Action.add_bond_invoice st (some i) app p =
    submit_add_bond_invoice-LeadsToPlaced i st.invoice_input app p
submit-LeadsToPlaced a st i app p = defaulted-IsPlaced app p

pub handle_enter_message_notification-LeadsToPlaced :
    (a : Action) (st : InvoiceInputState) (i : Option Uuid) (app : App)
    → IsPlaced app
    → LeadsToPlaced (handle_enter_message_notification a st i app)
unfolding handle_enter_message_notification
handle_enter_message_notification-LeadsToPlaced a st i app p =
    if_lem LeadsToPlaced (not (is_popup_action a)) (λ q. p)
      (λ q.
        if_lem LeadsToPlaced (should_send_cancel_from_invoice_popup st.action_selection)
          (λ q'. spawn_cancel_from_notification-LeadsToPlaced i app p)
          (λ q'. submit-LeadsToPlaced a st i app p))

pub handle_enter_rating_order-LeadsToPlaced :
    (r : RatingOrderState) (app : App)
    → IsPlaced app
    → LeadsToPlaced (handle_enter_rating_order r app)
unfolding handle_enter_rating_order
handle_enter_rating_order-LeadsToPlaced r app p = waiting-IsPlaced app p
