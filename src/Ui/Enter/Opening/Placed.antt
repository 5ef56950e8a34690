-- ===== src/Ui/Enter/Opening/Placed.antt =====
-- key_handler/enter_handlers.rs: the role, the tab and the mode under opening a message.
use mostrix.Prelude.{◌≡◌, refl, true, not, Option, none, some, get_elem?, if_lem, option_lem}
use mostrix.Protocol.{Uuid, Action}
use mostrix.Messages.{
  OrderMessage, MessageNotification, strip_new_order_messages_and_clamp_selected,
}
use mostrix.Messages.Popup.{
  invoice_popup_allowed_for_order_status, local_user_must_act_on_invoice_popup,
}
use mostrix.Messages.Notification.{order_message_to_notification}
use mostrix.Ui.App.{App}
use mostrix.Ui.Host.{Host}
use mostrix.Ui.Tabs.{UserRole}
use mostrix.Ui.Invoice.Placed.{present_fits}
use mostrix.Ui.Placed.{IsPlaced, mode_fits}
use mostrix.Ui.Enter.Opening.{
  invoice_popup_action_for_message_action, acting_popup, open_invoice, open_rating, open_other,
  open_message, open_selected_message, buttons_for, is_rate, waiting_popup,
}

acting_fits :
    (h : Host) (a : Action) (n : MessageNotification) (app : App) (r : UserRole)
    → mode_fits r (acting_popup h a n app) ≡ true
unfolding acting_popup
acting_fits h Action.add_invoice n app r =
    present_fits h.ln_address app.buyer_invoice_preference n r
acting_fits h a n app r = refl

open_invoice-IsPlaced :
    (h : Host) (a : Action) (m : OrderMessage) (app : App)
    → IsPlaced app
    → IsPlaced (open_invoice h a m app)
unfolding open_invoice waiting_popup
open_invoice-IsPlaced h a m app p =
    if_lem IsPlaced (not (invoice_popup_allowed_for_order_status a m.order_status))
      (λ q. (p.0, refl, p.2))
      (λ q.
        if_lem IsPlaced (local_user_must_act_on_invoice_popup m a)
          (λ q'. (
            p.0,
            acting_fits h a (order_message_to_notification h.local_time m) app app.user_role,
            p.2,
          ))
          (λ q'. (p.0, refl, p.2)))

open_rating-IsPlaced : (i : Option Uuid) (app : App) → IsPlaced app → IsPlaced (open_rating i app)
unfolding open_rating
open_rating-IsPlaced none app p = (p.0, refl, p.2)
open_rating-IsPlaced (some i) app p = (p.0, refl, p.2)

open_other-IsPlaced : (m : OrderMessage) (app : App) → IsPlaced app → IsPlaced (open_other m app)
unfolding open_other
open_other-IsPlaced m app p =
    if_lem IsPlaced (is_rate m.message.action) (λ q. open_rating-IsPlaced m.order_id app p)
      (λ q. (p.0, refl, p.2))

open_message-IsPlaced :
    (h : Host) (m : OrderMessage) (app : App) → IsPlaced app → IsPlaced (open_message h m app)
unfolding open_message
open_message-IsPlaced h m app p =
    option_lem IsPlaced (invoice_popup_action_for_message_action m.message.action)
      (λ q.
        option_lem IsPlaced (buttons_for m.message.action) (λ q'. open_other-IsPlaced m app p)
          (λ b q'. (p.0, refl, p.2)))
      (λ a q. open_invoice-IsPlaced h a m app p)

pub open_selected_message-IsPlaced :
    (h : Host) (app : App) → IsPlaced app → IsPlaced (open_selected_message h app)
unfolding open_selected_message
open_selected_message-IsPlaced h app p =
    let kept = strip_new_order_messages_and_clamp_selected app.messages app.selected_message_idx in
    let app' = record app { messages = kept.0; selected_message_idx = kept.1 } in
    option_lem IsPlaced (get_elem? kept.0 kept.1) (λ q. p) (λ m q. open_message-IsPlaced h m app' p)
