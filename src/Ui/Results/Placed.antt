-- ===== src/Ui/Results/Placed.antt =====
-- util/dm_utils/order_ch_mng.rs: the role, the tab and the mode under a result.
use mostrix.Prelude.{
  ℕ, ℤ, refl, String, Option, none, some, any, is_some_and, ◌==◌, if◌then◌else◌, if_lem, option_lem,
}
use mostrix.Protocol.{Uuid, SmallOrder, Action}
use mostrix.Dm.{is_row_of}
use mostrix.Ui.Host.{Host}
use mostrix.Ui.Mode.{UiMode, UserMode, OperationResult, OrderSuccess, OrderChatStaticHeader}
use mostrix.Ui.App.{App}
use mostrix.Ui.Invoice.{is_invoice_action}
use mostrix.Ui.Invoice.Placed.{apply_open_invoice_popup_from_execute-IsPlaced}
use mostrix.Ui.Placeholder.{try_placeholder_order_message_from_success}
use mostrix.Ui.Placed.{IsPlaced}
use mostrix.Ui.Results.{
  remove_closed_trade_from_messages_tab, remove_many_orders_from_messages_tab, normalize,
  put_header, maybe_insert_my_trade_placeholder_message, track, record_success,
  is_waiting_for_mostro, require_payment, show_result, apply_result, handle_operation_result,
}

normalize-IsPlaced : (r : OperationResult) (app : App) → IsPlaced app → IsPlaced (normalize r app).1
unfolding normalize remove_closed_trade_from_messages_tab remove_many_orders_from_messages_tab
normalize-IsPlaced (OperationResult.trade_closed i m) app p = p
normalize-IsPlaced (OperationResult.order_history_deleted is m) app p = p
normalize-IsPlaced (OperationResult.invoice_submitted m none) app p = p
normalize-IsPlaced (OperationResult.invoice_submitted m (some i)) app p = p
normalize-IsPlaced (OperationResult.order_chat_attachment_sent i m t) app p = p
normalize-IsPlaced (OperationResult.order_chat_attachment_error i m) app p = p
normalize-IsPlaced (OperationResult.order_chat_attachment_send_failed a m) app p = p
normalize-IsPlaced r app p = p

maybe_insert_my_trade_placeholder_message-IsPlaced :
    (h : Host) (os : OrderSuccess) (app : App)
    → IsPlaced app
    → IsPlaced (maybe_insert_my_trade_placeholder_message h os app)
unfolding maybe_insert_my_trade_placeholder_message
maybe_insert_my_trade_placeholder_message-IsPlaced h os app p =
    option_lem IsPlaced (try_placeholder_order_message_from_success h os) (λ q. p)
      (λ row q.
        if_lem IsPlaced (any (λ m. is_some_and row.order_id (λ i. is_row_of i m)) app.messages)
          (λ q'. p) (λ q'. p))

record_success-IsPlaced :
    (h : Host) (os : OrderSuccess) (app : App) → IsPlaced app → IsPlaced (record_success h os app)
unfolding record_success
record_success-IsPlaced h os app p =
    maybe_insert_my_trade_placeholder_message-IsPlaced h os
      (elim os.static_header [ none ↦ app | some header ↦ put_header header app ])
      (option_lem IsPlaced os.static_header (λ q. p) (λ header q. p))

track-IsPlaced :
    (i : Option Uuid) (k : Option ℤ) (app : App) → IsPlaced app → IsPlaced (track i k app)
track-IsPlaced (some i) (some k) app p = p
track-IsPlaced (some i) none app p = p
track-IsPlaced none k app p = p

require_payment-IsPlaced :
    (now : ℕ) (o : SmallOrder) (s : String) (sats : Option ℤ) (k : ℤ) (h : OrderChatStaticHeader)
    (a : Action) (app : App)
    → IsPlaced app
    → IsPlaced (require_payment now o s sats k h a app)
unfolding require_payment
require_payment-IsPlaced now o s sats k h a app p =
    let app' = put_header h app in
    let app'' =
      if is_waiting_for_mostro app.mode then record app' { order_form_draft = none } else app' in
    let p' =
      track-IsPlaced o.id (some k) app''
        (if_lem IsPlaced (is_waiting_for_mostro app.mode) (λ q. p) (λ q. p)) in
    (p'.0, refl, p'.2)

show_result-IsPlaced :
    (r : OperationResult) (m : UiMode) (app : App) → IsPlaced app → IsPlaced (show_result r m app)
unfolding show_result
show_result-IsPlaced r (UiMode.user_mode (UserMode.waiting_for_mostro f)) app p = (p.0, refl, p.2)
show_result-IsPlaced r (UiMode.new_message_notification n a st) app p =
    if_lem IsPlaced (is_invoice_action a) (λ q. p) (λ q. (p.0, refl, p.2))
show_result-IsPlaced r (UiMode.confirm_saved_ln_address_for_invoice n b) app p = p
show_result-IsPlaced r m app p = (p.0, refl, p.2)

apply_result-IsPlaced :
    (h : Host) (r : OperationResult) (app : App) → IsPlaced app → IsPlaced (apply_result h r app)
unfolding apply_result
apply_result-IsPlaced h (OperationResult.open_invoice_popup n m) app p =
    apply_open_invoice_popup_from_execute-IsPlaced h n m app p
apply_result-IsPlaced h (OperationResult.payment_request_required o s sats k header a) app p =
    require_payment-IsPlaced h.now o s sats k header a app p
apply_result-IsPlaced h (OperationResult.success os) app p =
    show_result-IsPlaced (OperationResult.success os) app.mode
      (track os.order_id os.trade_index (record_success h os app))
      (track-IsPlaced os.order_id os.trade_index (record_success h os app)
        (record_success-IsPlaced h os app p))
apply_result-IsPlaced h (OperationResult.observer_chat_loaded g ms) app p =
    if_lem IsPlaced (g == app.observer_fetch_generation) (λ q. p) (λ q. p)
apply_result-IsPlaced h (OperationResult.observer_chat_error g m) app p =
    if_lem IsPlaced (g == app.observer_fetch_generation) (λ q. (p.0, refl, p.2)) (λ q. p)
apply_result-IsPlaced h r app p = show_result-IsPlaced r app.mode app p

pub handle_operation_result-IsPlaced :
    (h : Host) (r : OperationResult) (app : App)
    → IsPlaced app
    → IsPlaced (handle_operation_result h r app)
unfolding handle_operation_result
handle_operation_result-IsPlaced h r app p =
    apply_result-IsPlaced h (normalize r app).0 (normalize r app).1 (normalize-IsPlaced r app p)
