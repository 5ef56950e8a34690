-- ===== src/Ui/Results.antt =====
-- util/dm_utils/order_ch_mng.rs: what the result of a background task does to the interface.
pub mod Placed
pub mod Forget
use mostrix.Prelude.{
  ℕ, ◌-◌, ℤ, String, Bool, true, false, not, ◌&&◌, ◌||◌, Option, none, some, List, [], ◌∷◌, ◌++◌,
  length, any, retain, is_some, is_some_and, lookup, insert, remove, unwrap_or, leb, ◌==◌, same,
  if◌then◌else◌,
}
use Prim.Native.String.{◌++◌ as concat}
use mostrix.Protocol.{Uuid, Status, Status-discrete, Action, SmallOrder}
use mostrix.Messages.{
  OrderMessage, MessageNotification, strip_new_order_messages_and_clamp_selected,
}
use mostrix.Dm.{is_row_of, remove_order_from_messages, sort_rows}
use mostrix.Ui.Host.{Host}
use mostrix.Ui.Form.{FormState}
use mostrix.Ui.Mode.{
  UiMode, UserMode, OperationResult, OrderSuccess, OrderChatStaticHeader, UserOrderChatMessage,
  DisputeChatMessage, PreparedOrderChatAttachment, BuyerInvoicePreference,
}
use mostrix.Ui.Sidebar.{build_active_order_chat_list}
use mostrix.Ui.App.{App, set_mode}
use mostrix.Ui.Invoice.{invoice_state, apply_open_invoice_popup_from_execute, is_invoice_action}
use mostrix.Ui.Placeholder.{try_placeholder_order_message_from_success}

unfoldable pub remove_closed_trade_from_messages_tab : Uuid → App → App
remove_closed_trade_from_messages_tab i app =
    let kept =
      strip_new_order_messages_and_clamp_selected (remove_order_from_messages i app.messages)
        app.selected_message_idx in
    record app {
      messages = kept.0;
      selected_message_idx = kept.1;
      active_order_trade_indices = remove i app.active_order_trade_indices;
      order_chat_static = remove i app.order_chat_static;
      buyer_invoice_preference = remove i app.buyer_invoice_preference;
    }

abbrev pub is_one_of : List Uuid → Uuid → Bool
is_one_of ids i = any (λ j. j == i) ids

-- The keys that are not among the ids.
unfoldable pub remove_all {ℓ} : {V : Type ℓ} → List Uuid → List (Uuid × V) → List (Uuid × V)
remove_all [] m = m
remove_all (i ∷ is) m = remove_all is (remove i m)

abbrev pub clamped : ℕ → ℕ → ℕ
clamped n i = if n == 0 then 0 else if leb n i then n - 1 else i

unfoldable pub remove_many_orders_from_messages_tab : List Uuid → App → App
remove_many_orders_from_messages_tab ids app =
    let kept =
      strip_new_order_messages_and_clamp_selected
        (retain (λ m. not (is_some_and m.order_id (is_one_of ids))) app.messages)
        app.selected_message_idx in
    record app {
      messages = kept.0;
      selected_message_idx = kept.1;
      selected_order_chat_idx =
          clamped (length (build_active_order_chat_list kept.0 app.my_trades_maker_book))
            app.selected_order_chat_idx;
      active_order_trade_indices = remove_all ids app.active_order_trade_indices;
      buyer_invoice_preference = remove_all ids app.buyer_invoice_preference;
      order_chats = remove_all ids app.order_chats;
      order_chat_last_seen = remove_all ids app.order_chat_last_seen;
      order_chat_static = remove_all ids app.order_chat_static;
      dropped_user_history_order_ids = ids ++ app.dropped_user_history_order_ids;
    }

unfoldable pub maybe_insert_my_trade_placeholder_message : Host → OrderSuccess → App → App
unfolding try_placeholder_order_message_from_success
maybe_insert_my_trade_placeholder_message h os app =
    elim (try_placeholder_order_message_from_success h os) [
      | none ↦ app
      | some row ↦
          if any (λ m. is_some_and row.order_id (λ i. is_row_of i m)) app.messages
          then app
          else record app { messages = sort_rows (app.messages ++ row ∷ []) }
    ]

abbrev not_sending : Uuid → App → App
not_sending i app = record app {
  sending_attachment_order_id =
      if is_some_and app.sending_attachment_order_id (λ j. j == i)
      then none
      else app.sending_attachment_order_id;
}

abbrev append_chat :
    Uuid
    → UserOrderChatMessage
    → List (Uuid × List UserOrderChatMessage)
    → List (Uuid × List UserOrderChatMessage)
append_chat i m chats = insert i (unwrap_or (lookup i chats) [] ++ m ∷ []) chats

abbrev send_failed_text : PreparedOrderChatAttachment → String → String
send_failed_text p err = concat "Uploaded " (
    concat p.filename (
      concat " to Blossom (" (
        concat p.blossom_url (
          concat ") but chat send failed: "
            (concat err ". Press Ctrl+Shift+O to retry send without re-uploading.")))))

-- The results that become a message first; the file of a sent attachment's chat is not modelled.
unfoldable pub normalize : OperationResult → App → OperationResult × App
unfolding remove_closed_trade_from_messages_tab remove_many_orders_from_messages_tab
normalize (OperationResult.trade_closed i message) app =
    (OperationResult.info message, remove_closed_trade_from_messages_tab i app)
normalize (OperationResult.order_history_deleted ids message) app =
    (OperationResult.info message, remove_many_orders_from_messages_tab ids app)
normalize (OperationResult.invoice_submitted message none) app = (OperationResult.info message, app)
normalize (OperationResult.invoice_submitted message (some i)) app = (
  OperationResult.info message,
  record app {
    buyer_invoice_preference =
        insert i BuyerInvoicePreference.use_saved_ln_address app.buyer_invoice_preference;
  },
)
normalize (OperationResult.order_chat_attachment_sent i chat_message info_message) app = (
  OperationResult.info info_message,
  record (not_sending i app) {
    pending_order_attachment_sends = remove i app.pending_order_attachment_sends;
    order_chats = append_chat i chat_message app.order_chats;
  },
)
normalize (OperationResult.order_chat_attachment_error i err) app =
    (OperationResult.error err, not_sending i app)
normalize (OperationResult.order_chat_attachment_send_failed prepared err) app = (
  OperationResult.error (send_failed_text prepared err),
  record (not_sending prepared.order_id app) {
    pending_order_attachment_sends =
        insert prepared.order_id prepared app.pending_order_attachment_sends;
  },
)
normalize r app = (r, app)

abbrev pub put_header : OrderChatStaticHeader → App → App
put_header h app = record app { order_chat_static = insert h.order_id h app.order_chat_static }

abbrev pub track : Option Uuid → Option ℤ → App → App
track (some i) (some k) app = record app {
  active_order_trade_indices = insert i k app.active_order_trade_indices;
}
track _ _ app = app

unfoldable pub record_success : Host → OrderSuccess → App → App
unfolding maybe_insert_my_trade_placeholder_message
record_success h os app =
    maybe_insert_my_trade_placeholder_message h os
      (elim os.static_header [ none ↦ app | some header ↦ put_header header app ])

abbrev pub is_waiting_for_mostro : UiMode → Bool
is_waiting_for_mostro (UiMode.user_mode (UserMode.waiting_for_mostro form)) = true
is_waiting_for_mostro _ = false

abbrev payment_preview : Action → String
payment_preview Action.pay_bond_invoice = "Bond Invoice"
payment_preview _ = "Payment Request"

abbrev pub payment_notification : ℕ → SmallOrder → String → Option ℤ → Action → MessageNotification
payment_notification now o invoice sats a = record {
  order_id = o.id;
  message_preview = payment_preview a;
  timestamp = now;
  action = a;
  sat_amount = sats;
  invoice = some invoice;
  body = none;
  maker_bond_publish = is_some_and o.status (λ s. same Status-discrete s Status.waiting_maker_bond);
  solver_pubkey = none;
  dispute_id = none;
}

unfoldable pub require_payment :
    ℕ → SmallOrder → String → Option ℤ → ℤ → OrderChatStaticHeader → Action → App → App
require_payment now o invoice sats index header a app =
    let app' = put_header header app in
    let app'' =
      if is_waiting_for_mostro app.mode then record app' { order_form_draft = none } else app' in
    set_mode
      (UiMode.new_message_notification (payment_notification now o invoice sats a) a
        (invoice_state "" false))
      (track o.id (some index) app'')

abbrev load_observer : List DisputeChatMessage → App → App
load_observer messages app = record app {
  observer_loading = false;
  observer_error = none;
  observer_messages = messages;
}

abbrev fail_observer : String → App → App
fail_observer message app = record app {
  observer_loading = false;
  observer_error = some message;
  mode = UiMode.operation_result (OperationResult.error message);
}

-- The draft after a result, where the form waits for it.
abbrev draft_after : OperationResult → FormState → Option FormState → Option FormState
draft_after (OperationResult.success os) form draft = none
draft_after (OperationResult.error message) form draft = some form
draft_after r form draft = draft

abbrev stash : OperationResult → App → App
stash r app = record app { pending_post_take_operation_result = some r }

-- A popup that asks for an invoice or a payment stays; the result waits behind it.
unfoldable pub show_result : OperationResult → UiMode → App → App
show_result r (UiMode.user_mode (UserMode.waiting_for_mostro form)) app = record app {
  order_form_draft = draft_after r form app.order_form_draft;
  mode = UiMode.operation_result r;
}
show_result r (UiMode.new_message_notification n a st) app =
    if is_invoice_action a then stash r app else set_mode (UiMode.operation_result r) app
show_result r (UiMode.confirm_saved_ln_address_for_invoice n b) app = stash r app
show_result r mode app = set_mode (UiMode.operation_result r) app

-- After `normalize`.
unfoldable pub apply_result : Host → OperationResult → App → App
unfolding record_success require_payment show_result
apply_result h (OperationResult.open_invoice_popup n msg) app =
    apply_open_invoice_popup_from_execute h n msg app
apply_result h (OperationResult.payment_request_required o invoice sats index header a) app =
    require_payment h.now o invoice sats index header a app
apply_result h (OperationResult.success os) app =
    show_result (OperationResult.success os) app.mode
      (track os.order_id os.trade_index (record_success h os app))
apply_result h (OperationResult.observer_chat_loaded generation messages) app =
    if generation == app.observer_fetch_generation then load_observer messages app else app
apply_result h (OperationResult.observer_chat_error generation message) app =
    if generation == app.observer_fetch_generation then fail_observer message app else app
apply_result h r app = show_result r app.mode app

unfoldable pub handle_operation_result : Host → OperationResult → App → App
unfolding normalize apply_result
handle_operation_result h r app = let n = normalize r app in apply_result h n.0 n.1
