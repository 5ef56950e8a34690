-- ===== src/Ui/Invoice.antt =====
-- util/dm_utils/notifications_ch_mng.rs: the invoice popups, opened by a notification or by a reply.
pub mod Placed
use mostrix.Prelude.{
  ℕ, String, Bool, true, false, not, ◌&&◌, ◌||◌, Option, none, some, List, [], ◌∷◌, ◌++◌, any, find,
  is_some, is_some_and, or, and_then, unwrap_or, lookup, insert, leb, ◌==◌, if◌then◌else◌, is_empty,
  trim,
}
use mostrix.Protocol.{Uuid, Status, Action}
use mostrix.Messages.{OrderMessage, MessageNotification}
use mostrix.Messages.Popup.{
  invoice_popup_allowed_for_order_status, local_user_must_act_on_invoice_popup,
}
use mostrix.Messages.Notification.{
  order_message_to_notification, order_message_to_waiting_notification,
}
use mostrix.Dm.{is_row_of, sort_rows}
use mostrix.Ui.Host.{Host}
use mostrix.Ui.Mode.{
  UiMode, InvoiceInputState, InvoiceNotificationActionSelection, BuyerInvoicePreference,
  OrderChatStaticHeader,
}
use mostrix.Ui.App.{App, set_mode}

abbrev pub invoice_state : String → Bool → InvoiceInputState
invoice_state input focused = record {
  invoice_input = input;
  focused = focused;
  just_pasted = false;
  copied_to_clipboard = false;
  scroll_y = 0;
  action_selection = InvoiceNotificationActionSelection.primary;
}

-- `load_settings_from_disk().ok().map(trim).filter(non-empty)` of the saved Lightning address.
abbrev pub saved_address : Option String → Option String
saved_address none = none
saved_address (some s) = if is_empty (trim s) then none else some (trim s)

abbrev pub add_invoice_popup : MessageNotification → String → UiMode
add_invoice_popup n input =
    UiMode.new_message_notification n Action.add_invoice (invoice_state input true)

preferred : MessageNotification → String → Option BuyerInvoicePreference → UiMode
preferred n addr (some BuyerInvoicePreference.manual_invoice) = add_invoice_popup n ""
preferred n addr (some BuyerInvoicePreference.use_saved_ln_address) = add_invoice_popup n addr
preferred n addr none = UiMode.confirm_saved_ln_address_for_invoice n true

-- `ln_address` is what the settings file holds, `none` where it cannot be read.
unfoldable pub present_add_invoice_popup :
    Option String → List (Uuid × BuyerInvoicePreference) → MessageNotification → UiMode
unfolding preferred
present_add_invoice_popup ln_address preferences n = elim (saved_address ln_address) [
  | none ↦ add_invoice_popup n ""
  | some addr ↦ preferred n addr (and_then n.order_id (λ i. lookup i preferences))
]

abbrev preferring : Uuid → BuyerInvoicePreference → App → App
preferring i p app = record app {
  buyer_invoice_preference = insert i p app.buyer_invoice_preference;
}

remember_choice : Option Uuid → Option String → Bool → App → App
remember_choice none addr use_saved app = app
remember_choice (some i) none true app = app
remember_choice (some i) (some addr) true app =
    preferring i BuyerInvoicePreference.use_saved_ln_address app
remember_choice (some i) addr false app = preferring i BuyerInvoicePreference.manual_invoice app

unfoldable pub apply_saved_ln_address_invoice_choice : Host → MessageNotification → Bool → App → App
unfolding remember_choice
apply_saved_ln_address_invoice_choice h n use_saved app =
    let addr = saved_address h.ln_address in
    set_mode (add_invoice_popup n (if use_saved then unwrap_or addr "" else ""))
      (remember_choice n.order_id addr use_saved app)

-- Other actions are unreachable here.
abbrev pub invoice_popup_mode :
    Option String → List (Uuid × BuyerInvoicePreference) → MessageNotification → Action → UiMode
invoice_popup_mode ln preferences n Action.add_invoice = present_add_invoice_popup ln preferences n
invoice_popup_mode ln preferences n Action.add_bond_invoice =
    UiMode.new_message_notification n Action.add_bond_invoice (invoice_state "" true)
invoice_popup_mode ln preferences n a = UiMode.new_message_notification n a (invoice_state "" false)

-- `iter_mut().find(…)`: the first row of the order has been shown.
unfoldable pub mark_shown : Uuid → List OrderMessage → List OrderMessage
mark_shown i [] = []
mark_shown i (m ∷ ms) =
    let rest = mark_shown i ms in
    if is_row_of i m then record m { auto_popup_shown = true } ∷ ms else m ∷ rest

abbrev remembered : Uuid → OrderMessage → List OrderMessage → List OrderMessage
remembered i msg rows =
    if any (is_row_of i) rows
    then mark_shown i rows
    else sort_rows (rows ++ record msg { auto_popup_shown = true } ∷ [])

abbrev pub remember_open_invoice_order_message : OrderMessage → App → App
remember_open_invoice_order_message msg app = elim msg.order_id [
  | none ↦ app
  | some i ↦ record app { messages = remembered i msg app.messages }
]

abbrev is_waiting : Action → Bool
is_waiting Action.waiting_buyer_invoice = true
is_waiting Action.waiting_seller_to_pay = true
is_waiting _ = false

abbrev gate_action : Action → Action
gate_action a = if is_waiting a then Action.add_invoice else a

abbrev actionable : Host → MessageNotification → OrderMessage → MessageNotification
actionable h n msg =
    if is_waiting n.action
    then record (order_message_to_notification h.local_time msg) { action = Action.add_invoice }
    else n

unfoldable pub apply_open_invoice_popup_from_execute :
    Host → MessageNotification → OrderMessage → App → App
apply_open_invoice_popup_from_execute h n msg app =
    let app' = remember_open_invoice_order_message msg app in
    let gate = gate_action n.action in
    let acting = actionable h n msg in
    let waiting = order_message_to_waiting_notification h.local_time msg in
    if not (invoice_popup_allowed_for_order_status gate msg.order_status)
    then app'
    else if local_user_must_act_on_invoice_popup msg gate
    then set_mode
        (invoice_popup_mode h.ln_address app'.buyer_invoice_preference acting acting.action) app'
    else set_mode (UiMode.new_message_notification waiting waiting.action (invoice_state "" false))
        app'

-- Whether a popup is shown, and the rows afterwards; `none` is the panic of a missing row.
abbrev pub is_historical : MessageNotification → App → Bool
is_historical n app =
    is_some_and n.order_id
      (λ i. is_some_and (lookup i app.startup_popup_floor_ts) (λ floor. leb n.timestamp floor))

unfoldable pub check_row : MessageNotification → Uuid → App → OrderMessage → App × Bool
check_row n i app m =
    if invoice_popup_allowed_for_order_status n.action m.order_status
      && local_user_must_act_on_invoice_popup m n.action
      && not m.auto_popup_shown
    then (record app { messages = mark_shown i app.messages }, true)
    else (app, false)

unfoldable pub check_if_popup_should_be_shown : MessageNotification → App → Option (App × Bool)
unfolding check_row
check_if_popup_should_be_shown n app =
    if is_historical n app then some (app, false) else elim n.order_id [
      | none ↦ some (app, true)
      | some i ↦ elim (find (is_row_of i) app.messages) [
        | none ↦ none
        | some m ↦ some (check_row n i app m)
      ]
    ]

abbrev named : MessageNotification → OrderChatStaticHeader → OrderChatStaticHeader
named n h = record h {
  solver_pubkey = or n.solver_pubkey h.solver_pubkey;
  dispute_id = or n.dispute_id h.dispute_id;
}

hydrate_header : MessageNotification → App → App
hydrate_header n app = elim n.order_id [
  | none ↦ app
  | some i ↦ elim (lookup i app.order_chat_static) [
    | none ↦ app
    | some h ↦ record app { order_chat_static = insert i (named n h) app.order_chat_static }
  ]
]

abbrev pub is_invoice_action : Action → Bool
is_invoice_action Action.pay_invoice = true
is_invoice_action Action.pay_bond_invoice = true
is_invoice_action Action.add_invoice = true
is_invoice_action Action.add_bond_invoice = true
is_invoice_action _ = false

show_popup : Option String → MessageNotification → App × Bool → App
show_popup ln n (app, shown) =
    if shown
    then set_mode (invoice_popup_mode ln app.buyer_invoice_preference n n.action) app
    else app

-- `none` is the panic of a notification whose row is missing.
unfoldable pub handle_message_notification : Host → MessageNotification → App → Option App
unfolding hydrate_header show_popup check_if_popup_should_be_shown
handle_message_notification h n app =
    let app' = hydrate_header n app in
    if is_invoice_action n.action
    then elim (check_if_popup_should_be_shown n app') [
      | none ↦ none
      | some r ↦ some (show_popup h.ln_address n r)
    ]
    else some app'
