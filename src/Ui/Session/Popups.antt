-- ===== src/Ui/Session/Popups.antt =====
-- notifications_ch_mng.rs, order_ch_mng.rs and esc_handlers.rs: the popups that ask for an invoice.
use mathlib.Core.Option
use mostrix.Prelude.{
  ℤ, arith, ◌≡◌, refl, ◌∙◌, ap, Bool, true, false, not, ◌&&◌, Option, none, some, List, [], ◌∷◌,
  any, find, subst, OnSome, is_some_and, Bool-cases, inl, inr, if_lem, option_lem,
}
use mostrix.Protocol.{Uuid, Action}
use mostrix.Messages.{OrderMessage, MessageNotification}
use mostrix.Messages.Popup.{
  invoice_popup_allowed_for_order_status, local_user_must_act_on_invoice_popup,
}
use mostrix.Dm.{is_row_of}
use mostrix.Ui.Mode.{UiMode, InvoiceInputState, OperationResult, OrderSuccess}
use mostrix.Ui.App.{App}
use mostrix.Ui.Host.{Host}
use mostrix.Ui.Esc.{handle_esc_key}
use mostrix.Ui.Invoice.{
  is_invoice_action, mark_shown, check_if_popup_should_be_shown, is_historical, check_row,
}
use mostrix.Ui.Placeholder.{try_placeholder_order_message_from_success}
use mostrix.Ui.Results.{
  handle_operation_result, normalize, apply_result, show_result, record_success, put_header, track,
  maybe_insert_my_trade_placeholder_message,
}

-- The results that only report; the others open a popup themselves or belong to the observer.
abbrev pub reports : OperationResult → Bool
reports (OperationResult.payment_request_required o s sats k header a) = false
reports (OperationResult.open_invoice_popup n m) = false
reports (OperationResult.observer_chat_loaded g ms) = false
reports (OperationResult.observer_chat_error g m) = false
reports _ = true

-- A state in which a popup asks for an invoice or a payment.
abbrev pub asking : MessageNotification → Action → InvoiceInputState → App → App
asking n a st app = record app { mode = UiMode.new_message_notification n a st }

track_mode : (i : Option Uuid) (k : Option ℤ) (app : App) → (track i k app).mode ≡ app.mode
track_mode (some i) (some k) app = refl
track_mode (some i) none app = refl
track_mode none k app = refl

record_success_mode :
    (h : Host) (os : OrderSuccess) (app : App) → (record_success h os app).mode ≡ app.mode
unfolding record_success maybe_insert_my_trade_placeholder_message
record_success_mode h os app =
    let app' : App = elim os.static_header [ none ↦ app | some header ↦ put_header header app ] in
    let e =
      option_lem {B = App} (λ a. a.mode ≡ app.mode) os.static_header (λ q. refl)
        (λ header q. refl) in
    option_lem {B = App} (λ a. a.mode ≡ app.mode) (try_placeholder_order_message_from_success h os)
      (λ q. e)
      (λ row q.
        if_lem {A = App} (λ a. a.mode ≡ app.mode)
          (any (λ m. is_some_and row.order_id (λ i. is_row_of i m)) app'.messages) (λ q'. e)
          (λ q'. e))

-- The popup stays and the result waits.
abbrev Waits : OperationResult → UiMode → App → Type 0
Waits r m app = (app.mode ≡ m) × (app.pending_post_take_operation_result ≡ some r)

show_result-Waits :
    (r : OperationResult) (n : MessageNotification) (a : Action) (st : InvoiceInputState)
    (app : App)
    → is_invoice_action a ≡ true
    → app.mode ≡ UiMode.new_message_notification n a st
    → Waits r
        (UiMode.new_message_notification n a st)
        (show_result r (UiMode.new_message_notification n a st) app)
unfolding show_result
show_result-Waits r n a st app q m = rw q (m, refl)

handle_operation_result-Waits :
    (h : Host) (r : OperationResult) (n : MessageNotification) (a : Action) (st : InvoiceInputState)
    (app : App)
    → is_invoice_action a ≡ true
    → reports r ≡ true
    → Waits
        (normalize r (asking n a st app)).0
        (UiMode.new_message_notification n a st)
        (handle_operation_result h r (asking n a st app))
unfolding handle_operation_result normalize apply_result
handle_operation_result-Waits h (OperationResult.success os) n a st app q w =
    let before = asking n a st app in
    let there = record_success h os before in
    show_result-Waits (OperationResult.success os) n a st (track os.order_id os.trade_index there) q
      (track_mode os.order_id os.trade_index there ∙ record_success_mode h os before)
handle_operation_result-Waits h (OperationResult.payment_request_required o s sats k header c) n a
      st app q w =
    cc
handle_operation_result-Waits h (OperationResult.open_invoice_popup m c) n a st app q w = cc
handle_operation_result-Waits h (OperationResult.observer_chat_loaded g ms) n a st app q w = cc
handle_operation_result-Waits h (OperationResult.observer_chat_error g m) n a st app q w = cc
handle_operation_result-Waits h (OperationResult.invoice_submitted m none) n a st app q w =
    show_result-Waits (OperationResult.info m) n a st (asking n a st app) q refl
handle_operation_result-Waits h (OperationResult.invoice_submitted m (some i)) n a st app q w =
    let r = normalize (OperationResult.invoice_submitted m (some i)) (asking n a st app) in
    show_result-Waits (OperationResult.info m) n a st r.1 q refl
handle_operation_result-Waits h r n a st app q w =
    show_result-Waits (normalize r (asking n a st app)).0 n a st (normalize r (asking n a st app)).1
      q refl

esc_shows :
    (n : MessageNotification) (a : Action) (st : InvoiceInputState) (r : OperationResult)
    (app : App)
    → Waits r (UiMode.new_message_notification n a st) app
    → ((handle_esc_key app).0.mode ≡ UiMode.operation_result r)
      × ((handle_esc_key app).0.pending_post_take_operation_result ≡ none)
unfolding handle_esc_key
esc_shows n a st r app w = rw w.0 (rw w.1 (refl, refl))

-- A popup that asks for an invoice or a payment is not replaced by a result that only reports: the popup
-- stays, Esc then shows the result, and nothing waits any more.
pub popup_survives :
    (h : Host) (r : OperationResult) (n : MessageNotification) (a : Action) (st : InvoiceInputState)
    (app : App)
    → is_invoice_action a ≡ true
    → reports r ≡ true
    → let after = handle_operation_result h r (asking n a st app) in
      let dismissed = (handle_esc_key after).0 in
      (after.mode ≡ UiMode.new_message_notification n a st)
      × (dismissed.mode ≡ UiMode.operation_result (normalize r (asking n a st app)).0)
      × (dismissed.pending_post_take_operation_result ≡ none)
popup_survives h r n a st app q w =
    let after = handle_operation_result h r (asking n a st app) in
    let k = handle_operation_result-Waits h r n a st app q w in
    let e = esc_shows n a st (normalize r (asking n a st app)).0 after k in (k.0, e.0, e.1)

abbrev shown : OrderMessage → OrderMessage
shown m = record m { auto_popup_shown = true }

find-mark_shown :
    (i : Uuid) (ms : List OrderMessage)
    → find (is_row_of i) (mark_shown i ms) ≡ Option.map shown (find (is_row_of i) ms)
unfolding mark_shown
find-mark_shown i [] = refl
find-mark_shown i (x ∷ ms) = elim (Bool-cases (is_row_of i x)) [
  | inl e ↦ ground (arith, e)
  | inr e ↦ ground (arith, e, find-mark_shown i ms)
]

shown_row_refused :
    (n : MessageNotification) (i : Uuid) (app : App) (m : OrderMessage)
    → check_row n i app (shown m) ≡ (app, false)
unfolding check_row
shown_row_refused n i app m = ground arith

-- Rows on which no notification of the order lets a popup open.
abbrev Refused : Uuid → List OrderMessage → Type 0
Refused i rows =
    (n : MessageNotification) (app : App)
    → n.order_id ≡ some i
    → app.messages ≡ rows
    → check_if_popup_should_be_shown n app ≡ some (app, false)

mark_shown-Refused :
    (i : Uuid) (rows : List OrderMessage) (m : OrderMessage)
    → find (is_row_of i) rows ≡ some m
    → Refused i (mark_shown i rows)
unfolding check_if_popup_should_be_shown
mark_shown-Refused i rows m f n app o e =
    let g : find (is_row_of i) app.messages ≡ some (shown m) =
      ap (find (is_row_of i)) e ∙ (find-mark_shown i rows ∙ ap (Option.map shown) f) in
    if_lem (λ x. x ≡ some (app, false)) (is_historical n app) (λ q. refl)
      (λ q. rw (o, g) (ap some (shown_row_refused n i app m)))

-- A decision to show the popup is the last one for its order.
abbrev Last : Uuid → App × Bool → Type 0
Last i r = r.1 ≡ true → Refused i r.0.messages

check_row-Last :
    (n : MessageNotification) (i : Uuid) (app : App) (m : OrderMessage)
    → find (is_row_of i) app.messages ≡ some m
    → Last i (check_row n i app m)
unfolding check_row
check_row-Last n i app m f =
    if_lem {A = App × Bool} (Last i)
      (invoice_popup_allowed_for_order_status n.action m.order_status
        && local_user_must_act_on_invoice_popup m n.action
        && not m.auto_popup_shown)
      (λ q w. mark_shown-Refused i app.messages m f) (λ q w. cc)

check_if_popup_should_be_shown-Last :
    (n : MessageNotification) (i : Uuid) (app : App)
    → n.order_id ≡ some i
    → OnSome (Last i) (check_if_popup_should_be_shown n app)
unfolding check_if_popup_should_be_shown
check_if_popup_should_be_shown-Last n i app o =
    if_lem (OnSome (Last i)) (is_historical n app) (λ e w. cc)
      (λ e. rw o (
        option_lem (OnSome (Last i)) (find (is_row_of i) app.messages) (λ f. tt)
          (λ m f. check_row-Last n i app m f)))

-- Where a notification of an order is let to open its popup, no notification of that order, of whatever
-- action, is let to open one in any later state with the Messages rows that the check left, and checking it
-- changes nothing.
pub popup_once :
    (n n' : MessageNotification) (i : Uuid) (app app' later : App)
    → n.order_id ≡ some i
    → n'.order_id ≡ some i
    → check_if_popup_should_be_shown n app ≡ some (app', true)
    → later.messages ≡ app'.messages
    → check_if_popup_should_be_shown n' later ≡ some (later, false)
popup_once n n' i app app' later o o' q e =
    subst (OnSome (Last i)) q (check_if_popup_should_be_shown-Last n i app o) refl n' later o' e
