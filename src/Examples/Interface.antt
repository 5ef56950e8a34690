-- ===== src/Examples/Interface.antt =====
-- ui/key_handler, dm_utils/order_ch_mng.rs and ui/helpers on concrete inputs.
use mostrix.Prelude.{
  pos, negsuc, ◌<◌, ◌-◌, ◌≡◌, ◌≢◌, ◌⊎◌, refl, min, String, true, false, not, none, some, List, [],
  ◌∷◌, length, any, lookup, parse_i64, arith, if◌then◌else◌,
}
use mostrix.Protocol.{Status, Action}
use mostrix.Messages.{MessageNotification}
use mostrix.Messages.Popup.{
  invoice_popup_allowed_for_order_status, local_user_must_act_on_invoice_popup,
}
use mostrix.Disputes.{DisputeStatus, DisputeText, Dispute}
use mostrix.Dm.{is_row_of}
use mostrix.Ui.UserTab.{UserTab}
use mostrix.Ui.Tabs.{UserRole, Tab}
use mostrix.Ui.Form.{FormState, new_default_form}
use mostrix.Ui.Mode.{
  UiMode, UserMode, OperationResult, OrderSuccess, OrderChatStaticHeader, MessageViewState,
  ViewingMessageButtonSelection,
}
use mostrix.Ui.App.{App, new_app, set_mode, begin_observer_fetch, clear_observer_secrets}
use mostrix.Ui.Host.{Host}
use mostrix.Ui.Task.{Task, Step, quiet}
use mostrix.Ui.Key.{KeyCode, KeyEvent}
use mostrix.Ui.Keyboard.{handle_key_event}
use mostrix.Ui.Placed.{IsPlaced}
use mostrix.Ui.PopupKeys.{press_horizontal}
use mostrix.Ui.TradeKeys.{TradeKey, press_trade_key}
use mostrix.Ui.Sidebar.{build_active_order_chat_list}
use mostrix.Ui.Selection.{
  order_passes_currency_filter, display_idx, has_dispute_id, saturating_add_signed,
  get_initiated_disputes, move_pending_dispute_selection,
}
use mostrix.Ui.Selection.Visible.{moved_row_highlighted}
use mostrix.Ui.Invoice.{check_if_popup_should_be_shown, invoice_state, mark_shown}
use mostrix.Ui.Results.{
  handle_operation_result, normalize, is_one_of, remove_many_orders_from_messages_tab,
}
use mostrix.Ui.Results.Forget.{deleted_forgotten}
use mostrix.Ui.Esc.{handle_esc_key}
use mostrix.Ui.Enter.{handle_enter_key}
use mostrix.Ui.Enter.Normal.{is_my_pending_book_order}
use mostrix.Ui.Session.{Turn, Reaches}
use mostrix.Ui.Session.Roles.{reached-IsPlaced}
use mostrix.Ui.Session.Draft.{editing, sending, draft_roundtrip, submission_keeps_draft}
use mostrix.Ui.Session.Popups.{asking, popup_survives, popup_once}
use mostrix.Ui.Session.Guards.{IsQuiet, viewing, no_sends_nothing, repeated_press_quiet}
use mostrix.Ui.Session.Observer.{stale_fetch_ignored}
use mostrix.Samples.{sample_order, sample_order_message}

parse_i64_test : (parse_i64 "-120" ≡ some (negsuc 119)) × (parse_i64 "10.5" ≡ none)
unfolding parse_i64
parse_i64_test = (refl, refl)

abbrev status_text : DisputeStatus → String
status_text DisputeStatus.initiated = "initiated"
status_text DisputeStatus.in_progress = "in-progress"
status_text DisputeStatus.settled = "settled"
status_text DisputeStatus.seller_refunded = "seller-refunded"
status_text DisputeStatus.released = "released"

-- Every text reads as a waiting dispute.
abbrev all_waiting : DisputeText
all_waiting = record { to_text = status_text; of_text = λ s. some DisputeStatus.initiated }

abbrev pub host : Host
host = record {
  orders = sample_order Status.pending ∷ [];
  disputes = [];
  bonds_enabled = false;
  accepted_currencies = [];
  ln_address = some "alice@example.com";
  now = 100;
  clipboard = none;
  local_time = λ t. some "today";
  copies = λ s. true;
  to_uppercase = λ s. s;
  to_lowercase = λ s. s;
  dispute_text = all_waiting;
  parse_pubkey = λ s. some 9;
  npub_to_hex = λ s. some "key";
  hex_to_hex = λ s. none;
  is_nsec = λ s. true;
  hex_seckey_to_nsec = λ s. none;
  is_ln_address = λ s. true;
  is_shared_hex = λ s. true;
  parse_keys = λ s. some 4;
  settings_error = "no file";
  new_keys_error = none;
  admin_key_error = none;
  admin_attachment_key = λ k s. none;
  observer_attachment_key = λ s. none;
  picker_error = none;
  picked_file = none;
  saves_chat = true;
}

abbrev pub start : App
start = new_app UserRole.user

abbrev form : FormState
form = record new_default_form { fiat_amount = "50"; payment_method = "SEPA" }

-- Enter on the order book, then NO.
abbrev taking : App
taking = (handle_enter_key host start).app

taking_test : (handle_enter_key host start).goes_on ≡ true
unfolding handle_enter_key
taking_test = refl

abbrev pub key : KeyCode → KeyEvent
key code = record { code = code; shift = false; control = false }

abbrev press : KeyCode → App → Step
press code app = handle_key_event host (λ t. t) (key code) app

-- Enter on the order book, then Right.
abbrev declined : App
declined = (press KeyCode.right (press KeyCode.enter start).app).app

press_test :
    ((press KeyCode.enter start).goes_on ≡ true)
    × ((press KeyCode.right (press KeyCode.enter start).app).goes_on ≡ true)
unfolding handle_key_event display_idx order_passes_currency_filter is_my_pending_book_order lookup
press_test = (refl, refl)

abbrev journey : Reaches start declined
journey =
    Reaches.next
      (Reaches.next Reaches.here (Turn.key host (λ t. t) start (key KeyCode.enter) press_test.0))
      (Turn.key host (λ t. t) (press KeyCode.enter start).app (key KeyCode.right) press_test.1)

reached-IsPlaced_example : IsPlaced declined
reached-IsPlaced_example = reached-IsPlaced UserRole.user journey

draft_roundtrip_example :
    let away = press_horizontal host true (editing form start) in
    let back = press_horizontal host (not true) away in
    (away.order_form_draft ≡ some form)
    × (away.mode ≡ UiMode.user_mode UserMode.normal)
    × (back.active_tab ≡ Tab.user UserTab.create_new_order)
    × (back.mode ≡ UiMode.user_mode (UserMode.creating_order form))
    × (back.order_form_draft ≡ none)
draft_roundtrip_example = draft_roundtrip host true form start

abbrev success : OrderSuccess
success = record {
  order_id = some 1;
  kind = none;
  amount = pos 1000;
  fiat_code = "EUR";
  fiat_amount = pos 50;
  min_amount = none;
  max_amount = none;
  payment_method = "SEPA";
  premium = pos 0;
  status = some Status.pending;
  trade_index = some (pos 3);
  static_header = none;
}

abbrev header : OrderChatStaticHeader
header = record {
  order_id = 1;
  kind = none;
  created_at = none;
  trade_index = pos 3;
  initiator_trade_pubkey = "key";
  is_mine = true;
  solver_pubkey = none;
  dispute_id = none;
}

submission_keeps_draft_example :
    let sent = handle_enter_key host (sending form start) in
    let asked =
      OperationResult.payment_request_required
        (sample_order Status.pending)
        "lnbc1"
        none
        (pos 3)
        header
        Action.pay_bond_invoice in
    (sent.tasks ≡ Task.send_new_order form ∷ [])
    × (sent.app.order_form_draft ≡ some form)
    × ((handle_operation_result host (OperationResult.error "timeout") sent.app).order_form_draft
        ≡ some form)
    × ((handle_operation_result host (OperationResult.success success) sent.app).order_form_draft
        ≡ none)
    × ((handle_operation_result host asked sent.app).order_form_draft ≡ none)
submission_keeps_draft_example =
    submission_keeps_draft host form start "timeout" "lnbc1" success (sample_order Status.pending)
      none (pos 3) header Action.pay_bond_invoice

abbrev invoice_notification : MessageNotification
invoice_notification = record {
  order_id = some 1;
  message_preview = "Invoice Request";
  timestamp = 50;
  action = Action.add_invoice;
  sat_amount = none;
  invoice = none;
  body = none;
  maker_bond_publish = false;
  solver_pubkey = none;
  dispute_id = none;
}

abbrev closed : OperationResult
closed = OperationResult.trade_closed 7 "Cooperative cancel completed."

popup_survives_example :
    let before = asking invoice_notification Action.add_invoice (invoice_state "" true) start in
    let after = handle_operation_result host closed before in
    let dismissed = (handle_esc_key after).0 in
    (after.mode
      ≡ UiMode.new_message_notification invoice_notification Action.add_invoice
          (invoice_state "" true))
    × (dismissed.mode ≡ UiMode.operation_result (normalize closed before).0)
    × (dismissed.pending_post_take_operation_result ≡ none)
popup_survives_example =
    popup_survives host closed invoice_notification Action.add_invoice (invoice_state "" true) start
      refl refl

abbrev with_row : App
with_row = record start {
  messages = sample_order_message Action.add_invoice 50 (some Status.waiting_buyer_invoice) ∷ [];
}

abbrev row_shown : App
row_shown = record with_row { messages = mark_shown 1 with_row.messages }

first_popup : check_if_popup_should_be_shown invoice_notification with_row ≡ some (row_shown, true)
unfolding check_if_popup_should_be_shown lookup invoice_popup_allowed_for_order_status
    local_user_must_act_on_invoice_popup
first_popup = refl

-- The user has dismissed the popup, and a bond invoice is asked for.
abbrev dismissed_later : App
dismissed_later = set_mode (UiMode.user_mode UserMode.normal) row_shown

abbrev bond_notification : MessageNotification
bond_notification = record invoice_notification { action = Action.add_bond_invoice }

popup_once_example :
    check_if_popup_should_be_shown bond_notification dismissed_later ≡ some (dismissed_later, false)
popup_once_example =
    popup_once invoice_notification bond_notification 1 with_row row_shown dismissed_later refl refl
      first_popup refl

abbrev refusing : App
refusing = set_mode (UiMode.confirm_bulk_delete_history false) start

no_sends_nothing_example : IsQuiet (handle_enter_key host refusing)
no_sends_nothing_example = no_sends_nothing host refusing refl

abbrev view : MessageViewState
view = record {
  message_content = "Release sats for this order?";
  order_id = some 1;
  action = Action.release;
  button_selection = ViewingMessageButtonSelection.two true;
}

release_sent : (handle_enter_key host (viewing view start)).tasks ≢ []
unfolding handle_enter_key
release_sent q = cc

repeated_press_quiet_example :
    let answered = (handle_enter_key host (viewing view start)).app in
    (handle_enter_key host answered ≡ quiet answered)
    × (press_trade_key TradeKey.release answered ≡ none)
repeated_press_quiet_example =
    repeated_press_quiet host view 1 TradeKey.release start refl release_sent refl

stale_fetch_ignored_example :
    let fetching = begin_observer_fetch start in
    let g = fetching.observer_fetch_generation in
    let cleared = clear_observer_secrets fetching in
    let again = begin_observer_fetch fetching in
    let loaded = OperationResult.observer_chat_loaded g [] in
    let failed = OperationResult.observer_chat_error g "timeout" in
    (handle_operation_result host loaded cleared ≡ cleared)
    × (handle_operation_result host failed cleared ≡ cleared)
    × (handle_operation_result host loaded again ≡ again)
    × (handle_operation_result host failed again ≡ again)
stale_fetch_ignored_example = stale_fetch_ignored host start [] "timeout" (omega arith)

deleted_forgotten_example :
    let after = remove_many_orders_from_messages_tab (1 ∷ []) with_row in
    let rows = build_active_order_chat_list after.messages after.my_trades_maker_book in
    let gone = is_one_of (1 ∷ []) 1 in
    (lookup 1 after.active_order_trade_indices
      ≡ (if gone then none else lookup 1 with_row.active_order_trade_indices))
    × (lookup 1 after.buyer_invoice_preference
        ≡ (if gone then none else lookup 1 with_row.buyer_invoice_preference))
    × (lookup 1 after.order_chats ≡ (if gone then none else lookup 1 with_row.order_chats))
    × (lookup 1 after.order_chat_last_seen
        ≡ (if gone then none else lookup 1 with_row.order_chat_last_seen))
    × (lookup 1 after.order_chat_static
        ≡ (if gone then none else lookup 1 with_row.order_chat_static))
    × (gone ≡ true → any (is_row_of 1) after.messages ≡ false)
    × ((length rows ≡ 0) ⊎ (after.selected_order_chat_idx < length rows))
deleted_forgotten_example = deleted_forgotten (1 ∷ []) 1 with_row

abbrev waiting_disputes : List Dispute
waiting_disputes =
    record { id = 4; status = "initiated" } ∷ record { id = 6; status = "initiated" } ∷ []

moved_row_highlighted_example :
    let rows = get_initiated_disputes all_waiting waiting_disputes in
    let k' = min (saturating_add_signed 0 (pos 1)) (length rows - 1) in
    let after = move_pending_dispute_selection all_waiting start waiting_disputes (pos 1) in
    (k' < length rows)
    × (display_idx has_dispute_id after.selected_pending_dispute_id rows ≡ some k')
unfolding display_idx
moved_row_highlighted_example =
    moved_row_highlighted all_waiting start waiting_disputes (pos 1) 0 (refl, (refl, tt)) refl
