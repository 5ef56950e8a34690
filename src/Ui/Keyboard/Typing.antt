-- ===== src/Ui/Keyboard/Typing.antt =====
-- key_handler/mod.rs: the texts that are typed, and the keys of the dispute and the My Trades tabs.
pub mod Placed
use mathlib.Core.Option
use Prim.Native.Char.{Char}
use mostrix.Prelude.{
  ℕ, ◌-◌, String, Bool, true, false, not, ◌&&◌, ◌||◌, Option, none, some, [], ◌∷◌, and_then, push,
  pop, ◌==◌, if◌then◌else◌,
}
use mostrix.Protocol.{Uuid, Status, Action}
use mostrix.Bond.{BondSlashChoice}
use mostrix.Disputes.{AdminDispute}
use mostrix.Ui.Form.{FormState}
use mostrix.Ui.Mode.{
  UiMode, UserMode, AdminMode, OperationResult, AddSolverState, KeyInputState, InvoiceInputState,
  DisputeFilter, user_my_trades_interactive,
}
use mostrix.Ui.App.{App, set_mode}
use mostrix.Ui.Host.{Host}
use mostrix.Ui.Task.{Task, Step, doing}
use mostrix.Ui.TabSwitch.{is_disputes_in_progress, is_managing_dispute}
use mostrix.Ui.Selection.{selected_filtered_dispute}
use mostrix.Ui.Enter.Chat.{get_dispute_visible_message_count}
use mostrix.Ui.TradeKeys.{
  TradeKey, press_trade_key, press_delete, resolve_selected_mytrades_order_status,
}
use mostrix.Ui.Enter.Dispute.{show}
use mostrix.Ui.Key.{KeyCode, KeyEvent, either_of, shifted}
use mostrix.Ui.TextInput.{handle_invoice_input, handle_key_input}
use mostrix.Ui.FormInput.{picker_key}
use mostrix.Ui.Keyboard.Flow.{KeyFlow, handled, or_pass, in_mode}
use mostrix.Ui.Keyboard.Overlays.{is_pay, is_add, observer_inputs_editable}
use mostrix.Ui.Keyboard.Attachments.{is_my_trades}

-- The key ends here, or goes on with the changed mode.
abbrev ends_or_passes : App → UiMode × Bool → KeyFlow
ends_or_passes app (mode, true) = handled (set_mode mode app)
ends_or_passes app (mode, false) = KeyFlow.pass (set_mode mode app)

invoice_in : KeyCode → UiMode → UiMode × Bool
unfolding handle_invoice_input
invoice_in k (UiMode.new_message_notification n a st) =
    let r = handle_invoice_input k st in
    if is_add a && st.focused
    then (UiMode.new_message_notification n a r.0, r.1)
    else (UiMode.new_message_notification n a st, false)
invoice_in k mode = (mode, false)

unfoldable pub type_invoice : KeyEvent → App → KeyFlow
unfolding invoice_in
type_invoice e app = ends_or_passes app (invoice_in e.code app.mode)

abbrev key_text : KeyCode → (KeyInputState → UiMode) → KeyInputState → UiMode × Bool
key_text k popup st =
    let r = handle_key_input k st in if st.focused then (popup r.0, r.1) else (popup st, false)

key_in : KeyCode → UiMode → UiMode × Bool
unfolding handle_key_input
key_in k (UiMode.add_mostro_pubkey st) = key_text k UiMode.add_mostro_pubkey st
key_in k (UiMode.add_relay st) = key_text k UiMode.add_relay st
key_in k (UiMode.add_ln_address st) = key_text k UiMode.add_ln_address st
key_in k (UiMode.add_currency st) = key_text k UiMode.add_currency st
key_in k (UiMode.admin_mode (AdminMode.setup_admin_key st)) =
    key_text k (λ s. UiMode.admin_mode (AdminMode.setup_admin_key s)) st
key_in k (UiMode.admin_mode (AdminMode.add_solver st)) =
    key_text k (λ s. UiMode.admin_mode (AdminMode.add_solver (record st { key_input = s })))
      st.key_input
key_in k mode = (mode, false)

-- The popups of Settings and of the admin's keys.
unfoldable pub type_key : KeyEvent → App → KeyFlow
unfolding key_in
type_key e app = ends_or_passes app (key_in e.code app.mode)

-- The sign that a text was copied goes with any key but `c`; the shown key's sign with Ctrl+C too.
unfoldable pub uncopied : KeyEvent → UiMode → UiMode
uncopied e (UiMode.new_message_notification n a st) =
    if is_pay a && not (either_of b'c' b'C' e.code)
    then UiMode.new_message_notification n a (record st { copied_to_clipboard = false })
    else UiMode.new_message_notification n a st
uncopied e (UiMode.operation_result (OperationResult.conversation_disclosure key copied)) =
    UiMode.operation_result (
      OperationResult.conversation_disclosure key
        (if either_of b'c' b'C' e.code && not e.control then copied else false))
uncopied e mode = mode

unfoldable pub reset_copied : KeyEvent → App → KeyFlow
unfolding uncopied
reset_copied e app = KeyFlow.pass (set_mode (uncopied e app.mode) app)

abbrev other_filter : DisputeFilter → DisputeFilter
other_filter DisputeFilter.in_progress = DisputeFilter.finalized
other_filter DisputeFilter.finalized = DisputeFilter.in_progress

abbrev reviewing : AdminDispute → UiMode
reviewing d =
    UiMode.admin_mode (AdminMode.reviewing_dispute d.dispute_id 0 BondSlashChoice.no_slash false 0)

-- Shift+F reviews the selected dispute, Shift+C changes the filter and Shift+I the input of the chat.
on_disputes : Host → KeyEvent → App → KeyFlow
on_disputes h e app =
    if shifted b'f' b'F' e
    then (if is_managing_dispute app.mode
        then in_mode app (Option.map reviewing (selected_filtered_dispute h.dispute_text app))
        else KeyFlow.pass app)
    else if shifted b'c' b'C' e
    then handled (record app {
      dispute_filter = other_filter app.dispute_filter;
      selected_dispute_id = none;
    })
    else if shifted b'i' b'I' e && is_managing_dispute app.mode
    then handled (record app { admin_chat_input_enabled = not app.admin_chat_input_enabled })
    else KeyFlow.pass app

unfoldable pub dispute_keys : Host → KeyEvent → App → KeyFlow
unfolding on_disputes
dispute_keys h e app =
    if is_disputes_in_progress app.active_tab then on_disputes h e app else KeyFlow.pass app

-- The Shift keys of My Trades but Shift+K.
abbrev trade_key_of : KeyCode → Option TradeKey
trade_key_of k =
    if either_of b'i' b'I' k
    then some TradeKey.toggle_input
    else if either_of b'h' b'H' k
    then some TradeKey.help
    else if either_of b'c' b'C' k
    then some TradeKey.cancel
    else if either_of b'f' b'F' k
    then some TradeKey.fiat_sent
    else if either_of b'r' b'R' k
    then some TradeKey.release
    else if either_of b'v' b'V' k
    then some TradeKey.rate
    else if either_of b'd' b'D' k
    then some TradeKey.dispute
    else none

-- Shift+K asks for the shared key of the selected order.
disclose : Option (Uuid × Option Status) → App → KeyFlow
disclose none app =
    handled (show (OperationResult.info "Select an order to reveal the Shared key.") app)
disclose (some s) app = KeyFlow.done (doing (Task.disclose_key s.0 ∷ []) app)

shift_trade : KeyCode → App → KeyFlow
unfolding disclose press_trade_key
shift_trade k app =
    if either_of b'k' b'K' k
    then (if user_my_trades_interactive app.mode
        then disclose (resolve_selected_mytrades_order_status app) app
        else handled app)
    else or_pass app (and_then (trade_key_of k) (λ t. press_trade_key t app))

abbrev is_delete : KeyCode → Bool
is_delete KeyCode.delete = true
is_delete _ = false

on_trades : KeyEvent → App → KeyFlow
unfolding shift_trade press_delete
on_trades e app =
    if is_delete e.code
    then or_pass app (press_delete e.control app)
    else if e.shift
    then shift_trade e.code app
    else KeyFlow.pass app

unfoldable pub trade_keys : KeyEvent → App → KeyFlow
unfolding on_trades
trade_keys e app = if is_my_trades app.active_tab then on_trades e app else KeyFlow.pass app

-- A text after a character or Backspace.
abbrev edited : KeyCode → String → Option String
edited (KeyCode.char c) s = some (push s c)
edited KeyCode.backspace s = some (pop s)
edited _ s = none

-- The chat of a dispute; Shift+F and Shift+I are no text.
unfoldable pub admin_chat_input : KeyEvent → App → KeyFlow
admin_chat_input e app =
    if is_disputes_in_progress app.active_tab
      && is_managing_dispute app.mode
      && app.admin_chat_input_enabled
      && not (shifted b'f' b'F' e || shifted b'i' b'I' e)
    then or_pass app
        (Option.map (λ s. record app { admin_chat_input = s }) (edited e.code app.admin_chat_input))
    else KeyFlow.pass app

-- The letters that Shift makes a shortcut of.
abbrev is_shortcut : KeyEvent → Bool
is_shortcut e =
    shifted b'i' b'I' e
    || shifted b'c' b'C' e
    || shifted b'f' b'F' e
    || shifted b'r' b'R' e
    || shifted b'v' b'V' e
    || shifted b'h' b'H' e

unfoldable pub user_chat_input : KeyEvent → App → KeyFlow
user_chat_input e app =
    if is_my_trades app.active_tab
      && user_my_trades_interactive app.mode
      && app.order_chat_input_enabled
      && not (is_shortcut e)
    then or_pass app
        (Option.map (λ s. record app { order_chat_input = s }) (edited e.code app.order_chat_input))
    else KeyFlow.pass app

unfoldable pub observer_input : KeyEvent → App → KeyFlow
observer_input e app =
    if observer_inputs_editable app && not e.control
    then or_pass app (
        Option.map (λ s. record app { observer_shared_key_input = s })
          (edited e.code app.observer_shared_key_input))
    else KeyFlow.pass app

abbrev form_in : FormState → UiMode
form_in form = UiMode.user_mode (UserMode.creating_order form)

picker_in : Host → KeyCode → UiMode → Option UiMode
unfolding picker_key
picker_in h k (UiMode.user_mode (UserMode.creating_order form)) =
    Option.map form_in (picker_key h.accepted_currencies k form)
picker_in h k mode = none

unfoldable pub currency_picker : Host → KeyEvent → App → KeyFlow
unfolding picker_in
currency_picker h e app = in_mode app (picker_in h e.code app.mode)

bottom : Option AdminDispute → App → App
bottom none app = app
bottom (some d) app =
    let n = get_dispute_visible_message_count app d.dispute_id in
    if n == 0 then app else record app { admin_chat_selected_message_idx = some (n - 1) }

-- End: the last visible line of a dispute's chat. In My Trades only what is drawn moves.
unfoldable pub jump_to_bottom : Host → App → App
unfolding bottom
jump_to_bottom h app =
    if is_managing_dispute app.mode && is_disputes_in_progress app.active_tab
    then bottom (selected_filtered_dispute h.dispute_text app) app
    else app
