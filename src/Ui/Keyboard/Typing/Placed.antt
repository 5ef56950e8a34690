-- ===== src/Ui/Keyboard/Typing/Placed.antt =====
-- key_handler/mod.rs: the role, the tab and the mode under typing.
use mathlib.Core.Option
use mostrix.Prelude.{
  ◌≡◌, refl, Bool, true, false, not, ◌&&◌, ◌||◌, Option, none, some, OnSome, and_then, ◌==◌, if_lem,
}
use mostrix.Protocol.{Uuid, Status}
use mostrix.Disputes.{AdminDispute}
use mostrix.Ui.Tabs.{UserRole}
use mostrix.Ui.Mode.{
  UiMode, UserMode, AdminMode, OperationResult, KeyInputState, user_my_trades_interactive,
}
use mostrix.Ui.App.{App}
use mostrix.Ui.Host.{Host}
use mostrix.Ui.TabSwitch.{is_disputes_in_progress, is_managing_dispute}
use mostrix.Ui.Selection.{selected_filtered_dispute}
use mostrix.Ui.Enter.Chat.{get_dispute_visible_message_count}
use mostrix.Ui.TradeKeys.{
  TradeKey, press_trade_key, resolve_selected_mytrades_order_status, press_delete,
}
use mostrix.Ui.TradeKeys.Placed.{press_trade_key-IsPlaced, press_delete-IsPlaced}
use mostrix.Ui.Key.{KeyCode, KeyEvent, either_of, shifted}
use mostrix.Ui.TextInput.{handle_key_input}
use mostrix.Ui.FormInput.{picker_key}
use mostrix.Ui.Placed.{IsPlaced, is_admin, disputes_tab-is_admin}
use mostrix.Ui.Keyboard.Overlays.{is_add, is_pay, observer_inputs_editable}
use mostrix.Ui.Keyboard.Attachments.{is_my_trades}
use mostrix.Ui.Keyboard.Keeping.{
  Keeps, Fit, Fits, mapped-Fits, or_pass-Keeps, in_mode-Keeps, text-Keeps,
}
use mostrix.Ui.Keyboard.Typing.{
  ends_or_passes, invoice_in, type_invoice, key_text, key_in, type_key, uncopied, reset_copied,
  reviewing, on_disputes, dispute_keys, trade_key_of, disclose, shift_trade, is_delete, on_trades,
  trade_keys, edited, admin_chat_input, is_shortcut, user_chat_input, observer_input, form_in,
  picker_in, currency_picker, bottom, jump_to_bottom,
}

ends_or_passes-Keeps :
    (app : App) (r : UiMode × Bool)
    → IsPlaced app
    → Fit app.user_role r.0
    → Keeps (ends_or_passes app r)
ends_or_passes-Keeps app (m, true) p q = (p.0, q, p.2)
ends_or_passes-Keeps app (m, false) p q = (p.0, q, p.2)

invoice_in-Fit : (r : UserRole) (k : KeyCode) (m : UiMode) → Fit r m → Fit r (invoice_in k m).0
unfolding invoice_in
invoice_in-Fit r k (UiMode.new_message_notification n a st) q =
    if_lem {A = UiMode × Bool} (λ x. Fit r x.0) (is_add a && st.focused) (λ w. refl) (λ w. refl)
invoice_in-Fit r k m q = q

pub type_invoice-Keeps : (e : KeyEvent) (app : App) → IsPlaced app → Keeps (type_invoice e app)
unfolding type_invoice
type_invoice-Keeps e app p =
    ends_or_passes-Keeps app (invoice_in e.code app.mode) p
      (invoice_in-Fit app.user_role e.code app.mode p.1)

key_text-Fit :
    (r : UserRole) (k : KeyCode) (popup : KeyInputState → UiMode) (st : KeyInputState)
    → ((s : KeyInputState) → Fit r (popup s))
    → Fit r (key_text k popup st).0
key_text-Fit r k popup st q =
    if_lem {A = UiMode × Bool} (λ x. Fit r x.0) st.focused (λ w. q (handle_key_input k st).0)
      (λ w. q st)

key_in-Fit : (r : UserRole) (k : KeyCode) (m : UiMode) → Fit r m → Fit r (key_in k m).0
unfolding key_in
key_in-Fit r k (UiMode.add_mostro_pubkey st) q =
    key_text-Fit r k UiMode.add_mostro_pubkey st (λ s. refl)
key_in-Fit r k (UiMode.add_relay st) q = key_text-Fit r k UiMode.add_relay st (λ s. refl)
key_in-Fit r k (UiMode.add_ln_address st) q = key_text-Fit r k UiMode.add_ln_address st (λ s. refl)
key_in-Fit r k (UiMode.add_currency st) q = key_text-Fit r k UiMode.add_currency st (λ s. refl)
key_in-Fit r k (UiMode.admin_mode (AdminMode.setup_admin_key st)) q =
    key_text-Fit r k (λ s. UiMode.admin_mode (AdminMode.setup_admin_key s)) st (λ s. q)
key_in-Fit r k (UiMode.admin_mode (AdminMode.add_solver st)) q =
    key_text-Fit r k (λ s. UiMode.admin_mode (AdminMode.add_solver (record st { key_input = s })))
      st.key_input (λ s. q)
key_in-Fit r k m q = q

pub type_key-Keeps : (e : KeyEvent) (app : App) → IsPlaced app → Keeps (type_key e app)
unfolding type_key
type_key-Keeps e app p =
    ends_or_passes-Keeps app (key_in e.code app.mode) p
      (key_in-Fit app.user_role e.code app.mode p.1)

uncopied-Fit : (r : UserRole) (e : KeyEvent) (m : UiMode) → Fit r m → Fit r (uncopied e m)
unfolding uncopied
uncopied-Fit r e (UiMode.new_message_notification n a st) q =
    if_lem (Fit r) (is_pay a && not (either_of b'c' b'C' e.code)) (λ w. refl) (λ w. refl)
uncopied-Fit r e (UiMode.operation_result (OperationResult.conversation_disclosure key c)) q = refl
uncopied-Fit r e m q = q

pub reset_copied-Keeps : (e : KeyEvent) (app : App) → IsPlaced app → Keeps (reset_copied e app)
unfolding reset_copied
reset_copied-Keeps e app p = (p.0, uncopied-Fit app.user_role e app.mode p.1, p.2)

on_disputes-Keeps :
    (h : Host) (e : KeyEvent) (app : App)
    → IsPlaced app
    → is_admin app.user_role ≡ true
    → Keeps (on_disputes h e app)
unfolding on_disputes
on_disputes-Keeps h e app p a =
    if_lem Keeps (shifted b'f' b'F' e)
      (λ w.
        if_lem Keeps (is_managing_dispute app.mode)
          (λ v.
            let o = selected_filtered_dispute h.dispute_text app in
            in_mode-Keeps app (Option.map reviewing o) p
              (mapped-Fits app.user_role reviewing o (λ d. a)))
          (λ v. p))
      (λ w.
        if_lem Keeps (shifted b'c' b'C' e) (λ v. p)
          (λ v.
            if_lem Keeps (shifted b'i' b'I' e && is_managing_dispute app.mode) (λ u. p) (λ u. p)))

pub dispute_keys-Keeps :
    (h : Host) (e : KeyEvent) (app : App) → IsPlaced app → Keeps (dispute_keys h e app)
unfolding dispute_keys
dispute_keys-Keeps h e app p =
    if_lem Keeps (is_disputes_in_progress app.active_tab)
      (λ t. on_disputes-Keeps h e app p (disputes_tab-is_admin app.user_role app.active_tab p.0 t))
      (λ t. p)

disclose-Keeps :
    (o : Option (Uuid × Option Status)) (app : App) → IsPlaced app → Keeps (disclose o app)
unfolding disclose
disclose-Keeps none app p = (p.0, refl, p.2)
disclose-Keeps (some s) app p = p

trade_key-IsPlaced :
    (o : Option TradeKey) (app : App)
    → IsPlaced app
    → OnSome IsPlaced (and_then o (λ t. press_trade_key t app))
trade_key-IsPlaced none app p = tt
trade_key-IsPlaced (some t) app p = press_trade_key-IsPlaced t app p

shift_trade-Keeps : (k : KeyCode) (app : App) → IsPlaced app → Keeps (shift_trade k app)
unfolding shift_trade
shift_trade-Keeps k app p =
    if_lem Keeps (either_of b'k' b'K' k)
      (λ w.
        if_lem Keeps (user_my_trades_interactive app.mode)
          (λ v. disclose-Keeps (resolve_selected_mytrades_order_status app) app p) (λ v. p))
      (λ w.
        or_pass-Keeps app (and_then (trade_key_of k) (λ t. press_trade_key t app)) p
          (trade_key-IsPlaced (trade_key_of k) app p))

pub trade_keys-Keeps : (e : KeyEvent) (app : App) → IsPlaced app → Keeps (trade_keys e app)
unfolding trade_keys on_trades
trade_keys-Keeps e app p =
    if_lem Keeps (is_my_trades app.active_tab)
      (λ t.
        if_lem Keeps (is_delete e.code)
          (λ w.
            or_pass-Keeps app (press_delete e.control app) p
              (press_delete-IsPlaced e.control app p))
          (λ w. if_lem Keeps e.shift (λ v. shift_trade-Keeps e.code app p) (λ v. p)))
      (λ t. p)

pub admin_chat_input-Keeps :
    (e : KeyEvent) (app : App) → IsPlaced app → Keeps (admin_chat_input e app)
unfolding admin_chat_input
admin_chat_input-Keeps e app p =
    if_lem Keeps
      (is_disputes_in_progress app.active_tab
        && is_managing_dispute app.mode
        && app.admin_chat_input_enabled
        && not (shifted b'f' b'F' e || shifted b'i' b'I' e))
      (λ w.
        text-Keeps app (λ s. record app { admin_chat_input = s })
          (edited e.code app.admin_chat_input) p (λ s. p))
      (λ w. p)

pub user_chat_input-Keeps :
    (e : KeyEvent) (app : App) → IsPlaced app → Keeps (user_chat_input e app)
unfolding user_chat_input
user_chat_input-Keeps e app p =
    if_lem Keeps
      (is_my_trades app.active_tab
        && user_my_trades_interactive app.mode
        && app.order_chat_input_enabled
        && not (is_shortcut e))
      (λ w.
        text-Keeps app (λ s. record app { order_chat_input = s })
          (edited e.code app.order_chat_input) p (λ s. p))
      (λ w. p)

pub observer_input-Keeps : (e : KeyEvent) (app : App) → IsPlaced app → Keeps (observer_input e app)
unfolding observer_input
observer_input-Keeps e app p =
    if_lem Keeps (observer_inputs_editable app && not e.control)
      (λ w.
        text-Keeps app (λ s. record app { observer_shared_key_input = s })
          (edited e.code app.observer_shared_key_input) p (λ s. p))
      (λ w. p)

picker_in-Fits :
    (h : Host) (k : KeyCode) (r : UserRole) (m : UiMode) → Fit r m → Fits r (picker_in h k m)
unfolding picker_in
picker_in-Fits h k r (UiMode.user_mode (UserMode.creating_order form)) q =
    mapped-Fits r form_in (picker_key h.accepted_currencies k form) (λ f. q)
picker_in-Fits h k r m q = tt

pub currency_picker-Keeps :
    (h : Host) (e : KeyEvent) (app : App) → IsPlaced app → Keeps (currency_picker h e app)
unfolding currency_picker
currency_picker-Keeps h e app p =
    in_mode-Keeps app (picker_in h e.code app.mode) p
      (picker_in-Fits h e.code app.user_role app.mode p.1)

bottom-IsPlaced : (o : Option AdminDispute) (app : App) → IsPlaced app → IsPlaced (bottom o app)
unfolding bottom
bottom-IsPlaced none app p = p
bottom-IsPlaced (some d) app p =
    if_lem {A = App} IsPlaced (get_dispute_visible_message_count app d.dispute_id == 0) (λ w. p)
      (λ w. p)

pub jump_to_bottom-IsPlaced :
    (h : Host) (app : App) → IsPlaced app → IsPlaced (jump_to_bottom h app)
unfolding jump_to_bottom
jump_to_bottom-IsPlaced h app p =
    if_lem IsPlaced (is_managing_dispute app.mode && is_disputes_in_progress app.active_tab)
      (λ w. bottom-IsPlaced (selected_filtered_dispute h.dispute_text app) app p) (λ w. p)
