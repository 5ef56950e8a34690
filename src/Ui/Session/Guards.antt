-- ===== src/Ui/Session/Guards.antt =====
-- key_handler/mod.rs and enter_handlers.rs: Enter on an answer, NO among them, and the keys of My Trades after it.
use mostrix.Prelude.{◌≡◌, ◌≢◌, refl, Bool, true, false, not, Option, none, some, [], if_lem}
use mostrix.Protocol.{Uuid, Action}
use mostrix.Ui.Tabs.{UserRole}
use mostrix.Ui.Mode.{UiMode, UserMode, AdminMode, MessageViewState, user_my_trades_interactive}
use mostrix.Ui.App.{App}
use mostrix.Ui.Host.{Host}
use mostrix.Ui.Task.{Step, quiet}
use mostrix.Ui.TradeKeys.{
  TradeKey, trade_action_shortcut_next_mode, dispute_shortcut_next_mode, press_trade_key,
}
use mostrix.Ui.Enter.Message.{
  dismisses, is_dispute, action_to_send, defaulted, spawn_dispute, send,
  handle_enter_viewing_message,
}
use mostrix.Ui.Enter.Dispute.{handle_enter_admin_mode}
use mostrix.Ui.Enter.Settings.{
  handle_enter_settings_mode, handle_enter_delete_history_order, handle_enter_bulk_delete_history,
  handle_enter_generate_new_keys,
}
use mostrix.Ui.Enter.{handle_enter_taking_order, handle_enter_key}

-- The popups in which NO is highlighted.
abbrev pub says_no : UiMode → Bool
says_no (UiMode.user_mode (UserMode.confirming_order f b)) = not b
says_no (UiMode.user_mode (UserMode.taking_order t)) = not t.selected_button
says_no (UiMode.admin_mode (AdminMode.confirm_add_solver s p b)) = not b
says_no (UiMode.admin_mode (AdminMode.confirm_admin_key s b)) = not b
says_no (UiMode.admin_mode (AdminMode.confirm_take_dispute i b)) = not b
says_no (UiMode.admin_mode (AdminMode.confirm_finalize_dispute i s c b)) = not b
says_no (UiMode.viewing_message v) = dismisses v.button_selection
says_no (UiMode.confirm_mostro_pubkey s b) = not b
says_no (UiMode.confirm_relay s b) = not b
says_no (UiMode.confirm_ln_address s b) = not b
says_no (UiMode.confirm_clear_ln_address b) = not b
says_no (UiMode.confirm_saved_ln_address_for_invoice n b) = not b
says_no (UiMode.confirm_currency s b) = not b
says_no (UiMode.confirm_clear_currencies b) = not b
says_no (UiMode.confirm_delete_history_order i b) = not b
says_no (UiMode.confirm_bulk_delete_history b) = not b
says_no (UiMode.confirm_generate_new_keys b) = not b
says_no (UiMode.confirm_exit b) = not b
says_no _ = false

-- Nothing is set off, and the program goes on.
abbrev pub IsQuiet : Step → Type 0
IsQuiet s = (s.tasks ≡ []) × (s.goes_on ≡ true)

abbrev with_mode : UiMode → App → App
with_mode m app = record app { mode = m }

handle_enter_key-IsQuiet :
    (h : Host) (m : UiMode) (app : App)
    → says_no m ≡ true
    → IsQuiet (handle_enter_key h (with_mode m app))
unfolding handle_enter_key handle_enter_taking_order handle_enter_viewing_message
    handle_enter_admin_mode handle_enter_settings_mode handle_enter_delete_history_order
    handle_enter_bulk_delete_history handle_enter_generate_new_keys
handle_enter_key-IsQuiet h (UiMode.user_mode (UserMode.confirming_order f false)) app q =
    (refl, refl)
handle_enter_key-IsQuiet h (UiMode.user_mode (UserMode.confirming_order f true)) app q = cc
handle_enter_key-IsQuiet h (UiMode.admin_mode (AdminMode.confirm_add_solver s p false)) app q =
    (refl, refl)
handle_enter_key-IsQuiet h (UiMode.admin_mode (AdminMode.confirm_add_solver s p true)) app q = cc
handle_enter_key-IsQuiet h (UiMode.admin_mode (AdminMode.confirm_admin_key s false)) app q =
    (refl, refl)
handle_enter_key-IsQuiet h (UiMode.admin_mode (AdminMode.confirm_admin_key s true)) app q = cc
handle_enter_key-IsQuiet h (UiMode.admin_mode (AdminMode.confirm_take_dispute i false)) app q =
    (refl, refl)
handle_enter_key-IsQuiet h (UiMode.admin_mode (AdminMode.confirm_take_dispute i true)) app q = cc
handle_enter_key-IsQuiet h (UiMode.admin_mode (AdminMode.confirm_finalize_dispute i s c false)) app
      q =
    (refl, refl)
handle_enter_key-IsQuiet h (UiMode.admin_mode (AdminMode.confirm_finalize_dispute i s c true)) app
      q =
    cc
handle_enter_key-IsQuiet h (UiMode.confirm_mostro_pubkey s false) app q = (refl, refl)
handle_enter_key-IsQuiet h (UiMode.confirm_mostro_pubkey s true) app q = cc
handle_enter_key-IsQuiet h (UiMode.confirm_relay s false) app q = (refl, refl)
handle_enter_key-IsQuiet h (UiMode.confirm_relay s true) app q = cc
handle_enter_key-IsQuiet h (UiMode.confirm_ln_address s false) app q = (refl, refl)
handle_enter_key-IsQuiet h (UiMode.confirm_ln_address s true) app q = cc
handle_enter_key-IsQuiet h (UiMode.confirm_clear_ln_address false) app q = (refl, refl)
handle_enter_key-IsQuiet h (UiMode.confirm_clear_ln_address true) app q = cc
handle_enter_key-IsQuiet h (UiMode.confirm_saved_ln_address_for_invoice n false) app q =
    (refl, refl)
handle_enter_key-IsQuiet h (UiMode.confirm_saved_ln_address_for_invoice n true) app q = cc
handle_enter_key-IsQuiet h (UiMode.confirm_currency s false) app q = (refl, refl)
handle_enter_key-IsQuiet h (UiMode.confirm_currency s true) app q = cc
handle_enter_key-IsQuiet h (UiMode.confirm_clear_currencies false) app q = (refl, refl)
handle_enter_key-IsQuiet h (UiMode.confirm_clear_currencies true) app q = cc
handle_enter_key-IsQuiet h (UiMode.confirm_delete_history_order i false) app q = (refl, refl)
handle_enter_key-IsQuiet h (UiMode.confirm_delete_history_order i true) app q = cc
handle_enter_key-IsQuiet h (UiMode.confirm_bulk_delete_history false) app q = (refl, refl)
handle_enter_key-IsQuiet h (UiMode.confirm_bulk_delete_history true) app q = cc
handle_enter_key-IsQuiet h (UiMode.confirm_generate_new_keys false) app q = (refl, refl)
handle_enter_key-IsQuiet h (UiMode.confirm_generate_new_keys true) app q = cc
handle_enter_key-IsQuiet h (UiMode.confirm_exit false) app q = (refl, refl)
handle_enter_key-IsQuiet h (UiMode.confirm_exit true) app q = cc
handle_enter_key-IsQuiet h (UiMode.user_mode (UserMode.taking_order t)) app q =
    if_lem IsQuiet t.selected_button (λ e. cc) (λ e. (refl, refl))
handle_enter_key-IsQuiet h (UiMode.viewing_message v) app q = rw q (refl, refl)
handle_enter_key-IsQuiet h m app q = cc

-- Enter with NO highlighted sends nothing, whatever is asked, and does not end the program.
pub no_sends_nothing :
    (h : Host) (app : App) → says_no app.mode ≡ true → IsQuiet (handle_enter_key h app)
no_sends_nothing h app q = handle_enter_key-IsQuiet h app.mode app q

-- The keys of My Trades that ask for an action on a trade.
abbrev pub asks_action : TradeKey → Bool
asks_action TradeKey.cancel = true
asks_action TradeKey.fiat_sent = true
asks_action TradeKey.release = true
asks_action TradeKey.dispute = true
asks_action _ = false

ignored_keys :
    (k : TradeKey) (app : App)
    → asks_action k ≡ true
    → user_my_trades_interactive app.mode ≡ false
    → press_trade_key k app ≡ none
unfolding press_trade_key trade_action_shortcut_next_mode dispute_shortcut_next_mode
ignored_keys TradeKey.cancel app a q = rw q refl
ignored_keys TradeKey.fiat_sent app a q = rw q refl
ignored_keys TradeKey.release app a q = rw q refl
ignored_keys TradeKey.dispute app a q = rw q refl
ignored_keys k app a q = cc

abbrev pub viewing : MessageViewState → App → App
viewing v app = record app { user_role = UserRole.user; mode = UiMode.viewing_message v }

-- What an answer leads to: nothing is set off, or no key that acts on a trade does anything, nor Enter.
abbrev WaitsOrQuiet : Host → Step → Type 0
WaitsOrQuiet h s =
    s.tasks ≢ []
    → (user_my_trades_interactive s.app.mode ≡ false) × (handle_enter_key h s.app ≡ quiet s.app)

sent_waits :
    (h : Host) (v : MessageViewState) (o : Option Action) (a : Action) (i : Uuid) (app : App)
    → WaitsOrQuiet h (send o a (some i) (defaulted (viewing v app)))
unfolding send handle_enter_key
sent_waits h v none a i app ne = absurd (ne refl)
sent_waits h v (some b) a i app ne = (refl, refl)

answered_waits :
    (h : Host) (v : MessageViewState) (i : Uuid) (app : App)
    → v.order_id ≡ some i
    → WaitsOrQuiet h (handle_enter_viewing_message v (defaulted (viewing v app)))
unfolding handle_enter_viewing_message spawn_dispute handle_enter_key
answered_waits h v i app o = rw o (
    if_lem (WaitsOrQuiet h) (dismisses v.button_selection) (λ q ne. absurd (ne refl))
      (λ q.
        if_lem (WaitsOrQuiet h) (is_dispute v.action) (λ q' ne. (refl, refl))
          (λ q'. sent_waits h v (action_to_send v.action v.button_selection) v.action i app)))

-- In the state that a user's answer about an order leaves where Enter set something off, a second Enter
-- sets nothing off and changes nothing, and the keys of My Trades that ask for an action do nothing.
pub repeated_press_quiet :
    (h : Host) (v : MessageViewState) (i : Uuid) (k : TradeKey) (app : App)
    → v.order_id ≡ some i
    → (handle_enter_key h (viewing v app)).tasks ≢ []
    → asks_action k ≡ true
    → let answered = (handle_enter_key h (viewing v app)).app in
      (handle_enter_key h answered ≡ quiet answered) × (press_trade_key k answered ≡ none)
unfolding handle_enter_key
repeated_press_quiet h v i k app o ne a =
    let x = answered_waits h v i app o ne in
    (x.1, ignored_keys k (handle_enter_key h (viewing v app)).app a x.0)
