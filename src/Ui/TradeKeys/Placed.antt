-- ===== src/Ui/TradeKeys/Placed.antt =====
-- key_handler/mod.rs: the role, the tab and the mode under the keys of My Trades.
use mostrix.Prelude.{
  ◌≡◌, ◌∙◌, refl, String, Bool, true, false, not, Option, none, some, OnSome, and_then, if_lem,
  option_lem,
}
use mostrix.Protocol.{Uuid, Status, Action}
use mostrix.Ui.Tabs.{UserRole}
use mostrix.Ui.Mode.{UiMode, user_my_trades_interactive}
use mostrix.Ui.App.{App}
use mostrix.Ui.Placed.{IsPlaced, mode_fits, clone-fits}
use mostrix.Ui.TradeKeys.{
  TradeKey, ask_trade_action, trade_action_texts, trade_action_shortcut_next_mode, is_disputed,
  ask_dispute, can_dispute_order_status, is_terminal_order_status, dispute_shortcut_next_mode,
  resolve_selected_mytrades_order_status, deleting, press_delete, go_to, help_mode, rating_mode,
  press_trade_key,
}

-- Whatever mode comes next, it fits the role.
abbrev Fits : UserRole → Option UiMode → Type 0
Fits r o = OnSome (λ m. mode_fits r m ≡ true) o

go_to-IsPlaced :
    (o : Option UiMode) (app : App)
    → IsPlaced app
    → Fits app.user_role o
    → OnSome IsPlaced (go_to o app)
go_to-IsPlaced none app p f = tt
go_to-IsPlaced (some m) app p f = (p.0, f, p.2)

ask_trade_action-Fits :
    (r : UserRole) (a : Action) (s : Uuid × Option Status) (o : Option (String × String))
    → Fits r (ask_trade_action a s o)
unfolding ask_trade_action
ask_trade_action-Fits r a (i, s) none = tt
ask_trade_action-Fits r a (i, s) (some (x, y)) =
    if_lem (λ m. mode_fits r m ≡ true) (is_terminal_order_status s) (λ q. refl) (λ q. refl)

and_then-Fits :
    (r : UserRole) (o : Option (Uuid × Option Status)) (f : Uuid × Option Status → Option UiMode)
    → ((s : Uuid × Option Status) → Fits r (f s))
    → Fits r (and_then o f)
and_then-Fits r none f h = tt
and_then-Fits r (some s) f h = h s

trade_action_shortcut_next_mode-Fits :
    (r : UserRole) (m : UiMode) (s : Option (Uuid × Option Status)) (a : Action)
    → Fits r (trade_action_shortcut_next_mode m s a)
unfolding trade_action_shortcut_next_mode
trade_action_shortcut_next_mode-Fits r m s a =
    if_lem (Fits r) (user_my_trades_interactive m)
      (λ q.
        and_then-Fits r s (λ x. ask_trade_action a x (trade_action_texts a))
          (λ x. ask_trade_action-Fits r a x (trade_action_texts a)))
      (λ q. tt)

ask_dispute_fits : (r : UserRole) (s : Uuid × Option Status) → mode_fits r (ask_dispute s) ≡ true
unfolding ask_dispute
ask_dispute_fits r (i, s) =
    if_lem (λ m. mode_fits r m ≡ true) (is_disputed s) (λ q. refl)
      (λ q.
        if_lem (λ m. mode_fits r m ≡ true) (not (can_dispute_order_status s)) (λ q'. refl)
          (λ q'. refl))

dispute_shortcut_next_mode-Fits :
    (r : UserRole) (m : UiMode) (s : Option (Uuid × Option Status))
    → Fits r (dispute_shortcut_next_mode m s)
unfolding dispute_shortcut_next_mode
dispute_shortcut_next_mode-Fits r m s =
    if_lem (Fits r) (user_my_trades_interactive m)
      (λ q. and_then-Fits r s (λ x. some (ask_dispute x)) (λ x. ask_dispute_fits r x)) (λ q. tt)

help_mode-Fits : (app : App) → IsPlaced app → Fits app.user_role (help_mode app)
help_mode-Fits app p =
    if_lem (Fits app.user_role) (user_my_trades_interactive app.mode)
      (λ q. clone-fits app.user_role app.mode ∙ p.1) (λ q. tt)

rating_mode-Fits : (r : UserRole) (app : App) → Fits r (rating_mode app)
rating_mode-Fits r app =
    option_lem (Fits r) (resolve_selected_mytrades_order_status app) (λ q. tt) (λ s q. refl)

pub press_trade_key-IsPlaced :
    (k : TradeKey) (app : App) → IsPlaced app → OnSome IsPlaced (press_trade_key k app)
unfolding press_trade_key
press_trade_key-IsPlaced TradeKey.toggle_input app p = p
press_trade_key-IsPlaced TradeKey.help app p =
    go_to-IsPlaced (help_mode app) app p (help_mode-Fits app p)
press_trade_key-IsPlaced TradeKey.cancel app p =
    let s = resolve_selected_mytrades_order_status app in
    go_to-IsPlaced (trade_action_shortcut_next_mode app.mode s Action.cancel) app p
      (trade_action_shortcut_next_mode-Fits app.user_role app.mode s Action.cancel)
press_trade_key-IsPlaced TradeKey.fiat_sent app p =
    let s = resolve_selected_mytrades_order_status app in
    go_to-IsPlaced (trade_action_shortcut_next_mode app.mode s Action.fiat_sent) app p
      (trade_action_shortcut_next_mode-Fits app.user_role app.mode s Action.fiat_sent)
press_trade_key-IsPlaced TradeKey.release app p =
    let s = resolve_selected_mytrades_order_status app in
    go_to-IsPlaced (trade_action_shortcut_next_mode app.mode s Action.release) app p
      (trade_action_shortcut_next_mode-Fits app.user_role app.mode s Action.release)
press_trade_key-IsPlaced TradeKey.rate app p =
    go_to-IsPlaced (rating_mode app) app p (rating_mode-Fits app.user_role app)
press_trade_key-IsPlaced TradeKey.dispute app p =
    let s = resolve_selected_mytrades_order_status app in
    go_to-IsPlaced (dispute_shortcut_next_mode app.mode s) app p
      (dispute_shortcut_next_mode-Fits app.user_role app.mode s)

deleting_fits : (r : UserRole) (s : Uuid × Option Status) → mode_fits r (deleting s) ≡ true
unfolding deleting
deleting_fits r (i, s) =
    if_lem (λ m. mode_fits r m ≡ true) (is_terminal_order_status s) (λ q. refl) (λ q. refl)

pub press_delete-IsPlaced :
    (b : Bool) (app : App) → IsPlaced app → OnSome IsPlaced (press_delete b app)
unfolding press_delete
press_delete-IsPlaced true app p = (p.0, refl, p.2)
press_delete-IsPlaced false app p =
    option_lem (OnSome IsPlaced) (resolve_selected_mytrades_order_status app) (λ q. tt)
      (λ s q. (p.0, deleting_fits app.user_role s, p.2))
