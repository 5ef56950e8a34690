-- ===== src/Ui/TradeKeys.antt =====
-- key_handler/mod.rs: the keys of My Trades, and what guards them.
pub mod Placed
use mostrix.Prelude.{
  ℕ, ◌+◌, ◌-◌, min, String, Bool, true, false, not, ◌&&◌, ◌||◌, Option, none, some, List, [], ◌∷◌,
  length, find, get_elem?, is_some, is_some_and, and_then, unwrap_or, leb, ◌==◌, if◌then◌else◌,
}
use mostrix.Protocol.{Uuid, Status, Action, SmallOrder}
use mostrix.Bond.{all_choices}
use mostrix.Disputes.{Dispute, AdminDispute, DisputeText, is_finalized}
use mostrix.Ui.Tabs.{UserRole, Tab}
use mostrix.Ui.UserTab.{UserTab}
use mostrix.Ui.AdminTab.{AdminTab}
use mostrix.Ui.Mode.{
  UiMode, UserMode, AdminMode, OperationResult, InvoiceInputState,
  InvoiceNotificationActionSelection, RatingOrderState, SolverPermission,
  ViewingMessageButtonSelection, user_my_trades_interactive, clone,
}
use mostrix.Ui.App.{App, set_mode}
use mostrix.Ui.Host.{Host}
use mostrix.Ui.Selection.{selected_filtered_dispute}
use mostrix.Ui.Arrows.{
  press, handle_horizontal_key, handle_vertical_key, active_order_chat_list_snapshot,
}
use mostrix.Ui.TabSwitch.{is_disputes_in_progress, is_observer}
use mostrix.Ui.Enter.Message.{is_popup_action}
use mostrix.Ui.Enter.Chat.{get_dispute_visible_message_count}
use mostrix.Ui.Enter.Normal.{build_order_action_view_state}

unfoldable pub is_terminal_order_status : Option Status → Bool
is_terminal_order_status (some Status.success) = true
is_terminal_order_status (some Status.canceled) = true
is_terminal_order_status (some Status.canceled_by_admin) = true
is_terminal_order_status (some Status.settled_by_admin) = true
is_terminal_order_status (some Status.completed_by_admin) = true
is_terminal_order_status (some Status.expired) = true
is_terminal_order_status (some Status.cooperatively_canceled) = true
is_terminal_order_status _ = false

unfoldable pub can_dispute_order_status : Option Status → Bool
can_dispute_order_status none = true
can_dispute_order_status (some Status.active) = true
can_dispute_order_status (some Status.fiat_sent) = true
can_dispute_order_status _ = false

-- The question asked, and the text for a terminal order.
abbrev pub trade_action_texts : Action → Option (String × String)
trade_action_texts Action.cancel = some (
  "Cancel is disabled for terminal orders.",
  "Cancel this order? This sends a cooperative Cancel request.",
)
trade_action_texts Action.fiat_sent = some (
  "FiatSent is disabled for terminal orders.",
  "Confirm fiat sent for this order? This sends a FiatSent message.",
)
trade_action_texts Action.release = some (
  "Release is disabled for terminal orders.",
  "Release sats for this order? This sends a Release message.",
)
trade_action_texts _ = none

abbrev info_mode : String → UiMode
info_mode message = UiMode.operation_result (OperationResult.info message)

ask_trade_action : Action → Uuid × Option Status → Option (String × String) → Option UiMode
unfolding is_terminal_order_status
ask_trade_action a (i, status) none = none
ask_trade_action a (i, status) (some (refusal, question)) = some (
    if is_terminal_order_status status
    then info_mode refusal
    else UiMode.viewing_message (build_order_action_view_state i a question))

unfoldable pub trade_action_shortcut_next_mode :
    UiMode → Option (Uuid × Option Status) → Action → Option UiMode
unfolding ask_trade_action
trade_action_shortcut_next_mode mode selected a =
    if user_my_trades_interactive mode
    then and_then selected (λ s. ask_trade_action a s (trade_action_texts a))
    else none

abbrev is_disputed : Option Status → Bool
is_disputed (some Status.dispute) = true
is_disputed _ = false

ask_dispute : Uuid × Option Status → UiMode
unfolding can_dispute_order_status
ask_dispute (i, status) =
    if is_disputed status
    then info_mode "This order already has an open dispute."
    else if not (can_dispute_order_status status)
    then info_mode
        "Dispute is only available once the trade is active (waiting for fiat or fiat sent)."
    else UiMode.viewing_message (
        build_order_action_view_state i Action.dispute
          "Open a dispute for this order?\n\nA solver will be assigned and can read the dispute chat.\nOnly do this if the trade is stuck — try the order chat first.")

unfoldable pub dispute_shortcut_next_mode : UiMode → Option (Uuid × Option Status) → Option UiMode
unfolding ask_dispute
dispute_shortcut_next_mode mode selected =
    if user_my_trades_interactive mode then and_then selected (λ s. some (ask_dispute s)) else none

-- chat_helpers.rs
abbrev pub resolve_selected_mytrades_order_status : App → Option (Uuid × Option Status)
resolve_selected_mytrades_order_status app =
    elim (get_elem? (active_order_chat_list_snapshot app) app.selected_order_chat_idx) [
      | none ↦ none
      | some row ↦ some (row.order_id, row.status)
    ]

deleting : Uuid × Option Status → UiMode
unfolding is_terminal_order_status
deleting (i, status) =
    if is_terminal_order_status status
    then UiMode.confirm_delete_history_order i true
    else info_mode "Delete is only available for terminal orders."

-- Delete and Ctrl+Delete on My Trades; `none` where no row is selected.
unfoldable pub press_delete : Bool → App → Option App
unfolding deleting
press_delete true app = some (set_mode (UiMode.confirm_bulk_delete_history false) app)
press_delete false app = elim (resolve_selected_mytrades_order_status app) [
  | none ↦ none
  | some s ↦ some (set_mode (deleting s) app)
]

-- Shift with a letter on My Trades.
pub data TradeKey : Type 0 where
  toggle_input help cancel fiat_sent release rate dispute : TradeKey

abbrev go_to : Option UiMode → App → Option App
go_to none app = none
go_to (some mode) app = some (set_mode mode app)

-- Help opens in the normal mode only.
abbrev help_mode : App → Option UiMode
help_mode app =
    if user_my_trades_interactive app.mode
    then some (UiMode.help_popup app.active_tab (clone app.mode))
    else none

abbrev rated : Uuid → RatingOrderState
rated i = record { order_id = i; selected_rating = 5 }

abbrev rating_mode : App → Option UiMode
rating_mode app = elim (resolve_selected_mytrades_order_status app) [
  | none ↦ none
  | some s ↦ some (UiMode.rating_order (rated s.0))
]

-- `none` where the key goes on.
unfoldable pub press_trade_key : TradeKey → App → Option App
unfolding clone trade_action_shortcut_next_mode dispute_shortcut_next_mode
press_trade_key toggle_input app =
    some (record app { order_chat_input_enabled = not app.order_chat_input_enabled })
press_trade_key help app = go_to (help_mode app) app
press_trade_key cancel app =
    go_to
      (trade_action_shortcut_next_mode app.mode (resolve_selected_mytrades_order_status app)
        Action.cancel)
      app
press_trade_key fiat_sent app =
    go_to
      (trade_action_shortcut_next_mode app.mode (resolve_selected_mytrades_order_status app)
        Action.fiat_sent)
      app
press_trade_key release app =
    go_to
      (trade_action_shortcut_next_mode app.mode (resolve_selected_mytrades_order_status app)
        Action.release)
      app
press_trade_key rate app = go_to (rating_mode app) app
press_trade_key dispute app =
    go_to (dispute_shortcut_next_mode app.mode (resolve_selected_mytrades_order_status app)) app
