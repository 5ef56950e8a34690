-- ===== src/Ui/PopupKeys.antt =====
-- key_handler/mod.rs: the arrow keys in popups and in the chat of a dispute.
pub mod Placed
use mostrix.Prelude.{
  ℕ, ◌+◌, ◌-◌, min, String, Bool, true, false, not, ◌&&◌, ◌||◌, Option, none, some, List, [], ◌∷◌,
  length, find, get_elem?, is_some, is_some_and, and_then, unwrap_or, leb, ◌==◌, if◌then◌else◌,
}
use mostrix.Protocol.{Uuid, Status, Action, SmallOrder}
use mostrix.Bond.{all_choices}
use mostrix.Disputes.{Dispute, AdminDispute, DisputeText, is_finalized}
use mostrix.Ui.Tabs.{UserRole, Tab}
use mostrix.Ui.UserTab.{UserTab}
use mostrix.Ui.AdminTab.{AdminTab}
use mostrix.Ui.Mode.{
  UiMode, UserMode, AdminMode, OperationResult, InvoiceInputState,
  InvoiceNotificationActionSelection, RatingOrderState, SolverPermission,
  ViewingMessageButtonSelection, user_my_trades_interactive, clone,
}
use mostrix.Ui.App.{App, set_mode}
use mostrix.Ui.Host.{Host}
use mostrix.Ui.Selection.{selected_filtered_dispute}
use mostrix.Ui.Arrows.{
  press, handle_horizontal_key, handle_vertical_key, active_order_chat_list_snapshot,
}
use mostrix.Ui.TabSwitch.{is_disputes_in_progress, is_observer}
use mostrix.Ui.Enter.Message.{is_popup_action}
use mostrix.Ui.Enter.Chat.{get_dispute_visible_message_count}
use mostrix.Ui.Enter.Normal.{build_order_action_view_state}

-- Up (`true`) or Down among the four bond choices.
unfoldable pub cycle_bond_slash_choice : Bool → ℕ → ℕ
cycle_bond_slash_choice true i = i - 1
cycle_bond_slash_choice false i = min (i + 1) (length all_choices - 1)

abbrev max_button : Bool → ℕ
max_button bonds = if bonds then 2 else 1

-- Left (`true`) or Right among the buttons; a finalized dispute leaves only the bond button.
unfoldable pub cycle_finalization_button : Bool → Bool → Bool → ℕ → ℕ
cycle_finalization_button left is_finalized bonds i =
    if is_finalized
    then (if bonds then 2 else i)
    else if left
    then (if i == 0 then max_button bonds else i - 1)
    else if leb (max_button bonds) i
    then 0
    else i + 1

-- shared/permissions.rs
abbrev pub toggle : SolverPermission → SolverPermission
toggle SolverPermission.read_only = SolverPermission.read_write
toggle SolverPermission.read_write = SolverPermission.read_only

abbrev pub update_invoice_notification_action_selection :
    Bool → InvoiceInputState → InvoiceInputState
update_invoice_notification_action_selection left st = record st {
  action_selection =
      if left
      then InvoiceNotificationActionSelection.primary
      else InvoiceNotificationActionSelection.cancel;
}

abbrev dispute_is_final : DisputeText → Uuid → List AdminDispute → Bool
dispute_is_final x i rows = is_some_and (find (λ d. d.dispute_id == i) rows) (is_finalized x)

admin_horizontal : Host → Bool → List AdminDispute → AdminMode → Option AdminMode
unfolding cycle_finalization_button is_finalized
admin_horizontal h left rows (AdminMode.add_solver st) =
    some (AdminMode.add_solver (record st { permission = toggle st.permission }))
admin_horizontal h left rows (AdminMode.confirm_add_solver key permission b) =
    some (AdminMode.confirm_add_solver key permission (not b))
admin_horizontal h left rows (AdminMode.confirm_admin_key key b) =
    some (AdminMode.confirm_admin_key key (not b))
admin_horizontal h left rows (AdminMode.confirm_take_dispute i b) =
    some (AdminMode.confirm_take_dispute i (not b))
admin_horizontal h left rows (AdminMode.reviewing_dispute i button bond false index) = some (
    AdminMode.reviewing_dispute i
      (cycle_finalization_button left (dispute_is_final h.dispute_text i rows) h.bonds_enabled
        button)
      bond false index)
admin_horizontal h left rows _ = none

-- What Left (`true`) or Right does in a popup: both toggle the YES and NO of a confirmation. `none` where
-- the key goes on to the navigation.
popup_horizontal : Host → Bool → List AdminDispute → UiMode → Option UiMode
unfolding admin_horizontal
popup_horizontal h left rows (UiMode.admin_mode m) = elim (admin_horizontal h left rows m) [
  | none ↦ none
  | some m' ↦ some (UiMode.admin_mode m')
]
popup_horizontal h left rows (UiMode.confirm_mostro_pubkey s b) =
    some (UiMode.confirm_mostro_pubkey s (not b))
popup_horizontal h left rows (UiMode.confirm_relay s b) = some (UiMode.confirm_relay s (not b))
popup_horizontal h left rows (UiMode.confirm_ln_address s b) =
    some (UiMode.confirm_ln_address s (not b))
popup_horizontal h left rows (UiMode.confirm_saved_ln_address_for_invoice n b) =
    some (UiMode.confirm_saved_ln_address_for_invoice n (not b))
popup_horizontal h left rows (UiMode.confirm_clear_ln_address b) =
    some (UiMode.confirm_clear_ln_address (not b))
popup_horizontal h left rows (UiMode.confirm_currency s b) =
    some (UiMode.confirm_currency s (not b))
popup_horizontal h left rows (UiMode.confirm_clear_currencies b) =
    some (UiMode.confirm_clear_currencies (not b))
popup_horizontal h left rows (UiMode.confirm_delete_history_order i b) =
    some (UiMode.confirm_delete_history_order i (not b))
popup_horizontal h left rows (UiMode.confirm_bulk_delete_history b) =
    some (UiMode.confirm_bulk_delete_history (not b))
popup_horizontal h left rows (UiMode.confirm_generate_new_keys b) =
    some (UiMode.confirm_generate_new_keys (not b))
popup_horizontal h left rows (UiMode.confirm_exit b) = some (UiMode.confirm_exit (not b))
popup_horizontal h left rows (UiMode.viewing_message v) =
    some (UiMode.viewing_message (record v { button_selection = press left v.button_selection }))
popup_horizontal h left rows (UiMode.new_message_notification n a st) =
    if is_popup_action a
    then some
        (UiMode.new_message_notification n a (update_invoice_notification_action_selection left st))
    else none
popup_horizontal h left rows _ = none

-- The arm of Left (`true`) and Right.
unfoldable pub press_horizontal : Host → Bool → App → App
unfolding popup_horizontal handle_horizontal_key
press_horizontal h left app =
    elim (popup_horizontal h left app.admin_disputes_in_progress app.mode) [
      | some mode ↦ set_mode mode app
      | none ↦ handle_horizontal_key left app
    ]

-- chat_helpers.rs: the highlighted line after Up (`true`) or Down, among `n` visible ones.
abbrev pub chat_line : Bool → ℕ → Option ℕ → ℕ
chat_line up n selected =
    let current = unwrap_or selected (n - 1) in
    if up then current - 1 else min (current + 1) (n - 1)

-- `none` where there is no visible line.
unfoldable pub navigate_chat_messages : Bool → Uuid → App → Option App
navigate_chat_messages up i app =
    let n = get_dispute_visible_message_count app i in
    if n == 0
    then none
    else some (record app {
      admin_chat_selected_message_idx = some (chat_line up n app.admin_chat_selected_message_idx);
    })

-- The lines of the chat where its input is off, else the list of the tab.
abbrev in_dispute : Host → Bool → App → App
in_dispute h up app =
    let moved = handle_vertical_key h.to_uppercase h.dispute_text h.orders h.disputes up app in
    if is_disputes_in_progress app.active_tab && not app.admin_chat_input_enabled
    then unwrap_or
        (and_then (selected_filtered_dispute h.dispute_text app)
          (λ d. navigate_chat_messages up d.dispute_id app))
        moved
    else moved

-- On the Observer tab the keys scroll the chat, which only the drawing reads.
vertical_in : Host → Bool → UiMode → App → App
unfolding cycle_bond_slash_choice navigate_chat_messages
vertical_in h up (UiMode.admin_mode (AdminMode.reviewing_dispute i button bond true index)) app =
    set_mode
      (UiMode.admin_mode
        (AdminMode.reviewing_dispute i button bond true (cycle_bond_slash_choice up index)))
      app
vertical_in h up (UiMode.admin_mode AdminMode.managing_dispute) app =
    if is_observer app.active_tab then app else in_dispute h up app
vertical_in h up mode app =
    if is_observer app.active_tab
    then app
    else handle_vertical_key h.to_uppercase h.dispute_text h.orders h.disputes up app

-- The arm of Up (`true`) and Down.
unfoldable pub press_vertical : Host → Bool → App → App
unfolding vertical_in
press_vertical h up app = vertical_in h up app.mode app
