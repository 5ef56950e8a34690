-- ===== src/Ui/Arrows.antt =====
-- key_handler/navigation.rs: Left, Right, Up, Down, Tab and BackTab.
pub mod Placed
use mostrix.Prelude.{
  ℕ, zero, suc, ◌+◌, ◌-◌, ℤ, pos, negsuc, String, Bool, true, false, not, ◌&&◌, ◌||◌, Option, none,
  some, List, [], ◌∷◌, length, get_elem?, is_some, is_some_and, and_then, or, lookup, map, ltb, leb,
  ◌==◌, if◌then◌else◌,
}
use mostrix.Protocol.{Uuid, SmallOrder}
use mostrix.Messages.{OrderMessage, strip_new_order_messages_and_clamp_selected}
use mostrix.Disputes.{DisputeText, Dispute}
use mostrix.Dm.{ChatParty}
use mostrix.Ui.UserTab.{UserTab}
use mostrix.Ui.AdminTab.{AdminTab}
use mostrix.Ui.Tabs.{UserRole, Tab}
use mostrix.Ui.Form
use mostrix.Ui.Form.{FormState}
use mostrix.Ui.Mode.{
  UiMode, UserMode, AdminMode, MessageViewState, ViewingMessageButtonSelection, UserChatChannel,
  OrderChatStaticHeader, next_three, prev_three,
}
use mostrix.Ui.Sidebar.{OrderChatListItem, build_active_order_chat_list}
use mostrix.Ui.App.{App, set_mode}
use mostrix.Ui.Selection.{
  move_book_order_selection, move_pending_dispute_selection, move_dispute_selection,
}
use mostrix.Ui.SettingsMenu.{options_count}
use mostrix.Ui.TabSwitch.{
  is_create_new_order, is_disputes_in_progress, save_and_leave_creating_order, switch_tab,
  mark_read,
}

-- YES and NO of a two-button popup, or the neighbour among three.
abbrev pub press : Bool → ViewingMessageButtonSelection → ViewingMessageButtonSelection
press to_left (ViewingMessageButtonSelection.two selected) =
    ViewingMessageButtonSelection.two to_left
press true (ViewingMessageButtonSelection.three t) =
    ViewingMessageButtonSelection.three (prev_three t)
press false (ViewingMessageButtonSelection.three t) =
    ViewingMessageButtonSelection.three (next_three t)

-- The button of a popup: Left is YES, Right is NO.
unfoldable pub select_button : Bool → UiMode → UiMode
select_button left (UiMode.user_mode (UserMode.confirming_order form b)) =
    UiMode.user_mode (UserMode.confirming_order form left)
select_button left (UiMode.user_mode (UserMode.taking_order t)) =
    UiMode.user_mode (UserMode.taking_order (record t { selected_button = left }))
select_button left (UiMode.viewing_message v) =
    UiMode.viewing_message (record v { button_selection = press left v.button_selection })
select_button left (UiMode.admin_mode (AdminMode.confirm_add_solver key permission b)) =
    UiMode.admin_mode (AdminMode.confirm_add_solver key permission left)
select_button left (UiMode.admin_mode (AdminMode.confirm_admin_key key b)) =
    UiMode.admin_mode (AdminMode.confirm_admin_key key left)
select_button left (UiMode.admin_mode (AdminMode.confirm_finalize_dispute i settle bond b)) =
    UiMode.admin_mode (AdminMode.confirm_finalize_dispute i settle bond left)
select_button left (UiMode.confirm_mostro_pubkey s b) = UiMode.confirm_mostro_pubkey s left
select_button left (UiMode.confirm_relay s b) = UiMode.confirm_relay s left
select_button left (UiMode.confirm_ln_address s b) = UiMode.confirm_ln_address s left
select_button left (UiMode.confirm_saved_ln_address_for_invoice n b) =
    UiMode.confirm_saved_ln_address_for_invoice n left
select_button left (UiMode.confirm_clear_ln_address b) = UiMode.confirm_clear_ln_address left
select_button left (UiMode.confirm_currency s b) = UiMode.confirm_currency s left
select_button left (UiMode.confirm_clear_currencies b) = UiMode.confirm_clear_currencies left
select_button left (UiMode.confirm_delete_history_order i b) =
    UiMode.confirm_delete_history_order i left
select_button left (UiMode.confirm_bulk_delete_history b) = UiMode.confirm_bulk_delete_history left
select_button left (UiMode.confirm_exit b) = UiMode.confirm_exit left
select_button left mode = mode

-- The modes in which Left and Right switch tabs.
abbrev pub is_browsing : UiMode → Bool
is_browsing UiMode.normal = true
is_browsing (UiMode.user_mode UserMode.normal) = true
is_browsing (UiMode.admin_mode AdminMode.normal) = true
is_browsing (UiMode.admin_mode AdminMode.managing_dispute) = true
is_browsing _ = false

abbrev pub form_of : UiMode → Option FormState
form_of (UiMode.user_mode (UserMode.creating_order form)) = some form
form_of _ = none

-- Where the mode is the form: whether it is left depends on the tab.
abbrev leave_form : Bool → FormState → App → App
leave_form left form app =
    if is_create_new_order app.active_tab then save_and_leave_creating_order form left app else app

-- `handle_left_key` (`true`) and `handle_right_key` (`false`)
unfoldable pub handle_horizontal_key : Bool → App → App
unfolding save_and_leave_creating_order switch_tab select_button
handle_horizontal_key left app = elim (form_of app.mode) [
  | some form ↦ leave_form left form app
  | none ↦
      if is_browsing app.mode
      then switch_tab left app
      else set_mode (select_button left app.mode) app
]

-- The highlighted row is marked read.
abbrev pub read_at : ℕ → List OrderMessage → List OrderMessage
read_at i [] = []
read_at zero (m ∷ ms) = mark_read m ∷ ms
read_at (suc i) (m ∷ ms) = m ∷ read_at i ms

-- The index after Up (`true`) or Down, in a list of `len` rows.
abbrev pub stepped : Bool → ℕ → ℕ → ℕ
stepped up len i =
    if leb len i then len - 1 else if up then i - 1 else if ltb i (len - 1) then i + 1 else i

unfoldable pub move_message : Bool → App → App
move_message up app =
    let kept = strip_new_order_messages_and_clamp_selected app.messages app.selected_message_idx in
    let len = length kept.0 in
    let idx = if len == 0 then 0 else stepped up len kept.1 in
    record app {
      messages = if len == 0 then kept.0 else read_at idx kept.0;
      selected_message_idx = idx;
    }

abbrev pub active_order_chat_list_len : App → ℕ
active_order_chat_list_len app =
    length (build_active_order_chat_list app.messages app.my_trades_maker_book)

unfoldable pub move_trade : Bool → App → App
move_trade up app =
    let n = active_order_chat_list_len app in
    let i = app.selected_order_chat_idx in
    record app {
      selected_order_chat_idx =
          if up
          then (if ltb 0 n && ltb 0 i then i - 1 else i)
          else (if ltb 0 n && ltb i (n - 1) then i + 1 else i);
    }

unfoldable pub move_setting : Bool → App → App
move_setting up app =
    let i = app.selected_settings_option in
    record app {
      selected_settings_option =
          if up then i - 1 else if ltb i (options_count app.user_role - 1) then i + 1 else i;
    }

abbrev pub delta : Bool → ℤ
delta true = negsuc 0
delta false = pos 1

-- The header's fields where the row has none.
abbrev hydrated : OrderChatListItem → Option OrderChatStaticHeader → OrderChatListItem
hydrated row none = row
hydrated row (some header) = record row {
  solver_pubkey = or row.solver_pubkey header.solver_pubkey;
  dispute_id = or row.dispute_id header.dispute_id;
}

unfoldable pub active_order_chat_list_snapshot : App → List OrderChatListItem
active_order_chat_list_snapshot app =
    map (λ row. hydrated row (lookup row.order_id app.order_chat_static))
      (build_active_order_chat_list app.messages app.my_trades_maker_book)

module _ (to_uppercase : String → String) (x : DisputeText) (orders : List SmallOrder)
    (disputes : List Dispute) where
  unfoldable pub browse : Bool → Tab → App → App
  browse up (Tab.user UserTab.orders) app =
      move_book_order_selection to_uppercase app orders (delta up)
  browse up (Tab.admin AdminTab.disputes_pending) app =
      move_pending_dispute_selection x app disputes (delta up)
  browse up (Tab.admin AdminTab.disputes_in_progress) app = move_dispute_selection x app (delta up)
  browse up (Tab.user UserTab.messages) app = move_message up app
  browse up (Tab.user UserTab.my_trades) app = move_trade up app
  browse up (Tab.admin AdminTab.settings) app = move_setting up app
  browse up (Tab.user UserTab.settings) app = move_setting up app
  browse up tab app = app

  abbrev focus_moved : Bool → FormState → FormState
  focus_moved up form = record form {
    focused =
        if up then Form.prev form.focused form.use_range else Form.next form.focused form.use_range;
  }

  -- Down in a dispute's mode moves in the list of its tab only; Up does not ask for the mode.
  unfoldable pub vertical : Bool → UiMode → App → App
  vertical up (UiMode.user_mode (UserMode.creating_order form)) app =
      set_mode (UiMode.user_mode (UserMode.creating_order (focus_moved up form))) app
  vertical true (UiMode.admin_mode AdminMode.managing_dispute) app = browse true app.active_tab app
  vertical false (UiMode.admin_mode AdminMode.managing_dispute) app =
      if is_disputes_in_progress app.active_tab
      then move_dispute_selection x app (delta false)
      else app
  vertical up mode app = if is_browsing mode then browse up app.active_tab app else app

  -- `handle_up_key` (`true`) and `handle_down_key` (`false`)
  abbrev pub handle_vertical_key : Bool → App → App
  handle_vertical_key up app = vertical up app.mode app

abbrev other_party : ChatParty → ChatParty
other_party ChatParty.buyer = ChatParty.seller
other_party ChatParty.seller = ChatParty.buyer

abbrev other_channel : UserChatChannel → UserChatChannel
other_channel UserChatChannel.peer = UserChatChannel.solver
other_channel UserChatChannel.solver = UserChatChannel.peer

-- The selected row, or its header, knows a solver.
abbrev pub solver_available : App → Bool
solver_available app =
    is_some_and (get_elem? (active_order_chat_list_snapshot app) app.selected_order_chat_idx)
      (λ row.
        is_some row.solver_pubkey
        || is_some_and (lookup row.order_id app.order_chat_static) (λ h. is_some h.solver_pubkey))

abbrev switch_party : App → App
switch_party app = record app {
  active_chat_party = other_party app.active_chat_party;
  admin_chat_selected_message_idx = none;
  admin_chat_scroll_tracker = none;
}

abbrev switch_channel : App → App
switch_channel app =
    if solver_available app
    then record app {
      active_user_chat_channel = other_channel app.active_user_chat_channel;
      order_chat_input = "";
      order_chat_selected_message_idx = none;
      order_chat_scroll_tracker = none;
    }
    else app

abbrev tab_in_form : Bool → Option FormState → App → App
tab_in_form back none app = app
tab_in_form back (some form) app =
    set_mode
      (UiMode.user_mode (
        UserMode.creating_order (record form {
          focused =
              if back
              then Form.prev form.focused form.use_range
              else Form.next form.focused form.use_range;
        })))
      app

-- BackTab (`true`) and Tab; in a chat both go to the other party or channel.
unfoldable pub tab_key : Bool → Tab → App → App
tab_key back (Tab.admin AdminTab.disputes_in_progress) app = switch_party app
tab_key back (Tab.user UserTab.my_trades) app = switch_channel app
tab_key back tab app = tab_in_form back (form_of app.mode) app

abbrev pub handle_tab_navigation : Bool → App → App
handle_tab_navigation back app = tab_key back app.active_tab app
