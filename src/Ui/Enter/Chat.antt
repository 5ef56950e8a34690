-- ===== src/Ui/Enter/Chat.antt =====
-- key_handler/enter_handlers.rs, chat_helpers.rs and input_helpers.rs: Enter sends the chat line.
pub mod Placed
use mostrix.Prelude.{
  ℕ, ◌-◌, ltb, pos, String, Bool, true, false, not, ◌&&◌, ◌||◌, Option, none, some, List, [], ◌∷◌,
  ◌++◌, length, count, get_elem?, is_some, lookup, insert, unwrap_or, is_empty, trim, if◌then◌else◌,
  same,
}
use mostrix.Protocol.{Uuid}
use mostrix.Disputes.{AdminDispute}
use mostrix.Dm.{ChatParty}
use mostrix.Ui.AdminTab.{AdminTab}
use mostrix.Ui.Tabs.{Tab}
use mostrix.Ui.Mode.{
  UiMode, AdminMode, OperationResult, UserChatChannel, UserOrderChatMessage, UserChatSender,
  DisputeChatMessage, ChatSender,
}
use mostrix.Ui.App.{App, set_mode}
use mostrix.Ui.Host.{Host}
use mostrix.Ui.Task.{Task, Step, quiet, doing}
use mostrix.Ui.TabSwitch.{is_disputes_in_progress}
use mostrix.Ui.Sidebar.{OrderChatListItem, build_active_order_chat_list}
use mostrix.Ui.Selection.{selected_filtered_dispute}
use mostrix.Ui.Enter.Dispute.{show_error, admin_chat_keys_clone_for_role}

abbrev same_party : ChatParty → ChatParty → Bool
same_party ChatParty.buyer ChatParty.buyer = true
same_party ChatParty.seller ChatParty.seller = true
same_party _ _ = false

abbrev admin_line : Option ChatParty → ChatParty → Bool
admin_line none party = true
admin_line (some p) party = same_party p party

-- helpers/chat_visibility.rs
abbrev pub message_visible_for_party : ChatParty → DisputeChatMessage → Bool
message_visible_for_party party m = elim m.sender [
  | ChatSender.admin ↦ admin_line m.target_party party
  | ChatSender.buyer ↦ same_party party ChatParty.buyer
  | ChatSender.seller ↦ same_party party ChatParty.seller
]

abbrev pub get_dispute_visible_message_count : App → Uuid → ℕ
get_dispute_visible_message_count app i =
    count (message_visible_for_party app.active_chat_party)
      (unwrap_or (lookup i app.admin_dispute_chats) [])

-- The last visible message is highlighted.
abbrev message_counter : Uuid → App → App
message_counter i app =
    let n = get_dispute_visible_message_count app i in
    if ltb 0 n then record app { admin_chat_selected_message_idx = some (n - 1) } else app

abbrev admin_message : Host → String → ChatParty → DisputeChatMessage
admin_message h content party = record {
  sender = ChatSender.admin;
  content = trim content;
  timestamp = pos h.now;
  target_party = some party;
  attachment = none;
}

abbrev prepare_admin_chat_message : Host → Uuid → String → App → App
prepare_admin_chat_message h i content app = record app {
  admin_dispute_chats =
      insert i
        (unwrap_or (lookup i app.admin_dispute_chats) []
          ++ admin_message h content app.active_chat_party ∷ [])
        app.admin_dispute_chats;
}

abbrev party_key : ChatParty → AdminDispute → Option String
party_key ChatParty.buyer d = d.buyer_shared_key_hex
party_key ChatParty.seller d = d.seller_shared_key_hex

-- A chat line is sent with the admin's keys and a valid shared key, else only logged.
abbrev admin_sends : Host → Option String → Uuid → String → App → List Task
admin_sends h none i content app = []
admin_sends h (some hex) i content app =
    if is_some (admin_chat_keys_clone_for_role app) && h.is_shared_hex hex
    then Task.send_admin_chat i (some hex) (trim content) ∷ []
    else []

send_to_dispute : Host → String → Option AdminDispute → App → Step
send_to_dispute h content none app = quiet app
send_to_dispute h content (some d) app =
    doing (admin_sends h (party_key app.active_chat_party d) d.dispute_id content app)
      (record (message_counter d.dispute_id
        (prepare_admin_chat_message h d.dispute_id content app)) {
          admin_chat_input = "";
          admin_chat_input_enabled = true;
        })

unfoldable pub handle_enter_admin_managing_dispute_chat : Host → App → Step
unfolding send_to_dispute
handle_enter_admin_managing_dispute_chat h app₀ =
    let app = set_mode (UiMode.admin_mode AdminMode.managing_dispute) app₀ in
    let content = trim app.admin_chat_input in
    if not (is_disputes_in_progress app.active_tab)
      || is_empty content
      || not app.admin_chat_input_enabled
    then quiet app
    else send_to_dispute h content (selected_filtered_dispute h.dispute_text app) app

abbrev local_line : Host → String → UserOrderChatMessage
local_line h content = record {
  sender = UserChatSender.you;
  content = content;
  timestamp = pos h.now;
  attachment = none;
}

abbrev failed_save : UserChatChannel → String
failed_save UserChatChannel.peer =
    "Failed to save Peer chat message locally. The message was not sent."
failed_save UserChatChannel.solver =
    "Failed to save Solver chat message locally. The message was not sent."

abbrev pub chat_of : UserChatChannel → Uuid → App → List UserOrderChatMessage
chat_of UserChatChannel.peer i app = unwrap_or (lookup i app.order_chats) []
chat_of UserChatChannel.solver i app = unwrap_or (lookup i app.user_dispute_chats) []

abbrev push_line : UserChatChannel → Uuid → UserOrderChatMessage → App → App
push_line UserChatChannel.peer i m app = record app {
  order_chats = insert i (chat_of UserChatChannel.peer i app ++ m ∷ []) app.order_chats;
}
push_line UserChatChannel.solver i m app = record app {
  user_dispute_chats =
      insert i (chat_of UserChatChannel.solver i app ++ m ∷ []) app.user_dispute_chats;
}

abbrev scroll_order_chat_after_send : Uuid → UserChatChannel → App → App
scroll_order_chat_after_send i channel app = record app {
  order_chat_scroll_tracker = some (i, channel, length (chat_of channel i app));
}

abbrev pub resolve_selected_order_chat_target : App → Option (Uuid × UserChatChannel)
resolve_selected_order_chat_target app =
    elim (get_elem? (build_active_order_chat_list app.messages app.my_trades_maker_book)
      app.selected_order_chat_idx) [
        | none ↦ none
        | some row ↦ some (row.order_id, app.active_user_chat_channel)
      ]

-- A line that cannot be saved is not sent and stays in the input.
send_to_order : Host → String → Option (Uuid × UserChatChannel) → App → Step
send_to_order h content none app = quiet app
send_to_order h content (some (i, channel)) app =
    if h.saves_chat
    then doing (Task.send_user_chat i channel content ∷ [])
        (record (scroll_order_chat_after_send i channel
          (push_line channel i (local_line h content) app)) {
            order_chat_input = "";
            order_chat_input_enabled = true;
          })
    else quiet (show_error (failed_save channel) app)

unfoldable pub handle_enter_user_order_chat : Host → App → Step
unfolding send_to_order
handle_enter_user_order_chat h app =
    let content = trim app.order_chat_input in
    if is_empty content || not app.order_chat_input_enabled
    then quiet app
    else send_to_order h content (resolve_selected_order_chat_target app) app
