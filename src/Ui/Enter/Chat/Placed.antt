-- ===== src/Ui/Enter/Chat/Placed.antt =====
-- key_handler/enter_handlers.rs: the role, the tab and the mode under sending a chat line.
use mostrix.Prelude.{
  ltb, ◌≡◌, refl, String, true, not, ◌||◌, Option, none, some, is_empty, trim, if_lem,
}
use mostrix.Protocol.{Uuid}
use mostrix.Disputes.{AdminDispute}
use mostrix.Ui.Mode.{UiMode, AdminMode, UserChatChannel, UserOrderChatMessage}
use mostrix.Ui.App.{App, set_mode}
use mostrix.Ui.Host.{Host}
use mostrix.Ui.TabSwitch.{is_disputes_in_progress}
use mostrix.Ui.Selection.{selected_filtered_dispute}
use mostrix.Ui.Placed.{IsPlaced, LeadsToPlaced, is_admin}
use mostrix.Ui.Enter.Chat.{
  message_counter, prepare_admin_chat_message, get_dispute_visible_message_count, push_line,
  local_line, send_to_dispute, send_to_order, resolve_selected_order_chat_target,
  handle_enter_admin_managing_dispute_chat, handle_enter_user_order_chat,
}

message_counter-IsPlaced : (i : Uuid) (app : App) → IsPlaced app → IsPlaced (message_counter i app)
message_counter-IsPlaced i app p =
    let n = get_dispute_visible_message_count app i in if_lem IsPlaced (ltb 0 n) (λ q. p) (λ q. p)

send_to_dispute-LeadsToPlaced :
    (h : Host) (s : String) (d : Option AdminDispute) (app : App)
    → IsPlaced app
    → LeadsToPlaced (send_to_dispute h s d app)
unfolding send_to_dispute
send_to_dispute-LeadsToPlaced h s none app p = p
send_to_dispute-LeadsToPlaced h s (some d) app p =
    message_counter-IsPlaced d.dispute_id (prepare_admin_chat_message h d.dispute_id s app) p

pub handle_enter_admin_managing_dispute_chat-LeadsToPlaced :
    (h : Host) (app : App)
    → IsPlaced app
    → is_admin app.user_role ≡ true
    → LeadsToPlaced (handle_enter_admin_managing_dispute_chat h app)
unfolding handle_enter_admin_managing_dispute_chat
handle_enter_admin_managing_dispute_chat-LeadsToPlaced h app p a =
    let app' = set_mode (UiMode.admin_mode AdminMode.managing_dispute) app in
    let content = trim app.admin_chat_input in
    if_lem LeadsToPlaced
      (not (is_disputes_in_progress app.active_tab)
        || is_empty content
        || not app.admin_chat_input_enabled)
      (λ q. (p.0, a, p.2))
      (λ q.
        send_to_dispute-LeadsToPlaced h content (selected_filtered_dispute h.dispute_text app') app'
          (p.0, a, p.2))

push_line-IsPlaced :
    (c : UserChatChannel) (i : Uuid) (m : UserOrderChatMessage) (app : App)
    → IsPlaced app
    → IsPlaced (push_line c i m app)
push_line-IsPlaced UserChatChannel.peer i m app p = p
push_line-IsPlaced UserChatChannel.solver i m app p = p

send_to_order-LeadsToPlaced :
    (h : Host) (s : String) (t : Option (Uuid × UserChatChannel)) (app : App)
    → IsPlaced app
    → LeadsToPlaced (send_to_order h s t app)
unfolding send_to_order
send_to_order-LeadsToPlaced h s none app p = p
send_to_order-LeadsToPlaced h s (some (i, c)) app p =
    if_lem LeadsToPlaced h.saves_chat (λ q. push_line-IsPlaced c i (local_line h s) app p)
      (λ q. (p.0, refl, p.2))

pub handle_enter_user_order_chat-LeadsToPlaced :
    (h : Host) (app : App) → IsPlaced app → LeadsToPlaced (handle_enter_user_order_chat h app)
unfolding handle_enter_user_order_chat
handle_enter_user_order_chat-LeadsToPlaced h app p =
    let content = trim app.order_chat_input in
    if_lem LeadsToPlaced (is_empty content || not app.order_chat_input_enabled) (λ q. p)
      (λ q. send_to_order-LeadsToPlaced h content (resolve_selected_order_chat_target app) app p)
