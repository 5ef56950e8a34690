-- ===== src/Ui/App.antt =====
-- ui/app_state.rs (`AppState`): the state that the key handlers and the result handlers share. A lock is
-- the value that it guards. What only the drawing reads (table and scroll offsets, the line starts of a
-- chat, the toast, the file explorer) is left out.
use mostrix.Prelude.{ℕ, suc, ◌-◌, ◌^◌, min, ℤ, String, Bool, true, false, Option, none, List, []}
use mostrix.Protocol.{Uuid, Keys}
use mostrix.Messages.{OrderMessage}
use mostrix.Disputes.{AdminDispute}
use mostrix.Dm.{ChatParty}
use mostrix.Ui.Tabs.{UserRole, Tab, first}
use mostrix.Ui.Form.{FormState}
use mostrix.Ui.Mode.{
  UiMode, OperationResult, BuyerInvoicePreference, OrderChatStaticHeader, UserOrderChatMessage,
  DisputeChatMessage, PreparedOrderChatAttachment, UserChatChannel, DisputeFilter, default_for_role,
}
use mostrix.Ui.Sidebar.{OrderChatListItem}

pub record App : Type 0 where
  pub user_role : UserRole
  pub active_tab : Tab
  pub mode : UiMode
  pub selected_order_id : Option Uuid
  pub selected_pending_dispute_id : Option Uuid
  pub selected_dispute_id : Option Uuid
  pub selected_settings_option : ℕ
  pub selected_message_idx : ℕ
  pub selected_order_chat_idx : ℕ
  pub active_chat_party : ChatParty
  pub admin_chat_input : String
  pub admin_chat_input_enabled : Bool
  pub admin_dispute_chats : List (Uuid × List DisputeChatMessage)
  pub admin_chat_selected_message_idx : Option ℕ
  pub admin_chat_scroll_tracker : Option (Uuid × ChatParty × ℕ)
  pub messages : List OrderMessage
  pub active_order_trade_indices : List (Uuid × ℤ)
  pub dropped_user_history_order_ids : List Uuid
  pub startup_popup_floor_ts : List (Uuid × ℕ)
  pub buyer_invoice_preference : List (Uuid × BuyerInvoicePreference)
  pub order_chat_input : String
  pub order_chat_input_enabled : Bool
  pub order_chat_static : List (Uuid × OrderChatStaticHeader)
  pub my_trades_maker_book : List OrderChatListItem
  pub order_chats : List (Uuid × List UserOrderChatMessage)
  pub user_dispute_chats : List (Uuid × List UserOrderChatMessage)
  pub active_user_chat_channel : UserChatChannel
  pub order_chat_selected_message_idx : Option ℕ
  pub order_chat_scroll_tracker : Option (Uuid × UserChatChannel × ℕ)
  pub order_chat_last_seen : List (Uuid × Option ℤ)
  pub pending_notifications : ℕ
  pub admin_disputes_in_progress : List AdminDispute
  pub dispute_filter : DisputeFilter
  pub pending_order_attachment_sends : List (Uuid × PreparedOrderChatAttachment)
  pub sending_attachment_order_id : Option Uuid
  pub observer_shared_key_input : String
  pub observer_messages : List DisputeChatMessage
  pub observer_loading : Bool
  pub observer_error : Option String
  pub observer_fetch_generation : ℕ
  pub admin_keys : Option Keys
  pub pending_admin_disputes_reload : Bool
  pub currencies_filter : List String
  pub offline_overlay_message : Option String
  pub backup_requires_restart : Bool
  pub pending_key_reload : Bool
  pub pending_fetch_scheduler_reload : Bool
  pub pending_post_take_operation_result : Option OperationResult
  pub fatal_exit_on_close : Bool
  pub order_form_draft : Option FormState

abbrev pub new_app : UserRole → App
new_app role = record {
  user_role = role;
  active_tab = first role;
  mode = default_for_role role;
  selected_order_id = none;
  selected_pending_dispute_id = none;
  selected_dispute_id = none;
  selected_settings_option = 0;
  selected_message_idx = 0;
  selected_order_chat_idx = 0;
  active_chat_party = ChatParty.buyer;
  admin_chat_input = "";
  admin_chat_input_enabled = true;
  admin_dispute_chats = [];
  admin_chat_selected_message_idx = none;
  admin_chat_scroll_tracker = none;
  messages = [];
  active_order_trade_indices = [];
  dropped_user_history_order_ids = [];
  startup_popup_floor_ts = [];
  buyer_invoice_preference = [];
  order_chat_input = "";
  order_chat_input_enabled = true;
  order_chat_static = [];
  my_trades_maker_book = [];
  order_chats = [];
  user_dispute_chats = [];
  active_user_chat_channel = UserChatChannel.peer;
  order_chat_selected_message_idx = none;
  order_chat_scroll_tracker = none;
  order_chat_last_seen = [];
  pending_notifications = 0;
  admin_disputes_in_progress = [];
  dispute_filter = DisputeFilter.in_progress;
  pending_order_attachment_sends = [];
  sending_attachment_order_id = none;
  observer_shared_key_input = "";
  observer_messages = [];
  observer_loading = false;
  observer_error = none;
  observer_fetch_generation = 0;
  admin_keys = none;
  pending_admin_disputes_reload = false;
  currencies_filter = [];
  offline_overlay_message = none;
  backup_requires_restart = false;
  pending_key_reload = false;
  pending_fetch_scheduler_reload = false;
  pending_post_take_operation_result = none;
  fatal_exit_on_close = false;
  order_form_draft = none;
}

abbrev pub set_mode : UiMode → App → App
set_mode mode app = record app { mode = mode }

-- `saturating_add(1)` on a `u64`
abbrev pub next_generation : ℕ → ℕ
next_generation g = min (suc g) (2 ^ 64 - 1)

-- The new generation is that of the new state.
unfoldable pub begin_observer_fetch : App → App
begin_observer_fetch app = record app {
  observer_fetch_generation = next_generation app.observer_fetch_generation;
  observer_messages = [];
  observer_error = none;
  observer_loading = true;
}

-- Wiped texts are empty afterwards.
unfoldable pub clear_observer_secrets : App → App
clear_observer_secrets app = record app {
  observer_fetch_generation = next_generation app.observer_fetch_generation;
  observer_shared_key_input = "";
  observer_messages = [];
  observer_loading = false;
  observer_error = none;
}

unfoldable pub switch_role : UserRole → App → App
unfolding clear_observer_secrets
switch_role new_role app = clear_observer_secrets (record app {
  user_role = new_role;
  active_tab = first new_role;
  mode = default_for_role new_role;
  selected_pending_dispute_id = none;
  selected_settings_option = 0;
  selected_order_id = none;
  selected_dispute_id = none;
  active_chat_party = ChatParty.buyer;
  admin_chat_input = "";
  offline_overlay_message = none;
})

-- key_handler/settings.rs, without the write of the settings file.
unfoldable pub handle_mode_switch : App → App
unfolding switch_role
handle_mode_switch app = elim app.user_role [
  | UserRole.user ↦ record (switch_role UserRole.admin app) { pending_admin_disputes_reload = true }
  | UserRole.admin ↦ switch_role UserRole.user app
]
