-- ===== src/Ui/Keyboard/Attachments.antt =====
-- key_handler/mod.rs, helpers/chat_visibility.rs and send_attachment_picker.rs: the popups that save and
-- send attachments. The file explorer of the picker is another crate's, which the host answers for.
pub mod Placed
use mathlib.Core.Option
use Prim.Native.String.{[] as empty, ◌∷◌ as cons, ◌++◌}
use mostrix.Prelude.{
  ℕ, zero, suc, ◌+◌, ◌-◌, String, Bool, true, false, not, ◌&&◌, ◌||◌, Option, none, some, List, [],
  ◌∷◌, length, get_elem?, retain, any, is_some, is_some_and, and_then, or, unwrap_or, lookup, ltb,
  trim, is_empty, if◌then◌else◌,
}
use mostrix.Protocol.{Uuid, Keys}
use mostrix.Disputes.{AdminDispute}
use mostrix.Ui.UserTab.{UserTab}
use mostrix.Ui.Tabs.{Tab}
use mostrix.Ui.Mode.{
  UiMode, UserMode, AdminMode, OperationResult, ChatAttachment, ChatSender, DisputeChatMessage,
  UserOrderChatMessage, UserChatChannel, PreparedOrderChatAttachment, user_my_trades_interactive,
}
use mostrix.Ui.App.{App, set_mode}
use mostrix.Ui.Host.{Host}
use mostrix.Ui.Task.{Task, Step, quiet, doing}
use mostrix.Ui.TabSwitch.{is_observer, is_disputes_in_progress, is_managing_dispute}
use mostrix.Ui.Selection.{selected_filtered_dispute}
use mostrix.Ui.Arrows.{active_order_chat_list_snapshot}
use mostrix.Ui.Enter.Chat.{message_visible_for_party}
use mostrix.Ui.Enter.Dispute.{admin_chat_keys_clone_for_role, show_error}
use mostrix.Ui.Key.{KeyCode, KeyEvent, types, either_of}
use mostrix.Ui.Keyboard.Flow.{KeyFlow, handled}

-- helpers/attachments.rs
abbrev pub attachment_is_saveable : ChatAttachment → Bool
attachment_is_saveable a = not (is_empty (trim a.blossom_url))

unfoldable pub get_visible_attachment_messages : App → Uuid → List DisputeChatMessage
get_visible_attachment_messages app i =
    retain
      (λ m.
        message_visible_for_party app.active_chat_party m
        && is_some_and m.attachment attachment_is_saveable)
      (unwrap_or (lookup i app.admin_dispute_chats) [])

unfoldable pub get_order_attachment_messages : App → Uuid → List UserOrderChatMessage
get_order_attachment_messages app i =
    retain (λ m. is_some_and m.attachment attachment_is_saveable)
      (unwrap_or (lookup i app.order_chats) [])

-- What a key does in a popup with a list of `n` attachments, `i` highlighted.
pub data ListKey : Type 0 where
  leaves saves stays : ListKey
  moves : ℕ → ListKey

unfoldable pub list_key : KeyCode → ℕ → ℕ → ListKey
list_key KeyCode.esc n i = leaves
list_key KeyCode.enter n i = saves
list_key KeyCode.up n i = if ltb 0 i then moves (i - 1) else stays
list_key KeyCode.down n i = if ltb 0 n && ltb (i + 1) n then moves (i + 1) else stays
list_key _ n i = stays

-- The popup at the highlighted index, where it goes back to, and what Enter sets off.
abbrev list_popup : ListKey → (ℕ → UiMode) → UiMode → List Task → App → KeyFlow
list_popup leaves popup back tasks app = handled (set_mode back app)
list_popup saves popup back tasks app = KeyFlow.done (doing tasks (set_mode back app))
list_popup stays popup back tasks app = handled app
list_popup (moves i) popup back tasks app = handled (set_mode (popup i) app)

-- The key of the sender's party; an admin's own attachment has none.
abbrev sender_pubkey : ChatSender → AdminDispute → Option String
sender_pubkey ChatSender.buyer d = d.buyer_pubkey
sender_pubkey ChatSender.seller d = d.seller_pubkey
sender_pubkey ChatSender.admin d = none

abbrev with_key : Option (List ℕ) → ChatAttachment → ChatAttachment
with_key key a = record a { decryption_key = or a.decryption_key key }

abbrev derived_key : Host → App → AdminDispute → DisputeChatMessage → Option (List ℕ)
derived_key h app d m =
    and_then (admin_chat_keys_clone_for_role app)
      (λ keys. and_then (sender_pubkey m.sender d) (h.admin_attachment_key keys))

abbrev pub optional : Option Task → List Task
optional none = []
optional (some t) = t ∷ []

dispute_save : Host → App → Option AdminDispute → ℕ → List Task
unfolding get_visible_attachment_messages
dispute_save h app none i = []
dispute_save h app (some d) i = optional (
    and_then (get_elem? (get_visible_attachment_messages app d.dispute_id) i) (λ m.
      Option.map
        (λ a. Task.save_dispute_attachment d.dispute_id (with_key (derived_key h app d m) a))
        m.attachment))

abbrev attachments_of : App → Option AdminDispute → ℕ
attachments_of app none = 0
attachments_of app (some d) = length (get_visible_attachment_messages app d.dispute_id)

save_in : Host → KeyCode → UiMode → App → KeyFlow
unfolding list_key dispute_save
save_in h k (UiMode.save_attachment_popup i) app =
    let d = selected_filtered_dispute h.dispute_text app in
    list_popup (list_key k (attachments_of app d) i) UiMode.save_attachment_popup
      (UiMode.admin_mode AdminMode.managing_dispute) (dispute_save h app d i) app
save_in h k mode app = KeyFlow.pass app

unfoldable pub save_popup : Host → KeyEvent → App → KeyFlow
unfolding save_in
save_popup h e app = save_in h e.code app.mode app

-- `close_user_send_attachment_picker`
abbrev close_picker : App → App
close_picker app = set_mode (UiMode.user_mode UserMode.normal) app

-- Enter sends the selected file, if that can be sent.
abbrev send_picked : Uuid → Option String → App → KeyFlow
send_picked i none app = handled app
send_picked i (some path) app = KeyFlow.done (
    doing (Task.send_attachment i path ∷ [])
      (close_picker (record app { sending_attachment_order_id = some i })))

picker_key : Host → KeyCode → Uuid → App → KeyFlow
picker_key h KeyCode.esc i app = handled (close_picker app)
picker_key h KeyCode.enter i app = send_picked i h.picked_file app
picker_key h k i app = handled app

picker_in : Host → KeyCode → UiMode → App → KeyFlow
unfolding picker_key
picker_in h k (UiMode.user_send_attachment_picker i) app = picker_key h k i app
picker_in h k mode app = KeyFlow.pass app

unfoldable pub send_picker : Host → KeyEvent → App → KeyFlow
unfolding picker_in
send_picker h e app = picker_in h e.code app.mode app

order_save : App → Uuid → ℕ → List Task
unfolding get_order_attachment_messages
order_save app order i = optional (
    and_then (get_elem? (get_order_attachment_messages app order) i)
      (λ m. Option.map (Task.save_order_attachment order) m.attachment))

user_save_in : KeyCode → UiMode → App → KeyFlow
unfolding list_key order_save
user_save_in k (UiMode.user_save_attachment_popup order i) app =
    list_popup (list_key k (length (get_order_attachment_messages app order)) i)
      (UiMode.user_save_attachment_popup order) (UiMode.user_mode UserMode.normal)
      (order_save app order i) app
user_save_in k mode app = KeyFlow.pass app

unfoldable pub user_save_popup : KeyEvent → App → KeyFlow
unfolding user_save_in
user_save_popup e app = user_save_in e.code app.mode app

-- Every attachment of the observed chat, whether it can be saved or not.
abbrev observed : List DisputeChatMessage → List ChatAttachment
observed [] = []
observed (m ∷ ms) = elim m.attachment [ none ↦ observed ms | some a ↦ a ∷ observed ms ]

-- `chars().take(n)`
abbrev take_chars : ℕ → String → String
take_chars (suc n) (cons c s) = cons c (take_chars n s)
take_chars _ s = ""

observer_save : Host → App → ℕ → List Task
observer_save h app i = optional (
    Option.map
      (λ a.
        Task.save_observer_attachment ("observer_" ++ take_chars 8 app.observer_shared_key_input)
          (with_key (h.observer_attachment_key app.observer_shared_key_input) a))
      (get_elem? (observed app.observer_messages) i))

observer_in : Host → KeyCode → UiMode → App → KeyFlow
unfolding list_key observer_save
observer_in h k (UiMode.observer_save_attachment_popup i) app =
    list_popup (list_key k (length (observed app.observer_messages)) i)
      UiMode.observer_save_attachment_popup (UiMode.admin_mode AdminMode.normal)
      (observer_save h app i) app
observer_in h k mode app = KeyFlow.pass app

unfoldable pub observer_save_popup : Host → KeyEvent → App → KeyFlow
unfolding observer_in
observer_save_popup h e app = observer_in h e.code app.mode app

abbrev pub is_my_trades : Tab → Bool
is_my_trades (Tab.user UserTab.my_trades) = true
is_my_trades _ = false

abbrev is_peer : UserChatChannel → Bool
is_peer UserChatChannel.peer = true
is_peer UserChatChannel.solver = false

-- The order whose chat with the peer is open on My Trades.
abbrev peer_chat : App → Option Uuid
peer_chat app =
    if is_my_trades app.active_tab
      && user_my_trades_interactive app.mode
      && is_peer app.active_user_chat_channel
    then Option.map (λ row. row.order_id)
        (get_elem? (active_order_chat_list_snapshot app) app.selected_order_chat_idx)
    else none

-- The popup of Ctrl+S, if there is anything to save. The Observer tab does not ask for the mode.
attachments_mode : Host → App → Option UiMode
unfolding get_order_attachment_messages
attachments_mode h app =
    if is_disputes_in_progress app.active_tab
    then (if is_managing_dispute app.mode
          && ltb 0 (attachments_of app (selected_filtered_dispute h.dispute_text app))
        then some (UiMode.save_attachment_popup 0)
        else none)
    else if is_observer app.active_tab
    then (if any (λ m. is_some m.attachment) app.observer_messages
        then some (UiMode.observer_save_attachment_popup 0)
        else none)
    else and_then (peer_chat app) (λ i.
      if ltb 0 (length (get_order_attachment_messages app i))
      then some (UiMode.user_save_attachment_popup i 0)
      else none)

abbrev go_on_or : App → Option UiMode → KeyFlow
go_on_or app none = KeyFlow.pass app
go_on_or app (some mode) = handled (set_mode mode app)

unfoldable pub open_attachments : Host → KeyEvent → App → KeyFlow
unfolding attachments_mode
open_attachments h e app =
    if e.control && types b's' e.code
    then go_on_or app (attachments_mode h app)
    else KeyFlow.pass app

-- A file that was uploaded before is sent again.
abbrev retry : Uuid → Option PreparedOrderChatAttachment → App → KeyFlow
retry i none app = handled app
retry i (some prepared) app = KeyFlow.done (
    doing (Task.retry_attachment prepared ∷ [])
      (record app { sending_attachment_order_id = some i }))

abbrev open_user_send_attachment_picker : Host → Uuid → App → App
open_user_send_attachment_picker h i app = elim h.picker_error [
  | none ↦ set_mode (UiMode.user_send_attachment_picker i) app
  | some e ↦ show_error ("Could not open file picker: " ++ e) app
]

start_sending : Host → Bool → Option Uuid → App → KeyFlow
start_sending h again none app = KeyFlow.pass app
start_sending h again (some i) app =
    if is_some app.sending_attachment_order_id
    then handled app
    else if again
    then retry i (lookup i app.pending_order_attachment_sends) app
    else handled (open_user_send_attachment_picker h i app)

-- Ctrl+O opens the picker, Ctrl+Shift+O retries; one attachment at a time.
unfoldable pub open_send_picker : Host → KeyEvent → App → KeyFlow
unfolding start_sending
open_send_picker h e app =
    if e.control && either_of b'o' b'O' e.code
    then start_sending h e.shift (peer_chat app) app
    else KeyFlow.pass app
