-- ===== src/Ui/Keyboard/Attachments/Placed.antt =====
-- key_handler/mod.rs: the role, the tab and the mode under the attachment popups.
use mathlib.Core.Option
use mostrix.Prelude.{
  ℕ, if◌then◌else◌, ◌≡◌, refl, String, Bool, true, ◌&&◌, Option, none, some, List, OnSome, length,
  any, get_elem?, is_some, and_then, ltb, if_lem, option_lem, lookup, Bool-cases, inl, inr,
}
use mostrix.Protocol.{Uuid}
use mostrix.Ui.Tabs.{UserRole, Tab}
use mostrix.Ui.Mode.{
  UiMode, UserMode, AdminMode, PreparedOrderChatAttachment, user_my_trades_interactive,
}
use mostrix.Ui.App.{App}
use mostrix.Ui.Host.{Host}
use mostrix.Ui.Task.{Task}
use mostrix.Ui.TabSwitch.{is_observer, is_disputes_in_progress, is_managing_dispute}
use mostrix.Ui.Selection.{selected_filtered_dispute}
use mostrix.Ui.Sidebar.{OrderChatListItem}
use mostrix.Ui.Arrows.{active_order_chat_list_snapshot}
use mostrix.Ui.Key.{KeyCode, KeyEvent, types, either_of}
use mostrix.Ui.Placed.{IsPlaced, IsTabOf, is_user, disputes_tab-is_admin, observer_tab-is_admin}
use mostrix.Ui.Keyboard.Attachments.{
  ListKey, list_popup, list_key, save_in, save_popup, attachments_of, dispute_save, send_picked,
  picker_key, picker_in, send_picker, user_save_in, user_save_popup, get_order_attachment_messages,
  order_save, observed, observer_save, observer_in, observer_save_popup, is_my_trades, is_peer,
  peer_chat, attachments_mode, go_on_or, open_attachments, retry, open_user_send_attachment_picker,
  start_sending, open_send_picker,
}
use mostrix.Ui.Keyboard.Keeping.{Keeps, Fit, Fits}

list_popup-Keeps :
    (k : ListKey) (popup : ℕ → UiMode) (back : UiMode) (tasks : List Task) (app : App)
    → IsPlaced app
    → ((i : ℕ) → Fit app.user_role (popup i))
    → Fit app.user_role back
    → Keeps (list_popup k popup back tasks app)
list_popup-Keeps ListKey.leaves popup back tasks app p f b = (p.0, b, p.2)
list_popup-Keeps ListKey.saves popup back tasks app p f b = (p.0, b, p.2)
list_popup-Keeps ListKey.stays popup back tasks app p f b = p
list_popup-Keeps (ListKey.moves i) popup back tasks app p f b = (p.0, f i, p.2)

save_in-Keeps :
    (h : Host) (k : KeyCode) (m : UiMode) (app : App)
    → IsPlaced app
    → Fit app.user_role m
    → Keeps (save_in h k m app)
unfolding save_in
save_in-Keeps h k (UiMode.save_attachment_popup i) app p q =
    let d = selected_filtered_dispute h.dispute_text app in
    list_popup-Keeps (list_key k (attachments_of app d) i) UiMode.save_attachment_popup
      (UiMode.admin_mode AdminMode.managing_dispute) (dispute_save h app d i) app p (λ j. q) q
save_in-Keeps h k m app p q = p

pub save_popup-Keeps :
    (h : Host) (e : KeyEvent) (app : App) → IsPlaced app → Keeps (save_popup h e app)
unfolding save_popup
save_popup-Keeps h e app p = save_in-Keeps h e.code app.mode app p p.1

send_picked-Keeps :
    (i : Uuid) (o : Option String) (app : App)
    → IsPlaced app
    → is_user app.user_role ≡ true
    → Keeps (send_picked i o app)
send_picked-Keeps i none app p q = p
send_picked-Keeps i (some path) app p q = (p.0, q, p.2)

picker_key-Keeps :
    (h : Host) (k : KeyCode) (i : Uuid) (app : App)
    → IsPlaced app
    → is_user app.user_role ≡ true
    → Keeps (picker_key h k i app)
unfolding picker_key
picker_key-Keeps h KeyCode.esc i app p q = (p.0, q, p.2)
picker_key-Keeps h KeyCode.enter i app p q = send_picked-Keeps i h.picked_file app p q
picker_key-Keeps h k i app p q = p

picker_in-Keeps :
    (h : Host) (k : KeyCode) (m : UiMode) (app : App)
    → IsPlaced app
    → Fit app.user_role m
    → Keeps (picker_in h k m app)
unfolding picker_in
picker_in-Keeps h k (UiMode.user_send_attachment_picker i) app p q = picker_key-Keeps h k i app p q
picker_in-Keeps h k m app p q = p

pub send_picker-Keeps :
    (h : Host) (e : KeyEvent) (app : App) → IsPlaced app → Keeps (send_picker h e app)
unfolding send_picker
send_picker-Keeps h e app p = picker_in-Keeps h e.code app.mode app p p.1

user_save_in-Keeps :
    (k : KeyCode) (m : UiMode) (app : App)
    → IsPlaced app
    → Fit app.user_role m
    → Keeps (user_save_in k m app)
unfolding user_save_in
user_save_in-Keeps k (UiMode.user_save_attachment_popup order i) app p q =
    list_popup-Keeps (list_key k (length (get_order_attachment_messages app order)) i)
      (UiMode.user_save_attachment_popup order) (UiMode.user_mode UserMode.normal)
      (order_save app order i) app p (λ j. q) q
user_save_in-Keeps k m app p q = p

pub user_save_popup-Keeps :
    (e : KeyEvent) (app : App) → IsPlaced app → Keeps (user_save_popup e app)
unfolding user_save_popup
user_save_popup-Keeps e app p = user_save_in-Keeps e.code app.mode app p p.1

observer_in-Keeps :
    (h : Host) (k : KeyCode) (m : UiMode) (app : App)
    → IsPlaced app
    → Fit app.user_role m
    → Keeps (observer_in h k m app)
unfolding observer_in
observer_in-Keeps h k (UiMode.observer_save_attachment_popup i) app p q =
    list_popup-Keeps (list_key k (length (observed app.observer_messages)) i)
      UiMode.observer_save_attachment_popup (UiMode.admin_mode AdminMode.normal)
      (observer_save h app i) app p (λ j. q) q
observer_in-Keeps h k m app p q = p

pub observer_save_popup-Keeps :
    (h : Host) (e : KeyEvent) (app : App) → IsPlaced app → Keeps (observer_save_popup h e app)
unfolding observer_save_popup
observer_save_popup-Keeps h e app p = observer_in-Keeps h e.code app.mode app p p.1

trades_tab-is_user :
    (r : UserRole) (t : Tab) → IsTabOf r t → is_my_trades t ≡ true → is_user r ≡ true
trades_tab-is_user UserRole.user t p q = refl
trades_tab-is_user UserRole.admin (Tab.admin t) p q = cc
trades_tab-is_user UserRole.admin (Tab.user t) p q = absurd p

peer_chat-IsUser :
    (app : App) → IsPlaced app → OnSome (λ i. is_user app.user_role ≡ true) (peer_chat app)
peer_chat-IsUser app p = elim (Bool-cases (is_my_trades app.active_tab)) [
  | inl t ↦
      if_lem (OnSome (λ i. is_user app.user_role ≡ true))
        (is_my_trades app.active_tab
          && user_my_trades_interactive app.mode
          && is_peer app.active_user_chat_channel)
        (λ q.
          some_of app.user_role
            (get_elem? (active_order_chat_list_snapshot app) app.selected_order_chat_idx)
            (trades_tab-is_user app.user_role app.active_tab p.0 t))
        (λ q. tt)
  | inr t ↦ rw t tt
]
  where
    some_of :
        (a : UserRole) (o : Option OrderChatListItem)
        → is_user a ≡ true
        → OnSome (λ i. is_user a ≡ true) (Option.map (λ row. row.order_id) o)
    some_of a none q = tt
    some_of a (some x) q = q

user_popup-Fits :
    (app : App) (o : Option Uuid)
    → OnSome (λ i. is_user app.user_role ≡ true) o
    → Fits app.user_role (
        and_then o (λ i.
          if ltb 0 (length (get_order_attachment_messages app i))
          then some (UiMode.user_save_attachment_popup i 0)
          else none))
user_popup-Fits app none q = tt
user_popup-Fits app (some i) q =
    if_lem (Fits app.user_role) (ltb 0 (length (get_order_attachment_messages app i))) (λ w. q)
      (λ w. tt)

attachments_mode-Fits :
    (h : Host) (app : App) → IsPlaced app → Fits app.user_role (attachments_mode h app)
unfolding attachments_mode
attachments_mode-Fits h app p =
    if_lem (Fits app.user_role) (is_disputes_in_progress app.active_tab)
      (λ t.
        if_lem (Fits app.user_role)
          (is_managing_dispute app.mode
            && ltb 0 (attachments_of app (selected_filtered_dispute h.dispute_text app)))
          (λ w. disputes_tab-is_admin app.user_role app.active_tab p.0 t) (λ w. tt))
      (λ t.
        if_lem (Fits app.user_role) (is_observer app.active_tab)
          (λ v.
            if_lem (Fits app.user_role) (any (λ m. is_some m.attachment) app.observer_messages)
              (λ w. observer_tab-is_admin app.user_role app.active_tab p.0 v) (λ w. tt))
          (λ v. user_popup-Fits app (peer_chat app) (peer_chat-IsUser app p)))

go_on_or-Keeps :
    (app : App) (o : Option UiMode) → IsPlaced app → Fits app.user_role o → Keeps (go_on_or app o)
go_on_or-Keeps app none p q = p
go_on_or-Keeps app (some m) p q = (p.0, q, p.2)

pub open_attachments-Keeps :
    (h : Host) (e : KeyEvent) (app : App) → IsPlaced app → Keeps (open_attachments h e app)
unfolding open_attachments
open_attachments-Keeps h e app p =
    if_lem Keeps (e.control && types b's' e.code)
      (λ w. go_on_or-Keeps app (attachments_mode h app) p (attachments_mode-Fits h app p)) (λ w. p)

retry-Keeps :
    (i : Uuid) (o : Option PreparedOrderChatAttachment) (app : App)
    → IsPlaced app
    → Keeps (retry i o app)
retry-Keeps i none app p = p
retry-Keeps i (some x) app p = p

open_picker-IsPlaced :
    (h : Host) (i : Uuid) (app : App)
    → IsPlaced app
    → is_user app.user_role ≡ true
    → IsPlaced (open_user_send_attachment_picker h i app)
open_picker-IsPlaced h i app p q =
    option_lem {B = App} IsPlaced h.picker_error (λ w. (p.0, q, p.2)) (λ x w. (p.0, refl, p.2))

start_sending-Keeps :
    (h : Host) (again : Bool) (o : Option Uuid) (app : App)
    → IsPlaced app
    → OnSome (λ i. is_user app.user_role ≡ true) o
    → Keeps (start_sending h again o app)
unfolding start_sending
start_sending-Keeps h again none app p q = p
start_sending-Keeps h again (some i) app p q =
    if_lem Keeps (is_some app.sending_attachment_order_id) (λ w. p)
      (λ w.
        if_lem Keeps again (λ v. retry-Keeps i (lookup i app.pending_order_attachment_sends) app p)
          (λ v. open_picker-IsPlaced h i app p q))

pub open_send_picker-Keeps :
    (h : Host) (e : KeyEvent) (app : App) → IsPlaced app → Keeps (open_send_picker h e app)
unfolding open_send_picker
open_send_picker-Keeps h e app p =
    if_lem Keeps (e.control && either_of b'o' b'O' e.code)
      (λ w. start_sending-Keeps h e.shift (peer_chat app) app p (peer_chat-IsUser app p)) (λ w. p)
