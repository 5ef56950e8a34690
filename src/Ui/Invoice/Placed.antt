-- ===== src/Ui/Invoice/Placed.antt =====
-- util/dm_utils/notifications_ch_mng.rs: the role, the tab and the mode under an invoice popup.
use mostrix.Prelude.{
  ◌≡◌, refl, Bool, true, false, not, ◌&&◌, String, Option, none, some, List, and_then, lookup, find,
  OnSome, if_lem, option_lem,
}
use mostrix.Protocol.{Uuid, Action}
use mostrix.Messages.{OrderMessage, MessageNotification}
use mostrix.Messages.Popup.{
  invoice_popup_allowed_for_order_status, local_user_must_act_on_invoice_popup,
}
use mostrix.Dm.{is_row_of}
use mostrix.Ui.Tabs.{UserRole}
use mostrix.Ui.Mode.{BuyerInvoicePreference}
use mostrix.Ui.App.{App}
use mostrix.Ui.Host.{Host}
use mostrix.Ui.Placed.{IsPlaced, mode_fits}
use mostrix.Ui.Invoice.{
  preferred, saved_address, present_add_invoice_popup, invoice_popup_mode, remember_choice,
  apply_saved_ln_address_invoice_choice, remember_open_invoice_order_message, gate_action,
  actionable, apply_open_invoice_popup_from_execute, check_row, is_historical,
  check_if_popup_should_be_shown, hydrate_header, show_popup, is_invoice_action,
  handle_message_notification,
}

preferred_fits :
    (n : MessageNotification) (s : String) (o : Option BuyerInvoicePreference) (r : UserRole)
    → mode_fits r (preferred n s o) ≡ true
unfolding preferred
preferred_fits n s (some BuyerInvoicePreference.manual_invoice) r = refl
preferred_fits n s (some BuyerInvoicePreference.use_saved_ln_address) r = refl
preferred_fits n s none r = refl

pub present_fits :
    (ln : Option String) (ps : List (Uuid × BuyerInvoicePreference)) (n : MessageNotification)
    (r : UserRole)
    → mode_fits r (present_add_invoice_popup ln ps n) ≡ true
unfolding present_add_invoice_popup
present_fits ln ps n r =
    option_lem (λ m. mode_fits r m ≡ true) (saved_address ln) (λ q. refl)
      (λ s q. preferred_fits n s (and_then n.order_id (λ i. lookup i ps)) r)

invoice_popup_fits :
    (ln : Option String) (ps : List (Uuid × BuyerInvoicePreference)) (n : MessageNotification)
    (a : Action) (r : UserRole)
    → mode_fits r (invoice_popup_mode ln ps n a) ≡ true
invoice_popup_fits ln ps n Action.add_invoice r = present_fits ln ps n r
invoice_popup_fits ln ps n Action.add_bond_invoice r = refl
invoice_popup_fits ln ps n a r = refl

remember_choice-IsPlaced :
    (i : Option Uuid) (s : Option String) (b : Bool) (app : App)
    → IsPlaced app
    → IsPlaced (remember_choice i s b app)
unfolding remember_choice
remember_choice-IsPlaced none s b app p = p
remember_choice-IsPlaced (some i) none true app p = p
remember_choice-IsPlaced (some i) (some s) true app p = p
remember_choice-IsPlaced (some i) none false app p = p
remember_choice-IsPlaced (some i) (some s) false app p = p

pub apply_saved_ln_address_invoice_choice-IsPlaced :
    (h : Host) (n : MessageNotification) (b : Bool) (app : App)
    → IsPlaced app
    → IsPlaced (apply_saved_ln_address_invoice_choice h n b app)
unfolding apply_saved_ln_address_invoice_choice
apply_saved_ln_address_invoice_choice-IsPlaced h n b app p =
    let p' = remember_choice-IsPlaced n.order_id (saved_address h.ln_address) b app p in
    (p'.0, refl, p'.2)

remember_open_invoice_order_message-IsPlaced :
    (m : OrderMessage) (app : App)
    → IsPlaced app
    → IsPlaced (remember_open_invoice_order_message m app)
remember_open_invoice_order_message-IsPlaced m app p =
    option_lem IsPlaced m.order_id (λ q. p) (λ i q. p)

pub apply_open_invoice_popup_from_execute-IsPlaced :
    (h : Host) (n : MessageNotification) (m : OrderMessage) (app : App)
    → IsPlaced app
    → IsPlaced (apply_open_invoice_popup_from_execute h n m app)
unfolding apply_open_invoice_popup_from_execute
apply_open_invoice_popup_from_execute-IsPlaced h n m app p =
    let app' = remember_open_invoice_order_message m app in
    let p' = remember_open_invoice_order_message-IsPlaced m app p in
    let acting = actionable h n m in
    if_lem IsPlaced
      (not (invoice_popup_allowed_for_order_status (gate_action n.action) m.order_status)) (λ q. p')
      (λ q.
        if_lem IsPlaced (local_user_must_act_on_invoice_popup m (gate_action n.action))
          (λ q'. (
            p'.0,
            invoice_popup_fits h.ln_address app'.buyer_invoice_preference acting acting.action
                app'.user_role,
            p'.2,
          ))
          (λ q'. (p'.0, refl, p'.2)))

hydrate_header-IsPlaced :
    (n : MessageNotification) (app : App) → IsPlaced app → IsPlaced (hydrate_header n app)
unfolding hydrate_header
hydrate_header-IsPlaced n app p =
    option_lem IsPlaced n.order_id (λ q. p)
      (λ i q. option_lem IsPlaced (lookup i app.order_chat_static) (λ q'. p) (λ h q'. p))

show_popup-IsPlaced :
    (ln : Option String) (n : MessageNotification) (r : App × Bool)
    → IsPlaced r.0
    → IsPlaced (show_popup ln n r)
unfolding show_popup
show_popup-IsPlaced ln n (app, b) p =
    if_lem IsPlaced b
      (λ q. (p.0, invoice_popup_fits ln app.buyer_invoice_preference n n.action app.user_role, p.2))
      (λ q. p)

check_row-IsPlaced :
    (n : MessageNotification) (i : Uuid) (app : App) (m : OrderMessage)
    → IsPlaced app
    → IsPlaced (check_row n i app m).0
unfolding check_row
check_row-IsPlaced n i app m p =
    if_lem {A = App × Bool} (λ r. IsPlaced r.0)
      (invoice_popup_allowed_for_order_status n.action m.order_status
        && local_user_must_act_on_invoice_popup m n.action
        && not m.auto_popup_shown)
      (λ q. p) (λ q. p)

-- Of a popup decision, where there is one.
abbrev Decided : Option (App × Bool) → Type 0
Decided o = OnSome (λ r. IsPlaced r.0) o

check_if_popup_should_be_shown-Decided :
    (n : MessageNotification) (app : App)
    → IsPlaced app
    → Decided (check_if_popup_should_be_shown n app)
unfolding check_if_popup_should_be_shown
check_if_popup_should_be_shown-Decided n app p =
    if_lem Decided (is_historical n app) (λ q. p)
      (λ q.
        option_lem Decided n.order_id (λ q'. p)
          (λ i q'.
            option_lem Decided (find (is_row_of i) app.messages) (λ e. tt)
              (λ m e. check_row-IsPlaced n i app m p)))

show_popup_if-IsPlaced :
    (ln : Option String) (n : MessageNotification) (o : Option (App × Bool))
    → Decided o
    → OnSome IsPlaced (elim o [ none ↦ none | some r ↦ some (show_popup ln n r) ])
show_popup_if-IsPlaced ln n none d = tt
show_popup_if-IsPlaced ln n (some r) d = show_popup-IsPlaced ln n r d

pub handle_message_notification-IsPlaced :
    (h : Host) (n : MessageNotification) (app : App)
    → IsPlaced app
    → OnSome IsPlaced (handle_message_notification h n app)
unfolding handle_message_notification
handle_message_notification-IsPlaced h n app p =
    let app' = hydrate_header n app in
    let p' = hydrate_header-IsPlaced n app p in
    if_lem (OnSome IsPlaced) (is_invoice_action n.action)
      (λ q.
        show_popup_if-IsPlaced h.ln_address n (check_if_popup_should_be_shown n app')
          (check_if_popup_should_be_shown-Decided n app' p'))
      (λ q. p')
