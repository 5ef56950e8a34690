-- ===== src/Ui/Enter/Placed.antt =====
-- key_handler/enter_handlers.rs: the role, the tab and the mode under Enter.
use mostrix.Prelude.{
  ◌≡◌, refl, String, Bool, true, false, Option, none, some, is_empty, trim, if_lem,
}
use mostrix.Protocol.{Uuid}
use mostrix.Messages.{MessageNotification}
use mostrix.Ui.Form.{FormState, TakeOrderState}
use mostrix.Ui.Mode.{UiMode, UserMode, AdminMode}
use mostrix.Ui.App.{App}
use mostrix.Ui.Host.{Host}
use mostrix.Ui.Esc.Placed.{close_result-IsPlaced, close_backup-IsPlaced}
use mostrix.Ui.Invoice.Placed.{apply_saved_ln_address_invoice_choice-IsPlaced}
use mostrix.Ui.Placed.{IsPlaced, LeadsToPlaced, mode_fits, is_user, is_admin}
use mostrix.Ui.Enter.Message.{defaulted}
use mostrix.Ui.Enter.Message.Placed.{
  defaulted-IsPlaced, submit_add_invoice-LeadsToPlaced,
  handle_enter_message_notification-LeadsToPlaced, handle_enter_viewing_message-LeadsToPlaced,
  handle_enter_rating_order-LeadsToPlaced,
}
use mostrix.Ui.Enter.Dispute.Placed.{
  handle_enter_admin_mode-LeadsToPlaced, execute_take_dispute_action-LeadsToPlaced,
  execute_finalize_dispute_action-LeadsToPlaced, handle_enter_reviewing_dispute-LeadsToPlaced,
}
use mostrix.Ui.Enter.Chat.Placed.{handle_enter_admin_managing_dispute_chat-LeadsToPlaced}
use mostrix.Ui.Enter.Settings.Placed.{
  handle_enter_settings_mode-LeadsToPlaced, handle_enter_delete_history_order-LeadsToPlaced,
  handle_enter_bulk_delete_history-LeadsToPlaced, handle_enter_generate_new_keys-LeadsToPlaced,
}
use mostrix.Ui.Enter.Normal.Placed.{handle_enter_normal_mode-LeadsToPlaced}
use mostrix.Ui.Enter.{
  handle_enter_creating_order, lacks_amount, execute_take_order_action, handle_enter_taking_order,
  confirm_order, use_saved_address, confirm_saved_address, enter_stays, enter_result, enter_user,
  enter_admin, enter_mode, handle_enter_key,
}

handle_enter_creating_order-LeadsToPlaced :
    (f : FormState) (app : App)
    → IsPlaced app
    → is_user app.user_role ≡ true
    → LeadsToPlaced (handle_enter_creating_order f app)
unfolding handle_enter_creating_order
handle_enter_creating_order-LeadsToPlaced f app p u = (p.0, u, p.2)

handle_enter_taking_order-LeadsToPlaced :
    (t : TakeOrderState) (app : App)
    → IsPlaced app
    → is_user app.user_role ≡ true
    → LeadsToPlaced (handle_enter_taking_order t app)
unfolding handle_enter_taking_order execute_take_order_action
handle_enter_taking_order-LeadsToPlaced t app p u =
    if_lem LeadsToPlaced t.selected_button
      (λ q. if_lem LeadsToPlaced (lacks_amount t) (λ q'. (p.0, u, p.2)) (λ q'. (p.0, u, p.2)))
      (λ q. defaulted-IsPlaced app p)

confirm_order-LeadsToPlaced :
    (f : FormState) (b : Bool) (app : App)
    → IsPlaced app
    → is_user app.user_role ≡ true
    → LeadsToPlaced (confirm_order f b app)
unfolding confirm_order
confirm_order-LeadsToPlaced f true app p u = (p.0, u, p.2)
confirm_order-LeadsToPlaced f false app p u = (p.0, u, p.2)

use_saved_address-LeadsToPlaced :
    (h : Host) (i : Option Uuid) (s : Option String) (app : App)
    → IsPlaced app
    → LeadsToPlaced (use_saved_address h i s app)
unfolding use_saved_address
use_saved_address-LeadsToPlaced h none s app p = (p.0, refl, p.2)
use_saved_address-LeadsToPlaced h (some i) none app p = (p.0, refl, p.2)
use_saved_address-LeadsToPlaced h (some i) (some s) app p =
    if_lem LeadsToPlaced (is_empty (trim s)) (λ q. (p.0, refl, p.2))
      (λ q. submit_add_invoice-LeadsToPlaced i (trim s) (some i) app p)

confirm_saved_address-LeadsToPlaced :
    (h : Host) (n : MessageNotification) (b : Bool) (app : App)
    → IsPlaced app
    → LeadsToPlaced (confirm_saved_address h n b app)
unfolding confirm_saved_address
confirm_saved_address-LeadsToPlaced h n true app p =
    use_saved_address-LeadsToPlaced h n.order_id h.ln_address app p
confirm_saved_address-LeadsToPlaced h n false app p =
    apply_saved_ln_address_invoice_choice-IsPlaced h n false app p

enter_result-LeadsToPlaced : (app : App) → IsPlaced app → LeadsToPlaced (enter_result app)
unfolding enter_result
enter_result-LeadsToPlaced app p =
    if_lem IsPlaced app.fatal_exit_on_close (λ q. p) (λ q. close_result-IsPlaced enter_stays app p)

enter_user-LeadsToPlaced :
    (h : Host) (m : UserMode) (app : App)
    → IsPlaced app
    → is_user app.user_role ≡ true
    → LeadsToPlaced (enter_user h m app)
unfolding enter_user
enter_user-LeadsToPlaced h UserMode.normal app p u = handle_enter_normal_mode-LeadsToPlaced h app p
enter_user-LeadsToPlaced h (UserMode.creating_order f) app p u =
    handle_enter_creating_order-LeadsToPlaced f app p u
enter_user-LeadsToPlaced h (UserMode.confirming_order f b) app p u =
    confirm_order-LeadsToPlaced f b app p u
enter_user-LeadsToPlaced h (UserMode.taking_order t) app p u =
    handle_enter_taking_order-LeadsToPlaced t app p u
enter_user-LeadsToPlaced h m app p u = (p.0, u, p.2)

enter_admin-LeadsToPlaced :
    (h : Host) (m : AdminMode) (app : App)
    → IsPlaced app
    → is_admin app.user_role ≡ true
    → LeadsToPlaced (enter_admin h m app)
unfolding enter_admin
enter_admin-LeadsToPlaced h AdminMode.normal app p a =
    handle_enter_normal_mode-LeadsToPlaced h app p
enter_admin-LeadsToPlaced h (AdminMode.confirm_take_dispute i true) app p a =
    execute_take_dispute_action-LeadsToPlaced i app p a
enter_admin-LeadsToPlaced h (AdminMode.confirm_take_dispute i false) app p a =
    defaulted-IsPlaced app p
enter_admin-LeadsToPlaced h (AdminMode.waiting_take_dispute i) app p a = defaulted-IsPlaced app p
enter_admin-LeadsToPlaced h AdminMode.waiting_add_solver app p a = defaulted-IsPlaced app p
enter_admin-LeadsToPlaced h AdminMode.managing_dispute app p a =
    handle_enter_admin_managing_dispute_chat-LeadsToPlaced h app p a
enter_admin-LeadsToPlaced h (AdminMode.reviewing_dispute i n b o k) app p a =
    handle_enter_reviewing_dispute-LeadsToPlaced h i n b o k app p a
enter_admin-LeadsToPlaced h (AdminMode.confirm_finalize_dispute i s b true) app p a =
    execute_finalize_dispute_action-LeadsToPlaced i s b app p a
enter_admin-LeadsToPlaced h (AdminMode.confirm_finalize_dispute i s b false) app p a = (p.0, a, p.2)
enter_admin-LeadsToPlaced h (AdminMode.waiting_dispute_finalization i) app p a =
    defaulted-IsPlaced app p
enter_admin-LeadsToPlaced h m app p a = handle_enter_admin_mode-LeadsToPlaced h m app p a

enter_mode-LeadsToPlaced :
    (h : Host) (m : UiMode) (app : App)
    → IsPlaced app
    → mode_fits app.user_role m ≡ true
    → LeadsToPlaced (enter_mode h m app)
unfolding enter_mode
enter_mode-LeadsToPlaced h UiMode.normal app p f = handle_enter_normal_mode-LeadsToPlaced h app p
enter_mode-LeadsToPlaced h (UiMode.user_mode m) app p f = enter_user-LeadsToPlaced h m app p f
enter_mode-LeadsToPlaced h (UiMode.admin_mode m) app p f = enter_admin-LeadsToPlaced h m app p f
enter_mode-LeadsToPlaced h (UiMode.confirm_saved_ln_address_for_invoice n b) app p f =
    confirm_saved_address-LeadsToPlaced h n b app p
enter_mode-LeadsToPlaced h (UiMode.help_popup t m) app p f = p
enter_mode-LeadsToPlaced h (UiMode.settings_instructions_popup r m) app p f = p
enter_mode-LeadsToPlaced h (UiMode.save_attachment_popup i) app p f = (p.0, f, p.2)
enter_mode-LeadsToPlaced h (UiMode.observer_save_attachment_popup i) app p f = p
enter_mode-LeadsToPlaced h (UiMode.user_save_attachment_popup o i) app p f = (p.0, f, p.2)
enter_mode-LeadsToPlaced h (UiMode.user_send_attachment_picker o) app p f = p
enter_mode-LeadsToPlaced h (UiMode.operation_result r) app p f = enter_result-LeadsToPlaced app p
enter_mode-LeadsToPlaced h (UiMode.new_message_notification n a st) app p f =
    handle_enter_message_notification-LeadsToPlaced a st n.order_id app p
enter_mode-LeadsToPlaced h (UiMode.viewing_message v) app p f =
    handle_enter_viewing_message-LeadsToPlaced v app p
enter_mode-LeadsToPlaced h (UiMode.rating_order r) app p f =
    handle_enter_rating_order-LeadsToPlaced r app p
enter_mode-LeadsToPlaced h (UiMode.confirm_delete_history_order i b) app p f =
    handle_enter_delete_history_order-LeadsToPlaced i b app p
enter_mode-LeadsToPlaced h (UiMode.confirm_bulk_delete_history b) app p f =
    handle_enter_bulk_delete_history-LeadsToPlaced b app p
enter_mode-LeadsToPlaced h (UiMode.confirm_generate_new_keys b) app p f =
    handle_enter_generate_new_keys-LeadsToPlaced h b app p
enter_mode-LeadsToPlaced h (UiMode.backup_new_keys w) app p f = close_backup-IsPlaced app p
enter_mode-LeadsToPlaced h m app p f = handle_enter_settings_mode-LeadsToPlaced h m app p

pub handle_enter_key-LeadsToPlaced :
    (h : Host) (app : App) → IsPlaced app → LeadsToPlaced (handle_enter_key h app)
unfolding handle_enter_key
handle_enter_key-LeadsToPlaced h app p =
    enter_mode-LeadsToPlaced h app.mode (defaulted app) (defaulted-IsPlaced app p) p.1
