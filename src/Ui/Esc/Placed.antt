-- ===== src/Ui/Esc/Placed.antt =====
-- key_handler/esc_handlers.rs: the role, the tab and the mode under Esc.
use mostrix.Prelude.{◌≡◌, refl, ◌∙◌, Bool, true, false, if_lem, option_lem}
use mostrix.Ui.Tabs.{Tab}
use mostrix.Ui.Mode.{UiMode, UserMode, AdminMode}
use mostrix.Ui.App.{App}
use mostrix.Ui.TabSwitch.{is_disputes_in_progress}
use mostrix.Ui.Placed.{
  IsPlaced, mode_fits, default-fits, first-IsTabOf, clone-fits, disputes_tab-is_admin,
}
use mostrix.Ui.Esc.{
  esc_user, esc_admin, esc_mode, close_result, dismiss_popup, close_backup, to_default, continues,
  handle_esc_key, esc_stays,
}

pub to_default-IsPlaced : (app : App) → IsPlaced app → IsPlaced (to_default app)
to_default-IsPlaced app p = (p.0, default-fits app.user_role, p.2)

pub close_result-IsPlaced :
    (stays : Tab → Bool) (app : App) → IsPlaced app → IsPlaced (close_result stays app)
close_result-IsPlaced stays app p =
    if_lem IsPlaced (is_disputes_in_progress app.active_tab)
      (λ q. (p.0, disputes_tab-is_admin app.user_role app.active_tab p.0 q, p.2))
      (λ q.
        if_lem IsPlaced (stays app.active_tab) (λ q'. to_default-IsPlaced app p)
          (λ q'. (first-IsTabOf app.user_role, default-fits app.user_role, p.2)))

dismiss_popup-IsPlaced : (app : App) → IsPlaced app → IsPlaced (dismiss_popup app)
dismiss_popup-IsPlaced app p =
    option_lem IsPlaced app.pending_post_take_operation_result (λ q. to_default-IsPlaced app p)
      (λ r q. (p.0, refl, p.2))

pub close_backup-IsPlaced : (app : App) → IsPlaced app → IsPlaced (close_backup app)
close_backup-IsPlaced app p =
    if_lem IsPlaced app.backup_requires_restart (λ q. (p.0, refl, p.2))
      (λ q. to_default-IsPlaced app p)

esc_user-IsPlaced :
    (m : UserMode) (app : App)
    → IsPlaced app
    → mode_fits app.user_role (UiMode.user_mode m) ≡ true
    → IsPlaced (esc_user m app)
unfolding esc_user
esc_user-IsPlaced (UserMode.creating_order f) app p q = (p.0, default-fits app.user_role, p.2)
esc_user-IsPlaced (UserMode.confirming_order f b) app p q = (p.0, q, p.2)
esc_user-IsPlaced (UserMode.taking_order t) app p q = to_default-IsPlaced app p
esc_user-IsPlaced m app p q = p

esc_admin-IsPlaced :
    (m : AdminMode) (app : App)
    → IsPlaced app
    → mode_fits app.user_role (UiMode.admin_mode m) ≡ true
    → IsPlaced (esc_admin m app)
unfolding esc_admin
esc_admin-IsPlaced (AdminMode.add_solver s) app p q = to_default-IsPlaced app p
esc_admin-IsPlaced (AdminMode.setup_admin_key k) app p q = to_default-IsPlaced app p
esc_admin-IsPlaced (AdminMode.confirm_add_solver s k b) app p q = (p.0, q, p.2)
esc_admin-IsPlaced (AdminMode.confirm_admin_key k b) app p q = (p.0, q, p.2)
esc_admin-IsPlaced (AdminMode.reviewing_dispute i b c true j) app p q = (p.0, q, p.2)
esc_admin-IsPlaced (AdminMode.reviewing_dispute i b c false j) app p q = (p.0, q, p.2)
esc_admin-IsPlaced (AdminMode.confirm_finalize_dispute i b c d) app p q = (p.0, q, p.2)
esc_admin-IsPlaced m app p q = p

esc_mode-IsPlaced :
    (m : UiMode) (app : App)
    → IsPlaced app
    → mode_fits app.user_role m ≡ true
    → IsPlaced (esc_mode m app)
unfolding esc_mode
esc_mode-IsPlaced (UiMode.user_mode m) app p q = esc_user-IsPlaced m app p q
esc_mode-IsPlaced (UiMode.admin_mode m) app p q = esc_admin-IsPlaced m app p q
esc_mode-IsPlaced (UiMode.help_popup t m) app p q = (p.0, clone-fits app.user_role m ∙ q, p.2)
esc_mode-IsPlaced (UiMode.settings_instructions_popup t m) app p q =
    (p.0, clone-fits app.user_role m ∙ q, p.2)
esc_mode-IsPlaced (UiMode.save_attachment_popup i) app p q = (p.0, q, p.2)
esc_mode-IsPlaced (UiMode.user_save_attachment_popup o i) app p q = (p.0, q, p.2)
esc_mode-IsPlaced (UiMode.user_send_attachment_picker o) app p q = (p.0, q, p.2)
esc_mode-IsPlaced (UiMode.operation_result r) app p q = close_result-IsPlaced esc_stays app p
esc_mode-IsPlaced (UiMode.new_message_notification n a s) app p q = dismiss_popup-IsPlaced app p
esc_mode-IsPlaced (UiMode.confirm_saved_ln_address_for_invoice n b) app p q =
    dismiss_popup-IsPlaced app p
esc_mode-IsPlaced (UiMode.confirm_mostro_pubkey s b) app p q = (p.0, refl, p.2)
esc_mode-IsPlaced (UiMode.confirm_relay s b) app p q = (p.0, refl, p.2)
esc_mode-IsPlaced (UiMode.confirm_ln_address s b) app p q = (p.0, refl, p.2)
esc_mode-IsPlaced (UiMode.confirm_currency s b) app p q = (p.0, refl, p.2)
esc_mode-IsPlaced (UiMode.backup_new_keys w) app p q = close_backup-IsPlaced app p
esc_mode-IsPlaced UiMode.normal app p q = p
esc_mode-IsPlaced m app p q = to_default-IsPlaced app p

pub handle_esc_key-IsPlaced : (app : App) → IsPlaced app → IsPlaced (handle_esc_key app).0
unfolding handle_esc_key
handle_esc_key-IsPlaced app p =
    if_lem {A = App × Bool} (λ r. IsPlaced r.0) (continues app.mode app)
      (λ q. esc_mode-IsPlaced app.mode app p p.1) (λ q. p)
