-- ===== src/Ui/Enter/Dispute/Placed.antt =====
-- key_handler/admin_handlers.rs and chat_helpers.rs: the role, the tab and the mode under an admin's Enter.
use mostrix.Prelude.{
  ℕ, ◌≡◌, refl, String, Bool, true, false, Option, none, some, is_empty, if_lem, option_lem,
}
use mostrix.Protocol.{Uuid, Keys}
use mostrix.Bond.{BondSlashChoice}
use mostrix.Ui.Mode.{UiMode, AdminMode, AddSolverState}
use mostrix.Ui.App.{App}
use mostrix.Ui.Host.{Host}
use mostrix.Ui.Task.{Task}
use mostrix.Ui.Validation.{Validated, ok, err, validate_npub, normalize_to_nsec}
use mostrix.Ui.Placed.{IsPlaced, LeadsToPlaced, mode_fits, is_admin, role_lem}
use mostrix.Ui.Enter.Message.Placed.{defaulted-IsPlaced}
use mostrix.Ui.Enter.Dispute.{
  FinalizeDisputePopupButton, with_admin_keys, admin_chat_keys_clone_for_role,
  handle_input_to_confirmation, confirming_solver, confirming_admin_key, save_admin_key, reloading,
  hydrate_app_admin_keys_from_privkey, execute_add_solver_action, execute_take_dispute_action,
  execute_finalize_dispute_action, handle_enter_admin_mode, handle_enter_finalize_popup,
  open_slash_submenu, press_button, handle_enter_reviewing_dispute, from_index, shown_button,
  dispute_is_finalized,
}

with_admin_keys-LeadsToPlaced :
    (task : Keys → Task) (m : AdminMode) (app : App)
    → IsPlaced app
    → is_admin app.user_role ≡ true
    → LeadsToPlaced (with_admin_keys task m app)
with_admin_keys-LeadsToPlaced task m app p a =
    option_lem LeadsToPlaced (admin_chat_keys_clone_for_role app) (λ q. (p.0, refl, p.2))
      (λ keys q. (p.0, a, p.2))

pub handle_input_to_confirmation-IsPlaced :
    (s : String) (f : String → UiMode) (app : App)
    → IsPlaced app
    → mode_fits app.user_role (f s) ≡ true
    → IsPlaced (handle_input_to_confirmation s f app)
handle_input_to_confirmation-IsPlaced s f app p a =
    if_lem IsPlaced (is_empty s) (λ q. defaulted-IsPlaced app p) (λ q. (p.0, a, p.2))

confirming_solver-IsPlaced :
    (v : Validated) (st : AddSolverState) (app : App)
    → IsPlaced app
    → is_admin app.user_role ≡ true
    → IsPlaced (confirming_solver v st app)
confirming_solver-IsPlaced (err m) st app p a = (p.0, refl, p.2)
confirming_solver-IsPlaced (ok s) st app p a =
    handle_input_to_confirmation-IsPlaced st.key_input.key_input
      (λ input. UiMode.admin_mode (AdminMode.confirm_add_solver input st.permission true)) app p a

confirming_admin_key-IsPlaced :
    (v : Validated) (app : App)
    → IsPlaced app
    → is_admin app.user_role ≡ true
    → IsPlaced (confirming_admin_key v app)
confirming_admin_key-IsPlaced (err m) app p a = (p.0, refl, p.2)
confirming_admin_key-IsPlaced (ok s) app p a =
    handle_input_to_confirmation-IsPlaced s
      (λ input. UiMode.admin_mode (AdminMode.confirm_admin_key input true)) app p a

reloading-IsPlaced :
    (app : App) → IsPlaced app → is_admin app.user_role ≡ true → IsPlaced (reloading app)
reloading-IsPlaced app p a = role_lem IsPlaced app.user_role (λ q. p) (λ q. p)

save_admin_key-LeadsToPlaced :
    (h : Host) (s : String) (app : App)
    → IsPlaced app
    → is_admin app.user_role ≡ true
    → LeadsToPlaced (save_admin_key h s app)
unfolding save_admin_key
save_admin_key-LeadsToPlaced h s app p a =
    option_lem LeadsToPlaced h.admin_key_error
      (λ q.
        let app' = hydrate_app_admin_keys_from_privkey h s app in
        defaulted-IsPlaced (reloading app') (reloading-IsPlaced app' p a))
      (λ m q. (p.0, refl, p.2))

pub handle_enter_admin_mode-LeadsToPlaced :
    (h : Host) (m : AdminMode) (app : App)
    → IsPlaced app
    → is_admin app.user_role ≡ true
    → LeadsToPlaced (handle_enter_admin_mode h m app)
unfolding handle_enter_admin_mode execute_add_solver_action
handle_enter_admin_mode-LeadsToPlaced h (AdminMode.add_solver st) app p a =
    confirming_solver-IsPlaced (validate_npub h st.key_input.key_input) st app p a
handle_enter_admin_mode-LeadsToPlaced h (AdminMode.confirm_add_solver key permission true) app p a =
    with_admin_keys-LeadsToPlaced (Task.add_solver key permission) AdminMode.waiting_add_solver app
      p a
handle_enter_admin_mode-LeadsToPlaced h (AdminMode.confirm_add_solver key permission false) app p
      a =
    (p.0, a, p.2)
handle_enter_admin_mode-LeadsToPlaced h (AdminMode.setup_admin_key k) app p a =
    confirming_admin_key-IsPlaced (normalize_to_nsec h k.key_input) app p a
handle_enter_admin_mode-LeadsToPlaced h (AdminMode.confirm_admin_key key true) app p a =
    save_admin_key-LeadsToPlaced h key app p a
handle_enter_admin_mode-LeadsToPlaced h (AdminMode.confirm_admin_key key false) app p a =
    (p.0, a, p.2)
handle_enter_admin_mode-LeadsToPlaced h m app p a = defaulted-IsPlaced app p

pub execute_take_dispute_action-LeadsToPlaced :
    (i : Uuid) (app : App)
    → IsPlaced app
    → is_admin app.user_role ≡ true
    → LeadsToPlaced (execute_take_dispute_action i app)
unfolding execute_take_dispute_action
execute_take_dispute_action-LeadsToPlaced i app p a =
    with_admin_keys-LeadsToPlaced (Task.take_dispute i) (AdminMode.waiting_take_dispute i) app p a

pub execute_finalize_dispute_action-LeadsToPlaced :
    (i : Uuid) (s : Bool) (b : BondSlashChoice) (app : App)
    → IsPlaced app
    → is_admin app.user_role ≡ true
    → LeadsToPlaced (execute_finalize_dispute_action i s b app)
unfolding execute_finalize_dispute_action
execute_finalize_dispute_action-LeadsToPlaced i s b app p a =
    with_admin_keys-LeadsToPlaced (Task.finalize_dispute i s b)
      (AdminMode.waiting_dispute_finalization i) app p a

handle_enter_finalize_popup-LeadsToPlaced :
    (s : Bool) (i : Uuid) (b : BondSlashChoice) (final : Bool) (app : App)
    → IsPlaced app
    → is_admin app.user_role ≡ true
    → LeadsToPlaced (handle_enter_finalize_popup s i b final app)
unfolding handle_enter_finalize_popup
handle_enter_finalize_popup-LeadsToPlaced s i b true app p a = (p.0, a, p.2)
handle_enter_finalize_popup-LeadsToPlaced s i b false app p a = (p.0, a, p.2)

open_slash_submenu-LeadsToPlaced :
    (i : Uuid) (n : ℕ) (b : BondSlashChoice) (final : Bool) (app : App)
    → IsPlaced app
    → is_admin app.user_role ≡ true
    → LeadsToPlaced (open_slash_submenu i n b final app)
unfolding open_slash_submenu
open_slash_submenu-LeadsToPlaced i n b true app p a = (p.0, a, p.2)
open_slash_submenu-LeadsToPlaced i n b false app p a = (p.0, a, p.2)

press_button-LeadsToPlaced :
    (o : Option FinalizeDisputePopupButton) (i : Uuid) (n : ℕ) (b : BondSlashChoice) (final : Bool)
    (app : App)
    → IsPlaced app
    → is_admin app.user_role ≡ true
    → LeadsToPlaced (press_button o i n b final app)
unfolding press_button
press_button-LeadsToPlaced none i n b final app p a = defaulted-IsPlaced app p
press_button-LeadsToPlaced (some FinalizeDisputePopupButton.pay_buyer) i n b final app p a =
    handle_enter_finalize_popup-LeadsToPlaced true i b final app p a
press_button-LeadsToPlaced (some FinalizeDisputePopupButton.refund_seller) i n b final app p a =
    handle_enter_finalize_popup-LeadsToPlaced false i b final app p a
press_button-LeadsToPlaced (some FinalizeDisputePopupButton.bond_slash) i n b final app p a =
    open_slash_submenu-LeadsToPlaced i n b final app p a

pub handle_enter_reviewing_dispute-LeadsToPlaced :
    (h : Host) (i : Uuid) (n : ℕ) (b : BondSlashChoice) (is_open : Bool) (k : ℕ) (app : App)
    → IsPlaced app
    → is_admin app.user_role ≡ true
    → LeadsToPlaced (handle_enter_reviewing_dispute h i n b is_open k app)
unfolding handle_enter_reviewing_dispute
handle_enter_reviewing_dispute-LeadsToPlaced h i n b true k app p a = (p.0, a, p.2)
handle_enter_reviewing_dispute-LeadsToPlaced h i n b false k app p a =
    press_button-LeadsToPlaced (from_index (shown_button h n) h.bonds_enabled) i n b
      (dispute_is_finalized h i app.admin_disputes_in_progress) app p a
