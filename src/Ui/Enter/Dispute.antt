-- ===== src/Ui/Enter/Dispute.antt =====
-- key_handler/admin_handlers.rs and chat_helpers.rs: Enter in the modes of an admin.
pub mod Placed
use mostrix.Prelude.{
  ℕ, String, Bool, true, false, not, ◌&&◌, ◌||◌, Option, none, some, List, [], ◌∷◌, find,
  is_some_and, and_then, ltb, ◌==◌, is_empty, trim, if◌then◌else◌,
}
use mostrix.Protocol.{Uuid, Keys}
use mostrix.Bond.{BondSlashChoice, choice_index, from_choice_index}
use mostrix.Disputes.{AdminDispute, is_finalized}
use mostrix.Ui.Tabs.{UserRole}
use mostrix.Ui.Mode.{
  UiMode, AdminMode, OperationResult, AddSolverState, SolverPermission, KeyInputState,
  create_key_input_state,
}
use mostrix.Ui.App.{App, set_mode}
use mostrix.Ui.Host.{Host}
use mostrix.Ui.Task.{Task, Step, quiet, doing}
use mostrix.Ui.Validation.{Validated, ok, err, validate_npub, normalize_to_nsec}
use mostrix.Ui.Enter.Message.{defaulted, error_report}

-- helpers/startup.rs
abbrev pub admin_chat_keys_clone_for_role : App → Option Keys
admin_chat_keys_clone_for_role app = elim app.user_role [
  | UserRole.admin ↦ app.admin_keys
  | UserRole.user ↦ none
]

abbrev hydrate_app_admin_keys_from_privkey : Host → String → App → App
hydrate_app_admin_keys_from_privkey h key app = record app {
  admin_keys = if is_empty (trim key) then none else h.parse_keys (trim key);
}

abbrev pub show : OperationResult → App → App
show r app = set_mode (UiMode.operation_result r) app

abbrev pub show_error : String → App → App
show_error message app = show (OperationResult.error message) app

-- A task that needs the admin's keys, and the mode in which it is waited for.
abbrev with_admin_keys : (Keys → Task) → AdminMode → App → Step
with_admin_keys task mode app = elim (admin_chat_keys_clone_for_role app) [
  | none ↦ quiet (show_error "Admin private key not configured" app)
  | some keys ↦ doing (task keys ∷ []) (set_mode (UiMode.admin_mode mode) app)
]

unfoldable pub execute_take_dispute_action : Uuid → App → Step
execute_take_dispute_action i app =
    with_admin_keys (Task.take_dispute i) (AdminMode.waiting_take_dispute i) app

unfoldable pub execute_add_solver_action : String → SolverPermission → App → Step
execute_add_solver_action key permission app =
    with_admin_keys (Task.add_solver key permission) AdminMode.waiting_add_solver app

unfoldable pub execute_finalize_dispute_action : Uuid → Bool → BondSlashChoice → App → Step
execute_finalize_dispute_action i is_settle bond app =
    with_admin_keys (Task.finalize_dispute i is_settle bond)
      (AdminMode.waiting_dispute_finalization i) app

-- confirmation.rs: an empty input goes back to the default mode.
abbrev pub handle_input_to_confirmation : String → (String → UiMode) → App → App
handle_input_to_confirmation input confirm app =
    if is_empty input then defaulted app else set_mode (confirm input) app

abbrev confirming_solver : Validated → AddSolverState → App → App
confirming_solver (err message) st app = show_error message app
confirming_solver (ok _) st app =
    handle_input_to_confirmation st.key_input.key_input
      (λ input. UiMode.admin_mode (AdminMode.confirm_add_solver input st.permission true)) app

abbrev confirming_admin_key : Validated → App → App
confirming_admin_key (err message) app = show_error message app
confirming_admin_key (ok key) app =
    handle_input_to_confirmation key
      (λ input. UiMode.admin_mode (AdminMode.confirm_admin_key input true)) app

-- The disputes are read again where the role is admin.
abbrev reloading : App → App
reloading app = elim app.user_role [
  | UserRole.admin ↦ record app { pending_admin_disputes_reload = true }
  | UserRole.user ↦ app
]

save_admin_key : Host → String → App → Step
save_admin_key h key app = elim h.admin_key_error [
  | some message ↦ quiet (show_error message app)
  | none ↦
      doing (Task.save_admin_key key ∷ [])
        (defaulted (reloading (hydrate_app_admin_keys_from_privkey h key app)))
]

unfoldable pub handle_enter_admin_mode : Host → AdminMode → App → Step
unfolding save_admin_key execute_add_solver_action validate_npub normalize_to_nsec
handle_enter_admin_mode h (AdminMode.add_solver st) app =
    quiet (confirming_solver (validate_npub h st.key_input.key_input) st app)
handle_enter_admin_mode h (AdminMode.confirm_add_solver key permission true) app =
    execute_add_solver_action key permission app
handle_enter_admin_mode h (AdminMode.confirm_add_solver key permission false) app = quiet (
    set_mode
      (UiMode.admin_mode (
        AdminMode.add_solver
          (record { key_input = create_key_input_state key; permission = permission })))
      app)
handle_enter_admin_mode h (AdminMode.setup_admin_key k) app =
    quiet (confirming_admin_key (normalize_to_nsec h k.key_input) app)
handle_enter_admin_mode h (AdminMode.confirm_admin_key key true) app = save_admin_key h key app
handle_enter_admin_mode h (AdminMode.confirm_admin_key key false) app =
    quiet
      (set_mode (UiMode.admin_mode (AdminMode.setup_admin_key (create_key_input_state key))) app)
handle_enter_admin_mode h _ app = quiet (defaulted app)

pub data FinalizeDisputePopupButton : Type 0 where
  pay_buyer refund_seller bond_slash : FinalizeDisputePopupButton

abbrev pub from_index : ℕ → Bool → Option FinalizeDisputePopupButton
from_index i bonds =
    if i == 0
    then some pay_buyer
    else if i == 1
    then some refund_seller
    else if (i == 2) && bonds
    then some bond_slash
    else none

abbrev already_finalized : App → Step
already_finalized app =
    doing (error_report "Cannot finalize: dispute is already finalized" ∷ [])
      (set_mode (UiMode.admin_mode AdminMode.managing_dispute) app)

-- Pay-buyer or refund-seller, with the button that is asked for confirmation.
handle_enter_finalize_popup : Bool → Uuid → BondSlashChoice → Bool → App → Step
handle_enter_finalize_popup is_settle i bond true app = already_finalized app
handle_enter_finalize_popup is_settle i bond false app =
    quiet
      (set_mode (UiMode.admin_mode (AdminMode.confirm_finalize_dispute i is_settle bond true)) app)

open_slash_submenu : Uuid → ℕ → BondSlashChoice → Bool → App → Step
open_slash_submenu i button bond true app = already_finalized app
open_slash_submenu i button bond false app = quiet (
    set_mode
      (UiMode.admin_mode (AdminMode.reviewing_dispute i button bond true (choice_index bond))) app)

-- The dispute is looked up by either of its ids.
unfoldable pub dispute_is_finalized : Host → Uuid → List AdminDispute → Bool
unfolding is_finalized
dispute_is_finalized h i rows =
    is_some_and (find (λ d. (d.dispute_id == i) || (d.id == i)) rows) (is_finalized h.dispute_text)

-- Without bonds only two buttons are shown.
abbrev shown_button : Host → ℕ → ℕ
shown_button h button = if not h.bonds_enabled && ltb 1 button then 0 else button

press_button : Option FinalizeDisputePopupButton → Uuid → ℕ → BondSlashChoice → Bool → App → Step
unfolding handle_enter_finalize_popup open_slash_submenu
press_button none i button bond final app = quiet (defaulted app)
press_button (some pay_buyer) i button bond final app =
    handle_enter_finalize_popup true i bond final app
press_button (some refund_seller) i button bond final app =
    handle_enter_finalize_popup false i bond final app
press_button (some bond_slash) i button bond final app = open_slash_submenu i button bond final app

unfoldable pub handle_enter_reviewing_dispute :
    Host → Uuid → ℕ → BondSlashChoice → Bool → ℕ → App → Step
unfolding dispute_is_finalized press_button
handle_enter_reviewing_dispute h i button bond true index app = quiet (
    set_mode
      (UiMode.admin_mode
        (AdminMode.reviewing_dispute i button (from_choice_index index) false index))
      app)
handle_enter_reviewing_dispute h i button bond false index app =
    press_button (from_index (shown_button h button) h.bonds_enabled) i button bond
      (dispute_is_finalized h i app.admin_disputes_in_progress) app
