-- ===== src/Ui/Task.antt =====
-- What a key sets off: the tasks that it spawns, the results that it sends at once and the
-- settings that it writes. The tasks themselves run elsewhere and report an `OperationResult`.
use mostrix.Prelude.{ℕ, ℤ, String, Bool, true, Option, List, []}
use mostrix.Protocol.{Uuid, Keys, PublicKey, Action}
use mostrix.Bond.{BondSlashChoice}
use mostrix.Ui.Form.{FormState, TakeOrderState}
use mostrix.Ui.Mode.{
  OperationResult, SolverPermission, UserChatChannel, ChatAttachment, PreparedOrderChatAttachment,
}
use mostrix.Ui.App.{App}

pub data Task : Type 0 where
  report : OperationResult → Task
  send_new_order : FormState → Task
  take_order : TakeOrderState → Option ℤ → Task
  -- The order, the invoice, and the order to remember the saved address for.
  add_invoice : Uuid → String → Option Uuid → Task
  add_bond_invoice : Uuid → String → Task
  cancel_order : Uuid → Task
  open_dispute : Uuid → Task
  -- The order, the action, the action of the message that is answered, and whether it asks for a
  -- cooperative cancel.
  send_message : Uuid → Action → Action → Bool → Task
  rate_user : Uuid → ℕ → Task
  take_dispute : Uuid → Keys → Task
  add_solver : String → SolverPermission → Keys → Task
  finalize_dispute : Uuid → Bool → BondSlashChoice → Keys → Task
  delete_order : Uuid → Task
  bulk_delete : Task
  rotate_keys load_seed_words refresh_info : Task
  -- The new instance key is also made the active one.
  refresh_info_of : PublicKey → Task
  verify_ln_address : String → Task
  add_relay : String → Task
  save_pubkey save_relay save_currency save_admin_key : String → Task
  clear_ln_address clear_currencies save_user_mode : Task
  send_admin_chat : Uuid → Option String → String → Task
  send_user_chat : Uuid → UserChatChannel → String → Task
  fetch_observer : String → ℕ → Task
  -- An attachment of a dispute, of an order (whose key is read from its row) and of an observed chat.
  save_dispute_attachment save_order_attachment : Uuid → ChatAttachment → Task
  save_observer_attachment : String → ChatAttachment → Task
  send_attachment : Uuid → String → Task
  retry_attachment : PreparedOrderChatAttachment → Task
  disclose_key : Uuid → Task

-- The state, what was set off, and whether the program goes on.
pub record Step : Type 0 where
  pub app : App
  pub tasks : List Task
  pub goes_on : Bool

abbrev pub quiet : App → Step
quiet app = record { app = app; tasks = []; goes_on = true }

abbrev pub doing : List Task → App → Step
doing tasks app = record { app = app; tasks = tasks; goes_on = true }
