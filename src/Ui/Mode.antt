-- ===== src/Ui/Mode.antt =====
-- ui/orders.rs, ui/user_state.rs, ui/admin_state.rs, ui/chat.rs and ui/app_state.rs: the modes of the
-- interface, and the results that background tasks report. Ids that the code keeps as texts of uuids are
-- uuids here.
use mostrix.Prelude.{ℕ, ℤ, String, Bool, true, false, Option, List}
use mostrix.Protocol.{Uuid, Kind, Status, Action, SmallOrder}
use mostrix.Messages.{OrderMessage, MessageNotification}
use mostrix.Bond.{BondSlashChoice}
use mostrix.Dm.{ChatParty}
use mostrix.Ui.Form.{FormState, TakeOrderState}
use mostrix.Ui.Tabs.{UserRole, Tab}

pub data InvoiceNotificationActionSelection : Type 0 where
  primary cancel : InvoiceNotificationActionSelection

pub record InvoiceInputState : Type 0 where
  pub invoice_input : String
  pub focused : Bool
  pub just_pasted : Bool
  pub copied_to_clipboard : Bool
  pub scroll_y : ℕ
  pub action_selection : InvoiceNotificationActionSelection

pub record KeyInputState : Type 0 where
  pub key_input : String
  pub focused : Bool
  pub just_pasted : Bool

-- YES, NO and CANCEL of the hold-invoice confirmation.
pub data ThreeState : Type 0 where
  to_yes to_no to_cancel : ThreeState

abbrev pub next_three : ThreeState → ThreeState
next_three to_yes = to_no
next_three to_no = to_cancel
next_three to_cancel = to_yes

abbrev pub prev_three : ThreeState → ThreeState
prev_three to_yes = to_cancel
prev_three to_no = to_yes
prev_three to_cancel = to_no

pub data ViewingMessageButtonSelection : Type 0 where
  two : Bool → ViewingMessageButtonSelection
  three : ThreeState → ViewingMessageButtonSelection

pub record MessageViewState : Type 0 where
  pub message_content : String
  pub order_id : Option Uuid
  pub action : Action
  pub button_selection : ViewingMessageButtonSelection

pub record RatingOrderState : Type 0 where
  pub order_id : Uuid
  pub selected_rating : ℕ

pub data SolverPermission : Type 0 where
  read_only read_write : SolverPermission

pub record AddSolverState : Type 0 where
  pub key_input : KeyInputState
  pub permission : SolverPermission

pub data BuyerInvoicePreference : Type 0 where
  use_saved_ln_address manual_invoice : BuyerInvoicePreference

pub data UserChatChannel : Type 0 where
  peer solver : UserChatChannel

pub data DisputeFilter : Type 0 where
  in_progress finalized : DisputeFilter

pub record OrderChatStaticHeader : Type 0 where
  pub order_id : Uuid
  pub kind : Option Kind
  pub created_at : Option ℕ
  pub trade_index : ℤ
  pub initiator_trade_pubkey : String
  pub is_mine : Bool
  pub solver_pubkey : Option String
  pub dispute_id : Option Uuid

pub record OrderSuccess : Type 0 where
  pub order_id : Option Uuid
  pub kind : Option Kind
  pub amount : ℤ
  pub fiat_code : String
  pub fiat_amount : ℤ
  pub min_amount : Option ℤ
  pub max_amount : Option ℤ
  pub payment_method : String
  pub premium : ℤ
  pub status : Option Status
  pub trade_index : Option ℤ
  pub static_header : Option OrderChatStaticHeader

pub data ChatAttachmentType : Type 0 where
  image file : ChatAttachmentType

-- The key is the list of its bytes.
pub record ChatAttachment : Type 0 where
  pub blossom_url : String
  pub filename : String
  pub mime_type : Option String
  pub file_type : ChatAttachmentType
  pub decryption_key : Option (List ℕ)

pub data ChatSender : Type 0 where
  admin buyer seller : ChatSender

pub record DisputeChatMessage : Type 0 where
  pub sender : ChatSender
  pub content : String
  pub timestamp : ℤ
  pub target_party : Option ChatParty
  pub attachment : Option ChatAttachment

pub data UserChatSender : Type 0 where
  you peer : UserChatSender

pub record UserOrderChatMessage : Type 0 where
  pub sender : UserChatSender
  pub content : String
  pub timestamp : ℤ
  pub attachment : Option ChatAttachment

pub record OutboundAttachmentPayload : Type 0 where
  pub json_body : String
  pub attachment : ChatAttachment
  pub display_content : String

pub record PreparedOrderChatAttachment : Type 0 where
  pub order_id : Uuid
  pub blossom_url : String
  pub filename : String
  pub outbound : OutboundAttachmentPayload

-- `payment_request_required` has the order, invoice, sats, trade index, header and action, in this order.
pub data OperationResult : Type 0 where
  success : OrderSuccess → OperationResult
  payment_request_required :
      SmallOrder → String → Option ℤ → ℤ → OrderChatStaticHeader → Action → OperationResult
  info : String → OperationResult
  invoice_submitted : String → Option Uuid → OperationResult
  error : String → OperationResult
  observer_chat_loaded : ℕ → List DisputeChatMessage → OperationResult
  observer_chat_error : ℕ → String → OperationResult
  trade_closed : Uuid → String → OperationResult
  order_history_deleted : List Uuid → String → OperationResult
  my_trades_maker_book_changed : OperationResult
  open_invoice_popup : MessageNotification → OrderMessage → OperationResult
  order_chat_attachment_sent : Uuid → UserOrderChatMessage → String → OperationResult
  order_chat_attachment_error : Uuid → String → OperationResult
  order_chat_attachment_send_failed : PreparedOrderChatAttachment → String → OperationResult
  conversation_disclosure : String → Bool → OperationResult

pub data UserMode : Type 0 where
  normal : UserMode
  creating_order : FormState → UserMode
  confirming_order : FormState → Bool → UserMode
  taking_order : TakeOrderState → UserMode
  waiting_for_mostro : FormState → UserMode
  waiting_take_order : TakeOrderState → UserMode
  waiting_add_invoice : UserMode

-- `reviewing_dispute` has the dispute, the button, the bond choice, whether the bond submenu is open and
-- its highlighted index; `confirm_finalize_dispute` the dispute, pay-buyer, the bond choice and YES.
pub data AdminMode : Type 0 where
  normal : AdminMode
  add_solver : AddSolverState → AdminMode
  confirm_add_solver : String → SolverPermission → Bool → AdminMode
  waiting_add_solver : AdminMode
  setup_admin_key : KeyInputState → AdminMode
  confirm_admin_key : String → Bool → AdminMode
  confirm_take_dispute : Uuid → Bool → AdminMode
  waiting_take_dispute : Uuid → AdminMode
  managing_dispute : AdminMode
  reviewing_dispute : Uuid → ℕ → BondSlashChoice → Bool → ℕ → AdminMode
  confirm_finalize_dispute : Uuid → Bool → BondSlashChoice → Bool → AdminMode
  waiting_dispute_finalization : Uuid → AdminMode

-- A `Bool` is a YES/NO button, `true` for YES.
pub data UiMode : Type 0 where
  normal : UiMode
  viewing_message : MessageViewState → UiMode
  rating_order : RatingOrderState → UiMode
  new_message_notification : MessageNotification → Action → InvoiceInputState → UiMode
  operation_result : OperationResult → UiMode
  help_popup : Tab → UiMode → UiMode
  settings_instructions_popup : UserRole → UiMode → UiMode
  save_attachment_popup observer_save_attachment_popup : ℕ → UiMode
  user_save_attachment_popup : Uuid → ℕ → UiMode
  user_send_attachment_picker : Uuid → UiMode
  add_mostro_pubkey : KeyInputState → UiMode
  confirm_mostro_pubkey : String → Bool → UiMode
  add_relay : KeyInputState → UiMode
  confirm_relay : String → Bool → UiMode
  add_ln_address : KeyInputState → UiMode
  confirm_ln_address : String → Bool → UiMode
  confirm_clear_ln_address : Bool → UiMode
  confirm_saved_ln_address_for_invoice : MessageNotification → Bool → UiMode
  add_currency : KeyInputState → UiMode
  confirm_currency : String → Bool → UiMode
  confirm_clear_currencies : Bool → UiMode
  confirm_delete_history_order : Uuid → Bool → UiMode
  confirm_bulk_delete_history confirm_exit confirm_generate_new_keys : Bool → UiMode
  backup_new_keys : String → UiMode
  user_mode : UserMode → UiMode
  admin_mode : AdminMode → UiMode

abbrev pub default_for_role : UserRole → UiMode
default_for_role UserRole.user = UiMode.user_mode UserMode.normal
default_for_role UserRole.admin = UiMode.admin_mode AdminMode.normal

-- `Clone`: the seed words are not copied.
unfoldable pub clone : UiMode → UiMode
clone (UiMode.help_popup tab previous) = UiMode.help_popup tab (clone previous)
clone (UiMode.settings_instructions_popup role previous) =
    UiMode.settings_instructions_popup role (clone previous)
clone (UiMode.backup_new_keys words) = UiMode.backup_new_keys ""
clone mode = mode

abbrev pub user_my_trades_interactive : UiMode → Bool
user_my_trades_interactive UiMode.normal = true
user_my_trades_interactive (UiMode.user_mode UserMode.normal) = true
user_my_trades_interactive _ = false

-- key_handler/confirmation.rs
abbrev pub create_key_input_state : String → KeyInputState
create_key_input_state input = record { key_input = input; focused = true; just_pasted = false }
