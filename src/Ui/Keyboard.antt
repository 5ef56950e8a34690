-- ===== src/Ui/Keyboard.antt =====
-- key_handler/mod.rs (`handle_key_event`): one key, from the popups that come first to the last match.
pub mod Flow
pub mod Overlays
pub mod Attachments
pub mod Typing
pub mod Keeping
pub mod Placed
use Prim.Native.Char.{Char, code}
use mostrix.Prelude.{
  Bool, true, false, not, ◌&&◌, ◌||◌, Option, none, some, List, [], ◌∷◌, ◌==◌, if◌then◌else◌,
}
use mostrix.Protocol.{Action}
use mostrix.Messages.{MessageNotification}
use mostrix.Ui.Form.{TakeOrderState}
use mostrix.Ui.Mode.{UiMode, OperationResult, InvoiceInputState}
use mostrix.Ui.App.{App, set_mode, clear_observer_secrets}
use mostrix.Ui.Host.{Host}
use mostrix.Ui.Task.{Step, quiet}
use mostrix.Ui.Key.{KeyCode, KeyEvent, either_of}
use mostrix.Ui.TabSwitch.{is_observer}
use mostrix.Ui.PopupKeys.{press_horizontal, press_vertical}
use mostrix.Ui.Arrows.{handle_tab_navigation}
use mostrix.Ui.Enter.{handle_enter_key}
use mostrix.Ui.Esc.{handle_esc_key}
use mostrix.Ui.FormInput.{
  is_creating_order_text_input, handle_char_input, handle_backspace, char_mode, backspace_mode,
}
use Flow.{KeyFlow, run}
use Overlays.{
  close_popup, scroll_invoice, paste_in_invoice, paste_in_observer, change_rating, open_help,
  open_instructions, is_pay,
}
use Attachments.{
  save_popup, send_picker, user_save_popup, observer_save_popup, open_attachments, open_send_picker,
}
use Typing.{
  type_invoice, type_key, reset_copied, dispute_keys, trade_keys, admin_chat_input, user_chat_input,
  observer_input, currency_picker, jump_to_bottom,
}

-- The handlers that may take a key before the last match, in their order.
abbrev pub early : Host → KeyEvent → List (App → KeyFlow)
early h e =
    close_popup e
    ∷ scroll_invoice e
    ∷ paste_in_invoice h e
    ∷ paste_in_observer h e
    ∷ change_rating e
    ∷ save_popup h e
    ∷ send_picker h e
    ∷ user_save_popup e
    ∷ observer_save_popup h e
    ∷ open_help e
    ∷ open_instructions e
    ∷ open_attachments h e
    ∷ open_send_picker h e
    ∷ type_invoice e
    ∷ type_key e
    ∷ reset_copied e
    ∷ dispute_keys h e
    ∷ trade_keys e
    ∷ admin_chat_input e
    ∷ user_chat_input e
    ∷ observer_input e
    ∷ currency_picker h e
    ∷ []

copy_mode : Host → Bool → UiMode → UiMode
copy_mode h control (UiMode.operation_result (OperationResult.conversation_disclosure key copied)) =
    UiMode.operation_result
      (OperationResult.conversation_disclosure key (if control then copied else h.copies key))
copy_mode h control (UiMode.new_message_notification n a st) = elim n.invoice [
  | none ↦ UiMode.new_message_notification n a st
  | some invoice ↦ UiMode.new_message_notification n a (record st {
    copied_to_clipboard = if is_pay a then h.copies invoice else st.copied_to_clipboard;
  })
]
copy_mode h control mode = mode

-- `c` outside a form: Ctrl+C wipes the Observer tab, else the shown key or invoice is copied.
unfoldable pub copy_key : Host → Bool → App → App
unfolding copy_mode clear_observer_secrets
copy_key h control app =
    if is_observer app.active_tab && control
    then clear_observer_secrets app
    else set_mode (copy_mode h control app.mode) app

module _ (h : Host) (validate_range_amount : TakeOrderState → TakeOrderState) where
  unfoldable pub character : Char → Bool → App → App
  unfolding copy_key
  character c control app =
      if either_of b'c' b'C' (KeyCode.char c) && not (is_creating_order_text_input app.mode)
      then copy_key h control app
      else handle_char_input h validate_range_amount c app

  abbrev esc_step : App × Bool → Step
  esc_step (app, goes_on) = record { app = app; tasks = []; goes_on = goes_on }

  -- The last match. Page keys only scroll what is drawn, and the program goes on after an unknown key.
  unfoldable pub last_match : KeyCode → Bool → App → Step
  unfolding character
  last_match KeyCode.left control app = quiet (press_horizontal h true app)
  last_match KeyCode.right control app = quiet (press_horizontal h false app)
  last_match KeyCode.up control app = quiet (press_vertical h true app)
  last_match KeyCode.down control app = quiet (press_vertical h false app)
  last_match KeyCode.tab control app = quiet (handle_tab_navigation false app)
  last_match KeyCode.back_tab control app = quiet (handle_tab_navigation true app)
  last_match KeyCode.enter control app = handle_enter_key h app
  last_match KeyCode.esc control app = esc_step (handle_esc_key app)
  last_match KeyCode.end_key control app = quiet (jump_to_bottom h app)
  last_match (KeyCode.char c) control app = quiet (character c control app)
  last_match KeyCode.backspace control app = quiet (handle_backspace h validate_range_amount app)
  last_match k control app = quiet app

  abbrev finish : KeyEvent → KeyFlow → Step
  finish e (KeyFlow.done s) = s
  finish e (KeyFlow.pass app) = last_match e.code e.control app

  unfoldable pub handle_key_event : KeyEvent → App → Step
  unfolding last_match run close_popup scroll_invoice paste_in_invoice paste_in_observer
      change_rating save_popup send_picker user_save_popup observer_save_popup open_help
      open_instructions open_attachments open_send_picker type_invoice type_key reset_copied
      dispute_keys trade_keys admin_chat_input user_chat_input observer_input currency_picker
      press_horizontal press_vertical handle_enter_key handle_esc_key jump_to_bottom char_mode
      backspace_mode
  handle_key_event e app = finish e (run (early h e) app)
