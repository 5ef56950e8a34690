-- ===== src/Ui/Session.antt =====
-- main.rs: the interface as the main loop drives it, one key, result or notification at a time.
pub mod Roles
pub mod Observer
pub mod Guards
pub mod Popups
pub mod Draft
use mostrix.Prelude.{ℕ, ◌≡◌, String, Bool, true, false, Option, none, some}
use mostrix.Messages.{MessageNotification}
use mostrix.Ui.Form.{TakeOrderState}
use mostrix.Ui.Mode.{UiMode, OperationResult}
use mostrix.Ui.App.{App, set_mode}
use mostrix.Ui.Host.{Host}
use mostrix.Ui.Task.{Step}
use mostrix.Ui.Key.{KeyEvent}
use mostrix.Ui.Keyboard.{handle_key_event}
use mostrix.Ui.Paste.{apply_pasted_text_to_active_input}
use mostrix.Ui.Invoice.{handle_message_notification}
use mostrix.Ui.Results.{handle_operation_result}

-- Seed words to back up: new ones, which need a restart (`key_rotation_rx`), or the present ones
-- (`seed_words_rx`).
abbrev pub show_words : Bool → String → App → App
show_words are_new words app = record app {
  backup_requires_restart = are_new;
  mode = UiMode.backup_new_keys words;
}

-- One turn of the loop that the program survives: a key, or what comes in from outside.
pub data Turn : App → App → Type 0 where
  key :
      (h : Host) (validate : TakeOrderState → TakeOrderState) (app : App) (e : KeyEvent)
      → (handle_key_event h validate e app).goes_on ≡ true
      → Turn app (handle_key_event h validate e app).app
  paste : (app : App) (text : String) → Turn app (apply_pasted_text_to_active_input text app)
  result : (h : Host) (app : App) (r : OperationResult) → Turn app (handle_operation_result h r app)
  notified :
      (h : Host) (app app' : App) (n : MessageNotification)
      → handle_message_notification h n app ≡ some app'
      → Turn app app'
  seed_words :
      (app : App) (are_new : Bool) (words : String) → Turn app (show_words are_new words app)

-- The states that turns lead to.
pub data Reaches (start : App) : App → Type 0 where
  here : Reaches start start
  next : {app app' : App} → Reaches start app → Turn app app' → Reaches start app'
