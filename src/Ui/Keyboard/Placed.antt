-- ===== src/Ui/Keyboard/Placed.antt =====
-- key_handler/mod.rs (`handle_key_event`): the role, the tab and the mode under every key.
use Prim.Native.Char.{Char}
use mostrix.Prelude.{refl, Bool, true, false, not, ◌&&◌, if_lem, option_lem}
use mostrix.Ui.Tabs.{UserRole}
use mostrix.Ui.Form.{TakeOrderState}
use mostrix.Ui.Mode.{UiMode, UserMode, OperationResult}
use mostrix.Ui.App.{App, clear_observer_secrets}
use mostrix.Ui.Host.{Host}
use mostrix.Ui.Key.{KeyCode, KeyEvent, either_of}
use mostrix.Ui.TabSwitch.{is_observer}
use mostrix.Ui.Placed.{IsPlaced, LeadsToPlaced}
use mostrix.Ui.PopupKeys.Placed.{press_horizontal-IsPlaced, press_vertical-IsPlaced}
use mostrix.Ui.Arrows.Placed.{tab_key-IsPlaced}
use mostrix.Ui.Enter.Placed.{handle_enter_key-LeadsToPlaced}
use mostrix.Ui.Esc.Placed.{handle_esc_key-IsPlaced}
use mostrix.Ui.FormInput.{char_mode, backspace_mode, is_creating_order_text_input}
use mostrix.Ui.Keyboard.{
  early, copy_mode, copy_key, character, last_match, finish, handle_key_event,
}
use mostrix.Ui.Keyboard.Flow.{KeyFlow, All, ◌⊹◌, run, run-keeps}
use mostrix.Ui.Keyboard.Keeping.{Keeps, Fit}
use mostrix.Ui.Keyboard.Overlays.Placed.{
  close_popup-Keeps, scroll_invoice-Keeps, paste_in_invoice-Keeps, paste_in_observer-Keeps,
  change_rating-Keeps, open_help-Keeps, open_instructions-Keeps,
}
use mostrix.Ui.Keyboard.Attachments.Placed.{
  save_popup-Keeps, send_picker-Keeps, user_save_popup-Keeps, observer_save_popup-Keeps,
  open_attachments-Keeps, open_send_picker-Keeps,
}
use mostrix.Ui.Keyboard.Typing.Placed.{
  type_invoice-Keeps, type_key-Keeps, reset_copied-Keeps, dispute_keys-Keeps, trade_keys-Keeps,
  admin_chat_input-Keeps, user_chat_input-Keeps, observer_input-Keeps, currency_picker-Keeps,
  jump_to_bottom-IsPlaced,
}

early-keeps : (h : Host) (e : KeyEvent) → All LeadsToPlaced IsPlaced (early h e)
early-keeps h e =
    close_popup-Keeps e
    ⊹ scroll_invoice-Keeps e
    ⊹ paste_in_invoice-Keeps h e
    ⊹ paste_in_observer-Keeps h e
    ⊹ change_rating-Keeps e
    ⊹ save_popup-Keeps h e
    ⊹ send_picker-Keeps h e
    ⊹ user_save_popup-Keeps e
    ⊹ observer_save_popup-Keeps h e
    ⊹ open_help-Keeps e
    ⊹ open_instructions-Keeps e
    ⊹ open_attachments-Keeps h e
    ⊹ open_send_picker-Keeps h e
    ⊹ type_invoice-Keeps e
    ⊹ type_key-Keeps e
    ⊹ reset_copied-Keeps e
    ⊹ dispute_keys-Keeps h e
    ⊹ trade_keys-Keeps e
    ⊹ admin_chat_input-Keeps e
    ⊹ user_chat_input-Keeps e
    ⊹ observer_input-Keeps e
    ⊹ currency_picker-Keeps h e
    ⊹ All.end

copy_mode-Fit :
    (r : UserRole) (h : Host) (c : Bool) (m : UiMode) → Fit r m → Fit r (copy_mode h c m)
unfolding copy_mode
copy_mode-Fit r h c (UiMode.operation_result (OperationResult.conversation_disclosure key b)) q =
    refl
copy_mode-Fit r h c (UiMode.new_message_notification n a st) q =
    option_lem {B = UiMode} (Fit r) n.invoice (λ w. refl) (λ i w. refl)
copy_mode-Fit r h c m q = q

clear_observer_secrets-IsPlaced : (app : App) → IsPlaced app → IsPlaced (clear_observer_secrets app)
unfolding clear_observer_secrets
clear_observer_secrets-IsPlaced app p = p

copy_key-IsPlaced : (h : Host) (c : Bool) (app : App) → IsPlaced app → IsPlaced (copy_key h c app)
unfolding copy_key
copy_key-IsPlaced h c app p =
    if_lem IsPlaced (is_observer app.active_tab && c) (λ w. clear_observer_secrets-IsPlaced app p)
      (λ w. (p.0, copy_mode-Fit app.user_role h c app.mode p.1, p.2))

module _ (h : Host) (validate : TakeOrderState → TakeOrderState) where
  char_mode-Fit :
      (r : UserRole) (c : Char) (m : UiMode) → Fit r m → Fit r (char_mode h validate c m)
  unfolding char_mode
  char_mode-Fit r c (UiMode.user_mode (UserMode.creating_order form)) q = q
  char_mode-Fit r c (UiMode.user_mode (UserMode.taking_order t)) q = q
  char_mode-Fit r c m q = q

  backspace_mode-Fit : (r : UserRole) (m : UiMode) → Fit r m → Fit r (backspace_mode h validate m)
  unfolding backspace_mode
  backspace_mode-Fit r (UiMode.user_mode (UserMode.creating_order form)) q = q
  backspace_mode-Fit r (UiMode.user_mode (UserMode.taking_order t)) q = q
  backspace_mode-Fit r m q = q

  character-IsPlaced :
      (c : Char) (control : Bool) (app : App)
      → IsPlaced app
      → IsPlaced (character h validate c control app)
  unfolding character
  character-IsPlaced c control app p =
      if_lem IsPlaced
        (either_of b'c' b'C' (KeyCode.char c) && not (is_creating_order_text_input app.mode))
        (λ w. copy_key-IsPlaced h control app p)
        (λ w. (p.0, char_mode-Fit app.user_role c app.mode p.1, p.2))

  last_match-LeadsToPlaced :
      (k : KeyCode) (control : Bool) (app : App)
      → IsPlaced app
      → LeadsToPlaced (last_match h validate k control app)
  unfolding last_match
  last_match-LeadsToPlaced KeyCode.left c app p = press_horizontal-IsPlaced h true app p
  last_match-LeadsToPlaced KeyCode.right c app p = press_horizontal-IsPlaced h false app p
  last_match-LeadsToPlaced KeyCode.up c app p = press_vertical-IsPlaced h true app p
  last_match-LeadsToPlaced KeyCode.down c app p = press_vertical-IsPlaced h false app p
  last_match-LeadsToPlaced KeyCode.tab c app p = tab_key-IsPlaced false app.active_tab app p
  last_match-LeadsToPlaced KeyCode.back_tab c app p = tab_key-IsPlaced true app.active_tab app p
  last_match-LeadsToPlaced KeyCode.enter c app p = handle_enter_key-LeadsToPlaced h app p
  last_match-LeadsToPlaced KeyCode.esc c app p = handle_esc_key-IsPlaced app p
  last_match-LeadsToPlaced KeyCode.end_key c app p = jump_to_bottom-IsPlaced h app p
  last_match-LeadsToPlaced (KeyCode.char x) c app p = character-IsPlaced x c app p
  last_match-LeadsToPlaced KeyCode.backspace c app p =
      (p.0, backspace_mode-Fit app.user_role app.mode p.1, p.2)
  last_match-LeadsToPlaced k c app p = p

  finish-LeadsToPlaced :
      (e : KeyEvent) (f : KeyFlow) → Keeps f → LeadsToPlaced (finish h validate e f)
  finish-LeadsToPlaced e (KeyFlow.done s) q = q
  finish-LeadsToPlaced e (KeyFlow.pass app) q = last_match-LeadsToPlaced e.code e.control app q

  pub handle_key_event-LeadsToPlaced :
      (e : KeyEvent) (app : App) → IsPlaced app → LeadsToPlaced (handle_key_event h validate e app)
  unfolding handle_key_event
  handle_key_event-LeadsToPlaced e app p =
      finish-LeadsToPlaced e (run (early h e) app)
        (run-keeps LeadsToPlaced IsPlaced (early h e) (early-keeps h e) app p)
