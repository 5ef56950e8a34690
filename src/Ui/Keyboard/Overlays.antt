-- ===== src/Ui/Keyboard/Overlays.antt =====
-- key_handler/mod.rs: help, the invoice popups' scrolling and pasting, and the rating.
pub mod Placed
use mathlib.Core.Option
use Prim.Native.String.{◌++◌}
use mostrix.Prelude.{
  ℕ, ◌+◌, ◌-◌, ◌^◌, min, String, Bool, true, false, not, ◌&&◌, ◌||◌, Option, none, some,
  if◌then◌else◌, ltb,
}
use mostrix.Protocol.{Action}
use mostrix.Ui.UserTab.{UserTab}
use mostrix.Ui.AdminTab.{AdminTab}
use mostrix.Ui.Tabs.{Tab}
use mostrix.Ui.Mode.{UiMode, UserMode, AdminMode, InvoiceInputState, RatingOrderState, clone}
use mostrix.Ui.App.{App, set_mode}
use mostrix.Ui.Host.{Host}
use mostrix.Ui.TabSwitch.{is_observer, is_managing_dispute}
use mostrix.Ui.Arrows.{is_browsing}
use mostrix.Ui.Key.{KeyCode, KeyEvent, types, either_of, shifted}
use mostrix.Ui.TextInput.{is_paste_shortcut, pasted, paste_invoice}
use mostrix.Ui.Keyboard.Flow.{KeyFlow, handled, or_pass, in_mode}

abbrev pub is_pay : Action → Bool
is_pay Action.pay_invoice = true
is_pay Action.pay_bond_invoice = true
is_pay _ = false

abbrev pub is_add : Action → Bool
is_add Action.add_invoice = true
is_add Action.add_bond_invoice = true
is_add _ = false

abbrev closes : KeyCode → Bool
closes KeyCode.esc = true
closes KeyCode.enter = true
closes _ = false

abbrev pub control_h : KeyEvent → Bool
control_h e = e.control && types b'h' e.code

close_in : KeyEvent → UiMode → App → KeyFlow
unfolding clone
close_in e (UiMode.help_popup tab previous) app =
    handled (if control_h e || closes e.code then set_mode (clone previous) app else app)
close_in e (UiMode.settings_instructions_popup role previous) app = handled (
    if shifted b'h' b'H' e || control_h e || closes e.code
    then set_mode (clone previous) app
    else app)
close_in e mode app = KeyFlow.pass app

-- Help and the instructions come back to the mode before them, and take every other key.
unfoldable pub close_popup : KeyEvent → App → KeyFlow
unfolding close_in
close_popup e app = close_in e app.mode app

-- `saturating_sub` and `saturating_add` on a `u16`
abbrev scrolled : KeyCode → ℕ → Option ℕ
scrolled KeyCode.up y = some (y - 1)
scrolled KeyCode.down y = some (min (y + 1) (2 ^ 16 - 1))
scrolled KeyCode.page_up y = some (y - 10)
scrolled KeyCode.page_down y = some (min (y + 10) (2 ^ 16 - 1))
scrolled _ y = none

scroll_in : KeyCode → UiMode → Option UiMode
scroll_in k (UiMode.new_message_notification n a st) =
    if is_pay a
    then Option.map (λ y. UiMode.new_message_notification n a (record st { scroll_y = y }))
        (scrolled k st.scroll_y)
    else none
scroll_in k mode = none

-- In a popup that asks for a payment.
unfoldable pub scroll_invoice : KeyEvent → App → KeyFlow
unfolding scroll_in
scroll_invoice e app = in_mode app (scroll_in e.code app.mode)

unfoldable pub paste_in : Option String → UiMode → Option UiMode
unfolding paste_invoice
paste_in none mode = none
paste_in (some text) (UiMode.new_message_notification n a st) =
    if is_add a then some (UiMode.new_message_notification n a (paste_invoice text st)) else none
paste_in (some text) mode = none

-- In a popup that asks for an invoice.
unfoldable pub paste_in_invoice : Host → KeyEvent → App → KeyFlow
unfolding paste_in
paste_in_invoice h e app =
    if is_paste_shortcut e
    then in_mode app (paste_in (pasted h.clipboard) app.mode)
    else KeyFlow.pass app

abbrev editable_mode : UiMode → Bool
editable_mode UiMode.normal = true
editable_mode (UiMode.admin_mode AdminMode.normal) = true
editable_mode _ = false

-- app_state.rs
abbrev pub observer_inputs_editable : App → Bool
observer_inputs_editable app = is_observer app.active_tab && editable_mode app.mode

abbrev pub append_observer : App → String → App
append_observer app text = record app {
  observer_shared_key_input = app.observer_shared_key_input ++ text;
}

unfoldable pub paste_in_observer : Host → KeyEvent → App → KeyFlow
paste_in_observer h e app =
    if observer_inputs_editable app && is_paste_shortcut e
    then or_pass app (Option.map (append_observer app) (pasted h.clipboard))
    else KeyFlow.pass app

-- `MIN_RATING` and `MAX_RATING` of mostro_core are 1 and 5.
abbrev lower : ℕ → ℕ
lower r = if ltb (r - 1) 1 then 1 else r - 1

abbrev higher : ℕ → ℕ
higher r = min (r + 1) 5

abbrev rate_key : KeyCode → ℕ → Option ℕ
rate_key KeyCode.left r = some (lower r)
rate_key KeyCode.right r = some (higher r)
rate_key k r =
    if either_of b'+' b'=' k
    then some (higher r)
    else if either_of b'-' b'_' k
    then some (lower r)
    else none

rate_in : KeyCode → UiMode → Option UiMode
rate_in k (UiMode.rating_order s) =
    Option.map (λ r. UiMode.rating_order (record s { selected_rating = r }))
      (rate_key k s.selected_rating)
rate_in k mode = none

unfoldable pub change_rating : KeyEvent → App → KeyFlow
unfolding rate_in
change_rating e app = in_mode app (rate_in e.code app.mode)

-- Ctrl+H where no popup is open.
unfoldable pub open_help : KeyEvent → App → KeyFlow
unfolding clone
open_help e app =
    if control_h e && is_browsing app.mode
    then handled (set_mode (UiMode.help_popup app.active_tab (clone app.mode)) app)
    else KeyFlow.pass app

abbrev is_settings : Tab → Bool
is_settings (Tab.user UserTab.settings) = true
is_settings (Tab.admin AdminTab.settings) = true
is_settings _ = false

-- Shift+H on Settings.
unfoldable pub open_instructions : KeyEvent → App → KeyFlow
unfolding clone
open_instructions e app =
    if shifted b'h' b'H' e
      && is_settings app.active_tab
      && (is_browsing app.mode && not (is_managing_dispute app.mode))
    then handled (set_mode (UiMode.settings_instructions_popup app.user_role (clone app.mode)) app)
    else KeyFlow.pass app
