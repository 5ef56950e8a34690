-- ===== src/Ui/Keyboard/Overlays/Placed.antt =====
-- key_handler/mod.rs: the role, the tab and the mode under the popups that come first.
use mostrix.Prelude.{◌≡◌, ◌∙◌, refl, String, true, not, ◌&&◌, ◌||◌, Option, none, some, if_lem}
use mostrix.Ui.Tabs.{UserRole}
use mostrix.Ui.Mode.{UiMode}
use mostrix.Ui.App.{App}
use mostrix.Ui.Host.{Host}
use mostrix.Ui.TabSwitch.{is_managing_dispute}
use mostrix.Ui.Arrows.{is_browsing}
use mostrix.Ui.Key.{KeyCode, KeyEvent, shifted}
use mostrix.Ui.TextInput.{is_paste_shortcut, pasted}
use mostrix.Ui.Placed.{IsPlaced, mode_fits, clone-fits}
use mostrix.Ui.Keyboard.Overlays.{
  is_pay, is_add, closes, control_h, close_in, close_popup, scrolled, scroll_in, scroll_invoice,
  paste_in, paste_in_invoice, observer_inputs_editable, append_observer, paste_in_observer,
  rate_key, rate_in, change_rating, open_help, is_settings, open_instructions,
}
use mostrix.Ui.Keyboard.Keeping.{Keeps, Fits, mapped-Fits, in_mode-Keeps, text-Keeps}

close_in-Keeps :
    (e : KeyEvent) (m : UiMode) (app : App)
    → IsPlaced app
    → mode_fits app.user_role m ≡ true
    → Keeps (close_in e m app)
unfolding close_in
close_in-Keeps e (UiMode.help_popup tab previous) app p q =
    if_lem IsPlaced (control_h e || closes e.code)
      (λ w. (p.0, clone-fits app.user_role previous ∙ q, p.2)) (λ w. p)
close_in-Keeps e (UiMode.settings_instructions_popup role previous) app p q =
    if_lem IsPlaced (shifted b'h' b'H' e || control_h e || closes e.code)
      (λ w. (p.0, clone-fits app.user_role previous ∙ q, p.2)) (λ w. p)
close_in-Keeps e m app p q = p

pub close_popup-Keeps : (e : KeyEvent) (app : App) → IsPlaced app → Keeps (close_popup e app)
unfolding close_popup
close_popup-Keeps e app p = close_in-Keeps e app.mode app p p.1

scroll_in-Fits : (r : UserRole) (k : KeyCode) (m : UiMode) → Fits r (scroll_in k m)
unfolding scroll_in
scroll_in-Fits r k (UiMode.new_message_notification n a st) =
    if_lem (Fits r) (is_pay a)
      (λ w.
        mapped-Fits r (λ y. UiMode.new_message_notification n a (record st { scroll_y = y }))
          (scrolled k st.scroll_y) (λ y. refl))
      (λ w. tt)
scroll_in-Fits r k m = tt

pub scroll_invoice-Keeps : (e : KeyEvent) (app : App) → IsPlaced app → Keeps (scroll_invoice e app)
unfolding scroll_invoice
scroll_invoice-Keeps e app p =
    in_mode-Keeps app (scroll_in e.code app.mode) p (scroll_in-Fits app.user_role e.code app.mode)

paste_in-Fits : (r : UserRole) (o : Option String) (m : UiMode) → Fits r (paste_in o m)
unfolding paste_in
paste_in-Fits r none m = tt
paste_in-Fits r (some text) (UiMode.new_message_notification n a st) =
    if_lem (Fits r) (is_add a) (λ w. refl) (λ w. tt)
paste_in-Fits r (some text) m = tt

pub paste_in_invoice-Keeps :
    (h : Host) (e : KeyEvent) (app : App) → IsPlaced app → Keeps (paste_in_invoice h e app)
unfolding paste_in_invoice
paste_in_invoice-Keeps h e app p =
    if_lem Keeps (is_paste_shortcut e)
      (λ w.
        in_mode-Keeps app (paste_in (pasted h.clipboard) app.mode) p
          (paste_in-Fits app.user_role (pasted h.clipboard) app.mode))
      (λ w. p)

pub paste_in_observer-Keeps :
    (h : Host) (e : KeyEvent) (app : App) → IsPlaced app → Keeps (paste_in_observer h e app)
unfolding paste_in_observer
paste_in_observer-Keeps h e app p =
    if_lem Keeps (observer_inputs_editable app && is_paste_shortcut e)
      (λ w. text-Keeps app (append_observer app) (pasted h.clipboard) p (λ s. p)) (λ w. p)

rate_in-Fits : (r : UserRole) (k : KeyCode) (m : UiMode) → Fits r (rate_in k m)
unfolding rate_in
rate_in-Fits r k (UiMode.rating_order s) =
    mapped-Fits r (λ x. UiMode.rating_order (record s { selected_rating = x }))
      (rate_key k s.selected_rating) (λ x. refl)
rate_in-Fits r k m = tt

pub change_rating-Keeps : (e : KeyEvent) (app : App) → IsPlaced app → Keeps (change_rating e app)
unfolding change_rating
change_rating-Keeps e app p =
    in_mode-Keeps app (rate_in e.code app.mode) p (rate_in-Fits app.user_role e.code app.mode)

pub open_help-Keeps : (e : KeyEvent) (app : App) → IsPlaced app → Keeps (open_help e app)
unfolding open_help
open_help-Keeps e app p =
    if_lem Keeps (control_h e && is_browsing app.mode)
      (λ w. (p.0, clone-fits app.user_role app.mode ∙ p.1, p.2)) (λ w. p)

pub open_instructions-Keeps :
    (e : KeyEvent) (app : App) → IsPlaced app → Keeps (open_instructions e app)
unfolding open_instructions
open_instructions-Keeps e app p =
    if_lem Keeps
      (shifted b'h' b'H' e
        && is_settings app.active_tab
        && (is_browsing app.mode && not (is_managing_dispute app.mode)))
      (λ w. (p.0, clone-fits app.user_role app.mode ∙ p.1, p.2)) (λ w. p)
