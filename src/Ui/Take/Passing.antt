-- ===== src/Ui/Take/Passing.antt =====
-- key_handler/mod.rs: the way of a key in the popup that takes an order.
use mostrix.Prelude.{
  if◌then◌else◌, ◌≡◌, refl, String, Bool, true, false, ◌&&◌, Option, none, some, Bool-cases, inl,
  inr,
}
use mostrix.Ui.UserTab.{UserTab}
use mostrix.Ui.Tabs.{Tab}
use mostrix.Ui.Form.{TakeOrderState}
use mostrix.Ui.Mode.{UiMode, UserMode}
use mostrix.Ui.App.{App}
use mostrix.Ui.Host.{Host}
use mostrix.Ui.Key.{KeyEvent, types, either_of, shifted}
use mostrix.Ui.TextInput.{is_paste_shortcut, pasted}
use mostrix.Ui.Keyboard.{early, last_match, handle_key_event}
use mostrix.Ui.Keyboard.Flow.{KeyFlow, OnFlow, All, ◌⊹◌, run, run-keeps}
use mostrix.Ui.Keyboard.Overlays.{
  control_h, close_popup, scroll_invoice, paste_in_invoice, paste_in_observer, change_rating,
  open_help, open_instructions, paste_in,
}
use mostrix.Ui.Keyboard.Attachments.{
  save_popup, send_picker, user_save_popup, observer_save_popup, open_attachments, open_send_picker,
}
use mostrix.Ui.Keyboard.Typing.{
  type_invoice, type_key, reset_copied, dispute_keys, trade_keys, admin_chat_input, user_chat_input,
  observer_input, currency_picker,
}

-- A state in which an order is taken.
abbrev pub at : TakeOrderState → App → App
at t app = record app {
  active_tab = Tab.user UserTab.orders;
  mode = UiMode.user_mode (UserMode.taking_order t);
}

-- The key goes on with the same state.
abbrev Passes : App → (App → KeyFlow) → Type 0
Passes x f = f x ≡ KeyFlow.pass x

from_Passes :
    (x : App) (f : App → KeyFlow)
    → Passes x f
    → (a : App) → a ≡ x
    → OnFlow (λ s. ⊥) (λ b. b ≡ x) (f a)
from_Passes x f q a p = rw p (rw q refl)

is_pass : (x : App) (o : KeyFlow) → OnFlow (λ s. ⊥) (λ b. b ≡ x) o → o ≡ KeyFlow.pass x
is_pass x (KeyFlow.done s) q = absurd q
is_pass x (KeyFlow.pass a) q = rw q refl

never {ℓ} : {A : Type ℓ} (x y : A) (c : Bool) → (if c && false then y else x) ≡ x
never x y true = refl
never x y false = refl

both_same {ℓ} : {A : Type ℓ} {x y z : A} (c : Bool) → x ≡ z → y ≡ z → (if c then x else y) ≡ z
both_same true p q = p
both_same false p q = q

module _ (h : Host) (e : KeyEvent) (t : TakeOrderState) (app : App) where
  paste_in-none : (o : Option String) → paste_in o (at t app).mode ≡ none
  unfolding paste_in
  paste_in-none none = refl
  paste_in-none (some text) = refl

  paste-Passes : Passes (at t app) (paste_in_invoice h e)
  unfolding paste_in_invoice
  paste-Passes = both_same (is_paste_shortcut e) (rw (paste_in-none (pasted h.clipboard)) refl) refl

  help-Passes : Passes (at t app) (open_help e)
  unfolding open_help
  help-Passes = never _ _ (control_h e)

  instructions-Passes : Passes (at t app) (open_instructions e)
  unfolding open_instructions
  instructions-Passes = elim (Bool-cases (shifted b'h' b'H' e)) [
    | inl q ↦ rw q refl
    | inr q ↦ rw q refl
  ]

  attachments-Passes : Passes (at t app) (open_attachments h e)
  unfolding open_attachments
  attachments-Passes = both_same (e.control && types b's' e.code) refl refl

  send-Passes : Passes (at t app) (open_send_picker h e)
  unfolding open_send_picker
  send-Passes = both_same (e.control && either_of b'o' b'O' e.code) refl refl

  goes :
      (f : App → KeyFlow)
      → Passes (at t app) f
      → (a : App) → a ≡ at t app
      → OnFlow (λ s. ⊥) (λ b. b ≡ at t app) (f a)
  goes f q = from_Passes (at t app) f q

  early-All : All (λ s. ⊥) (λ b. b ≡ at t app) (early h e)
  unfolding close_popup scroll_invoice paste_in_observer change_rating save_popup send_picker
      user_save_popup observer_save_popup type_invoice type_key reset_copied dispute_keys trade_keys
      admin_chat_input user_chat_input observer_input currency_picker
  early-All =
      goes (close_popup e) refl
      ⊹ goes (scroll_invoice e) refl
      ⊹ goes (paste_in_invoice h e) paste-Passes
      ⊹ goes (paste_in_observer h e) refl
      ⊹ goes (change_rating e) refl
      ⊹ goes (save_popup h e) refl
      ⊹ goes (send_picker h e) refl
      ⊹ goes (user_save_popup e) refl
      ⊹ goes (observer_save_popup h e) refl
      ⊹ goes (open_help e) help-Passes
      ⊹ goes (open_instructions e) instructions-Passes
      ⊹ goes (open_attachments h e) attachments-Passes
      ⊹ goes (open_send_picker h e) send-Passes
      ⊹ goes (type_invoice e) refl
      ⊹ goes (type_key e) refl
      ⊹ goes (reset_copied e) refl
      ⊹ goes (dispute_keys h e) refl
      ⊹ goes (trade_keys e) refl
      ⊹ goes (admin_chat_input e) refl
      ⊹ goes (user_chat_input e) refl
      ⊹ goes (observer_input e) refl
      ⊹ goes (currency_picker h e) refl
      ⊹ All.end

  -- No handler before the last match takes a key from the popup.
  early_passes : run (early h e) (at t app) ≡ KeyFlow.pass (at t app)
  early_passes =
      is_pass (at t app) (run (early h e) (at t app))
        (run-keeps (λ s. ⊥) (λ b. b ≡ at t app) (early h e) early-All (at t app) refl)

  pub reaches_last_match :
      (v : TakeOrderState → TakeOrderState)
      → handle_key_event h v e (at t app) ≡ last_match h v e.code e.control (at t app)
  unfolding handle_key_event
  reaches_last_match v = rw early_passes refl
