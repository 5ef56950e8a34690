-- ===== src/Ui/Take/Range.antt =====
-- key_handler and order_utils/helper.rs: the amount that is typed when an order is taken.
use Prim.Native.Char.{Char, code}
use mostrix.Prelude.{
  if◌then◌else◌, arith, ◌≡◌, refl, sym, ◌∙◌, subst, ap, String, Bool, true, false, ◌&&◌, ◌||◌,
  Option, none, some, is_empty, if_lem, ◌==◌, Bool-cases, Option-cases, inl, inr,
}
use mostrix.Protocol.{Uuid, SmallOrder}
use mostrix.Ui.Tabs.{UserRole}
use mostrix.Ui.Form.{TakeOrderState}
use mostrix.Ui.Mode.{UiMode, UserMode, default_for_role}
use mostrix.Ui.App.{App, set_mode}
use mostrix.Ui.Host.{Host}
use mostrix.Ui.Task.{Step, quiet}
use mostrix.Ui.Key.{KeyCode, KeyEvent, either_of}
use mostrix.Ui.Arrows.{handle_horizontal_key, vertical, tab_key}
use mostrix.Ui.PopupKeys.{press_horizontal, press_vertical}
use mostrix.Ui.Selection.{selected_filtered_book_order}
use mostrix.Ui.Enter.{
  lacks_amount, handle_enter_taking_order, execute_take_order_action, handle_enter_key,
}
use mostrix.Ui.Enter.Message.{defaulted}
use mostrix.Ui.Enter.Normal.{
  open_order, own_listing, new_take, cancelling, handle_enter_normal_mode,
}
use mostrix.Ui.Esc.{handle_esc_key}
use mostrix.Ui.FormInput.{char_mode, backspace_mode, type_in_take, backspace_in_take, is_digit}
use mostrix.Ui.Keyboard.{character, copy_key, last_match, handle_key_event}
use mostrix.Ui.Keyboard.Typing.{jump_to_bottom}
use mostrix.Ui.Take.{
  Float64, below_min, above_max, amount_error, range_error, validate_range_amount, IsInRange,
  AreSound, browsing, TakePopup,
}
use mostrix.Ui.Take.Passing.{at, reaches_last_match}

abbrev taking : TakeOrderState → UiMode
taking t = UiMode.user_mode (UserMode.taking_order t)

or-false : (a b : Bool) → (a || b) ≡ false → (a ≡ false) × (b ≡ false)
or-false false false q = (refl, refl)
or-false true b q = cc
or-false false true q = cc

if_else {ℓ} : {A : Type ℓ} (x y : A) (c : Bool) → c ≡ false → (if c then x else y) ≡ y
if_else x y true q = cc
if_else x y false q = refl

default-closed : (r : UserRole) (t : TakeOrderState) → default_for_role r ≡ taking t → ⊥
default-closed UserRole.user t q = cc
default-closed UserRole.admin t q = cc

module _ (f : Float64) where
  abbrev error_of : SmallOrder → String → Option String
  error_of o s = range_error f o s

  abbrev validate : TakeOrderState → TakeOrderState
  validate t = validate_range_amount f t

  abbrev InRange : TakeOrderState → Type 0
  InRange t = IsInRange f t

  -- The complaint shown is about the amount shown.
  abbrev Checked : TakeOrderState → Type 0
  Checked t = t.validation_error ≡ error_of t.order t.amount_input

  amount-InRange :
      (t : TakeOrderState) (o : Option f.Value)
      → f.parse t.amount_input ≡ o
      → amount_error f t.order o ≡ none
      → InRange t
  unfolding amount_error
  amount-InRange t none r q = cc
  amount-InRange t (some x) r q = elim (Bool-cases (f.is_finite x)) [
    | inr e ↦ cc
    | inl e ↦ elim (Bool-cases (below_min f t.order x || above_max f t.order x)) [
      | inl v ↦ cc
      | inr v ↦
          let w = or-false (below_min f t.order x) (above_max f t.order x) v in
          record { amount = x; reads = r; finite = e; not_below = w.0; not_above = w.1 }
    ]
  ]

  -- What `lacks_amount` lets through has an amount.
  accepted-InRange :
      (t : TakeOrderState)
      → Checked t
      → t.is_range_order ≡ true
      → lacks_amount t ≡ false
      → InRange t
  unfolding range_error
  accepted-InRange t c r q = elim (Bool-cases (is_empty t.amount_input)) [
    | inl e ↦ ground arith
    | inr e ↦ elim (Option-cases t.validation_error) [
      | inl v ↦
          amount-InRange t (f.parse t.amount_input) refl
            (sym (if_else _ _ (is_empty t.amount_input) e) ∙ sym c ∙ v)
      | inr v ↦ ground arith
    ]
  ]

  -- The popup is open on a checked amount.
  IsOpen : App → Type 0
  IsOpen app = (t : TakeOrderState) × (before : App) × (app ≡ at t before) × Checked t

  -- What is sent is sound, and as long as the popup stays open its amount is checked.
  AfterKey : Step → Type 0
  unfolding IsOpen
  AfterKey s = AreSound f s.tasks × ((t : TakeOrderState) → s.app.mode ≡ taking t → IsOpen s.app)

  open_after : (t : TakeOrderState) (app : App) → Checked t → AfterKey (quiet (at t app))
  unfolding AfterKey
  open_after t app c = (tt, λ t' q. (t, app, refl, c))

  taken-AfterKey :
      (t : TakeOrderState) (app : App)
      → Checked t
      → AfterKey (handle_enter_taking_order t (defaulted (at t app)))
  unfolding AfterKey handle_enter_taking_order execute_take_order_action
  taken-AfterKey t app c =
      if_lem {A = Step} AfterKey t.selected_button
        (λ b.
          if_lem {A = Step} AfterKey (lacks_amount t) (λ l. open_after t (defaulted (at t app)) c)
            (λ l. ((λ r. (accepted-InRange t c r l, rw r refl), tt), λ t' q. cc)))
        (λ b. (tt, λ t' q. absurd (default-closed app.user_role t' q)))

  typed-Checked :
      (c : Char) (h : Host) (t : TakeOrderState) → Checked t → Checked (type_in_take h validate c t)
  unfolding type_in_take validate_range_amount
  typed-Checked c h t k =
      if_lem Checked (t.is_range_order && (is_digit (code c) || (code c == b'.'))) (λ q. refl)
        (λ q. k)

  erased-Checked :
      (h : Host) (t : TakeOrderState) → Checked t → Checked (backspace_in_take h validate t)
  unfolding backspace_in_take validate_range_amount
  erased-Checked h t k = if_lem Checked t.is_range_order (λ q. refl) (λ q. k)

  module _ (h : Host) where
    character-AfterKey :
        (c : Char) (control : Bool) (t : TakeOrderState) (app : App)
        → Checked t
        → AfterKey (quiet (character h validate c control (at t app)))
    unfolding character copy_key char_mode
    character-AfterKey c control t app k =
        if_lem {A = App} (λ a. AfterKey (quiet a)) (either_of b'c' b'C' (KeyCode.char c) && true)
          (λ q. open_after t app k)
          (λ q. open_after (type_in_take h validate c t) app (typed-Checked c h t k))

    last_match-AfterKey :
        (k : KeyCode) (control : Bool) (t : TakeOrderState) (app : App)
        → Checked t
        → AfterKey (last_match h validate k control (at t app))
    unfolding last_match AfterKey press_horizontal handle_horizontal_key press_vertical vertical
        handle_esc_key handle_enter_key jump_to_bottom backspace_mode tab_key
    last_match-AfterKey KeyCode.left control t app c =
        open_after (record t { selected_button = true }) app c
    last_match-AfterKey KeyCode.right control t app c =
        open_after (record t { selected_button = false }) app c
    last_match-AfterKey KeyCode.up control t app c = open_after t app c
    last_match-AfterKey KeyCode.down control t app c = open_after t app c
    last_match-AfterKey KeyCode.tab control t app c = open_after t app c
    last_match-AfterKey KeyCode.back_tab control t app c = open_after t app c
    last_match-AfterKey KeyCode.enter control t app c = taken-AfterKey t app c
    last_match-AfterKey KeyCode.esc control t app c =
        (tt, λ t' q. absurd (default-closed app.user_role t' q))
    last_match-AfterKey KeyCode.end_key control t app c = open_after t app c
    last_match-AfterKey (KeyCode.char x) control t app c = character-AfterKey x control t app c
    last_match-AfterKey KeyCode.backspace control t app c =
        open_after (backspace_in_take h validate t) app (erased-Checked h t c)
    last_match-AfterKey k control t app c = open_after t app c

    new_take-IsOpen : (o : SmallOrder) (app : App) → IsOpen (at (new_take o) app)
    unfolding IsOpen range_error
    new_take-IsOpen o app = (new_take o, app, refl, refl)

    abbrev chosen : SmallOrder → Option Uuid → App → App
    chosen o w app = elim w [
      | some i ↦ set_mode (cancelling i) app
      | none ↦ set_mode (taking (new_take o)) app
    ]

    chosen-IsOpen :
        (o : SmallOrder) (w : Option Uuid) (app : App) (t : TakeOrderState)
        → (chosen o w (defaulted (browsing f app))).mode ≡ taking t
        → IsOpen (chosen o w (defaulted (browsing f app)))
    unfolding cancelling
    chosen-IsOpen o none app t q = new_take-IsOpen o app
    chosen-IsOpen o (some i) app t q = cc

    open_order-IsOpen :
        (o : Option SmallOrder) (app : App) (t : TakeOrderState)
        → (open_order o (defaulted (browsing f app))).mode ≡ taking t
        → IsOpen (open_order o (defaulted (browsing f app)))
    unfolding open_order
    open_order-IsOpen none app t q = absurd (default-closed app.user_role t q)
    open_order-IsOpen (some o) app t q =
        chosen-IsOpen o (own_listing (defaulted (browsing f app)) o) app t q

    key_event-AfterKey :
        (e : KeyEvent) (app : App) → IsOpen app → AfterKey (handle_key_event h validate e app)
    unfolding IsOpen
    key_event-AfterKey e app (t, before, p, c) =
        subst AfterKey
          (sym (ap (handle_key_event h validate e) p ∙ reaches_last_match h e t before validate))
          (last_match-AfterKey e.code e.control t before c)

    popup-IsOpen : (app : App) → TakePopup f h app → IsOpen app
    unfolding handle_enter_key handle_enter_normal_mode AfterKey
    popup-IsOpen _ (TakePopup.opened app t q) =
        open_order-IsOpen
          (selected_filtered_book_order h.to_uppercase (defaulted (browsing f app)) h.orders) app t
          q
    popup-IsOpen app (TakePopup.pressed {app = previous} t e p q) =
        (key_event-AfterKey e previous (popup-IsOpen previous p)).1 t q

    -- From Enter on an order until its popup closes, whatever is pressed: an order with a range is sent
    -- only with an amount that reads as a finite number within the order's bounds, and what is sent is
    -- the integer that the same text reads as, if it does.
    pub taken_in_range :
        (e : KeyEvent) {app : App}
        → TakePopup f h app
        → AreSound f (handle_key_event h validate e app).tasks
    unfolding AfterKey
    taken_in_range e {app} p = (key_event-AfterKey e app (popup-IsOpen app p)).0
