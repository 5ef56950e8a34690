-- ===== src/Ui/Take.antt =====
-- order_utils/helper.rs (`validate_range_amount`) and the popup in which an order is taken. Floating point
-- is a parameter.
pub mod Passing
pub mod Range
use Prim.Native.String.{◌++◌}
use mostrix.Prelude.{
  ◌≡◌, ℤ, String, Bool, true, false, ◌||◌, Option, none, some, is_some_and, is_empty, if◌then◌else◌,
  List, [], ◌∷◌, trim, parse_i64,
}
use mostrix.Protocol.{SmallOrder}
use mostrix.Ui.UserTab.{UserTab}
use mostrix.Ui.Tabs.{Tab}
use mostrix.Ui.Form.{TakeOrderState}
use mostrix.Ui.Mode.{UiMode, UserMode}
use mostrix.Ui.App.{App}
use mostrix.Ui.Host.{Host}
use mostrix.Ui.Task.{Task}
use mostrix.Ui.Key.{KeyEvent}
use mostrix.Ui.Enter.{handle_enter_key}
use mostrix.Ui.Keyboard.{handle_key_event}

-- `f64`: its values, and what the code does with them.
pub record Float64 : Type 1 where
  pub Value : Type 0
  pub parse : String → Option Value
  pub is_finite : Value → Bool
  pub as_f64 : ℤ → Value
  pub less : Value → Value → Bool
  pub to_string : Value → String

module _ (f : Float64) where
  unfoldable pub below_min : SmallOrder → f.Value → Bool
  below_min o amount = is_some_and o.min_amount (λ m. f.less amount (f.as_f64 m))

  unfoldable pub above_max : SmallOrder → f.Value → Bool
  above_max o amount = is_some_and o.max_amount (λ m. f.less (f.as_f64 m) amount)

  range_message : String → Option ℤ → Option ℤ → String
  range_message fiat (some m) (some n) =
      "Amount must be between "
      ++ f.to_string (f.as_f64 m)
      ++ " and "
      ++ f.to_string (f.as_f64 n)
      ++ " "
      ++ fiat
  range_message fiat (some m) none =
      "Amount must be at least " ++ f.to_string (f.as_f64 m) ++ " " ++ fiat
  range_message fiat none (some n) =
      "Amount must be at most " ++ f.to_string (f.as_f64 n) ++ " " ++ fiat
  range_message fiat none none = "Amount is outside allowed range"

  amount_error : SmallOrder → Option f.Value → Option String
  unfolding range_message below_min above_max
  amount_error o none = some "Invalid number format"
  amount_error o (some amount) =
      if f.is_finite amount
      then (if below_min o amount || above_max o amount
          then some (range_message o.fiat_code o.min_amount o.max_amount)
          else none)
      else some "Invalid number format"

  -- What is wrong with an amount; an empty one is not complained about.
  unfoldable pub range_error : SmallOrder → String → Option String
  unfolding amount_error
  range_error o input = if is_empty input then none else amount_error o (f.parse input)

  unfoldable pub validate_range_amount : TakeOrderState → TakeOrderState
  unfolding range_error
  validate_range_amount t = record t { validation_error = range_error t.order t.amount_input }

  -- The amount is a finite number within the bounds that the order has.
  pub record IsInRange (t : TakeOrderState) : Type 0 where
    pub amount : f.Value
    pub reads : f.parse t.amount_input ≡ some amount
    pub finite : f.is_finite amount ≡ true
    pub not_below : below_min t.order amount ≡ false
    pub not_above : above_max t.order amount ≡ false

  -- The amount text of an order with a range that is sent reads in the range; what is sent with it is the
  -- integer that the text reads as, or nothing.
  abbrev pub IsSound : Task → Type 0
  IsSound (Task.take_order t amount) =
      t.is_range_order ≡ true → IsInRange t × (amount ≡ parse_i64 (trim t.amount_input))
  IsSound task = Unit

  abbrev pub AreSound : List Task → Type 0
  AreSound [] = Unit
  AreSound (task ∷ tasks) = IsSound task × AreSound tasks

  -- A user who looks at the order book.
  abbrev pub browsing : App → App
  browsing app = record app {
    active_tab = Tab.user UserTab.orders;
    mode = UiMode.user_mode UserMode.normal;
  }

  -- The popup from Enter on an order on, as long as it stays open.
  pub data TakePopup (h : Host) : App → Type 0 where
    opened :
        (app : App) (t : TakeOrderState)
        → (handle_enter_key h (browsing app)).app.mode ≡ UiMode.user_mode (UserMode.taking_order t)
        → TakePopup h (handle_enter_key h (browsing app)).app
    pressed :
        {app : App} (t : TakeOrderState) (e : KeyEvent)
        → TakePopup h app
        → (handle_key_event h validate_range_amount e app).app.mode
          ≡ UiMode.user_mode (UserMode.taking_order t)
        → TakePopup h (handle_key_event h validate_range_amount e app).app
