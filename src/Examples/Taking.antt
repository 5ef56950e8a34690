-- ===== src/Examples/Taking.antt =====
-- key_handler and order_utils/helper.rs: the amount of a take, on concrete inputs.
use Prim.Native.Char.{char}
use mostrix.Prelude.{ℕ, ◌≡◌, refl, pos, true, none, some, [], ◌∷◌, ltb, parse_i64, trim, lookup}
use mostrix.Protocol.{Status, SmallOrder}
use mostrix.Ui.Form.{TakeOrderState}
use mostrix.Ui.Mode.{UiMode, UserMode}
use mostrix.Ui.App.{App}
use mostrix.Ui.Host.{Host}
use mostrix.Ui.Task.{Task, Step}
use mostrix.Ui.Key.{KeyCode}
use mostrix.Ui.Selection.{order_passes_currency_filter, display_idx}
use mostrix.Ui.Enter.{handle_enter_key}
use mostrix.Ui.Enter.Normal.{is_my_pending_book_order, new_take}
use mostrix.Ui.Keyboard.{handle_key_event}
use mostrix.Ui.Take.{Float64, validate_range_amount, browsing, TakePopup, AreSound}
use mostrix.Ui.Take.Range.{taken_in_range}
use mostrix.Samples.{sample_order}
use mostrix.Examples.Interface.{host, start, key}

-- Whole numbers only.
abbrev whole : Float64
whole = record {
  Value = ℕ;
  parse = λ s. elim (parse_i64 s) [ some (pos n) ↦ some n | _ ↦ none ];
  is_finite = λ n. true;
  as_f64 = λ z. elim z [ pos n ↦ n | _ ↦ 0 ];
  less = ltb;
  to_string = λ n. "a bound";
}

abbrev ranged : SmallOrder
ranged = record (sample_order Status.pending) {
  min_amount = some (pos 5);
  max_amount = some (pos 9);
}

abbrev market : Host
market = record host { orders = ranged ∷ [] }

abbrev press : KeyCode → App → Step
press code app = handle_key_event market (validate_range_amount whole) (key code) app

abbrev opened : App
opened = (handle_enter_key market (browsing whole start)).app

-- `7` is typed.
abbrev seven : KeyCode
seven = KeyCode.char (char 55 tt)

abbrev typed : App
typed = (press seven opened).app

abbrev with_seven : TakeOrderState
with_seven = record (new_take ranged) { amount_input = "7" }

opened_test : opened.mode ≡ UiMode.user_mode (UserMode.taking_order (new_take ranged))
unfolding handle_enter_key display_idx order_passes_currency_filter is_my_pending_book_order lookup
opened_test = refl

typed_test : typed.mode ≡ UiMode.user_mode (UserMode.taking_order with_seven)
unfolding handle_enter_key display_idx order_passes_currency_filter is_my_pending_book_order lookup
    handle_key_event validate_range_amount parse_i64 trim
typed_test = refl

sent_test : (press KeyCode.enter typed).tasks ≡ Task.take_order with_seven (some (pos 7)) ∷ []
unfolding handle_enter_key display_idx order_passes_currency_filter is_my_pending_book_order lookup
    handle_key_event validate_range_amount parse_i64 trim
sent_test = refl

taken_in_range_example : AreSound whole (press KeyCode.enter typed).tasks
taken_in_range_example = taken_in_range whole market (key KeyCode.enter) (
    TakePopup.pressed with_seven (key seven) (TakePopup.opened start (new_take ranged) opened_test)
      typed_test)
