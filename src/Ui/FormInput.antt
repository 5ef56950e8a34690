-- ===== src/Ui/FormInput.antt =====
-- key_handler/form_input.rs: typing in the order form, in its currency picker and in a take popup.
use Prim.Native.Char.{Char, code}
use Prim.Native.String.{[] as empty, ◌∷◌ as cons, ◌++◌, len}
use mostrix.Prelude.{
  ℕ, ◌+◌, ◌-◌, ◌%◌, min, String, Bool, true, false, not, ◌&&◌, ◌||◌, Option, none, some, List, [],
  ◌∷◌, length, find, position, get_elem?, unwrap_or, leb, ◌==◌, str_eq, trim, push, pop,
  if◌then◌else◌,
}
use mostrix.Ui.Form.{FormField, FormState, CurrencyPicker, TakeOrderState}
use mostrix.Ui.Mode.{UiMode, UserMode}
use mostrix.Ui.App.{App, set_mode}
use mostrix.Ui.Host.{Host}
use mostrix.Ui.Key.{KeyCode}
use mostrix.Ui.Currencies.{
  CurrencyOption, upper, to_ascii_uppercase, resolve_options, filter_options,
}

abbrev is_order_type : FormField → Bool
is_order_type FormField.order_type = true
is_order_type _ = false

abbrev pub is_currency : FormField → Bool
is_currency FormField.currency = true
is_currency _ = false

abbrev pub is_creating_order_text_input : UiMode → Bool
is_creating_order_text_input (UiMode.user_mode (UserMode.creating_order form)) =
    not (is_order_type form.focused)
is_creating_order_text_input _ = false

abbrev pub is_digit : ℕ → Bool
is_digit n = leb b'0' n && leb n b'9'

abbrev is_letter : ℕ → Bool
is_letter n = (leb b'A' n && leb n b'Z') || (leb b'a' n && leb n b'z')

abbrev is_alphanumeric : ℕ → Bool
is_alphanumeric n = is_digit n || is_letter n

abbrev closed : CurrencyPicker
closed = record { is_open = false; filter = ""; selected = 0 }

abbrev close_currency_picker : FormState → FormState
close_currency_picker form = record form { currency_picker = closed }

-- The current code is highlighted, where it is offered.
unfoldable pub open_currency_picker : List String → FormState → FormState
unfolding resolve_options to_ascii_uppercase
open_currency_picker accepted form = record form {
  currency_picker = record {
    is_open = true;
    filter = "";
    selected =
        unwrap_or
          (position (λ o. str_eq o.code (to_ascii_uppercase (trim form.fiat_code)))
            (resolve_options accepted))
          0;
  };
}

abbrev all_letters : String → Bool
all_letters empty = true
all_letters (cons c s) = is_letter (code c) && all_letters s

-- Exactly three letters.
unfoldable pub custom_currency_code : String → Option String
unfolding to_ascii_uppercase
custom_currency_code filter =
    let code = to_ascii_uppercase (trim filter) in
    if (len code == 3) && all_letters code then some code else none

abbrev code_at : List CurrencyOption → ℕ → Option String
code_at options i = elim (get_elem? options i) [ none ↦ none | some o ↦ some o.code ]

-- A typed code where every currency is accepted, else the highlighted one.
abbrev typed_or_highlighted : List String → String → List CurrencyOption → ℕ → Option String
typed_or_highlighted [] filter filtered i = elim (custom_currency_code filter) [
  | some code ↦ some code
  | none ↦ code_at filtered i
]
typed_or_highlighted (a ∷ more) filter filtered i = code_at filtered i

-- What Enter picks: an exact code first.
unfoldable pub picked_code : List String → CurrencyPicker → Option String
unfolding resolve_options filter_options custom_currency_code to_ascii_uppercase
picked_code accepted p =
    let filtered = filter_options (resolve_options accepted) p.filter in
    let filter = to_ascii_uppercase (trim p.filter) in
    elim (find (λ o. str_eq o.code filter) filtered) [
      | some o ↦ some o.code
      | none ↦ typed_or_highlighted accepted filter filtered (min p.selected (length filtered - 1))
    ]

abbrev filtering : String → FormState → FormState
filtering text form = record form {
  currency_picker = record { is_open = true; filter = text; selected = 0 };
}

abbrev highlighting : ℕ → FormState → FormState
highlighting i form = record form { currency_picker = record form.currency_picker { selected = i } }

-- The highlighted option after Up (`true`) or Down, round the `n` options.
abbrev around : Bool → ℕ → ℕ → ℕ
around up n i = if n == 0 then i else if up then (i + n - 1) % n else (i + 1) % n

-- A key while the picker is open: none goes on.
unfoldable pub open_picker_key : List String → KeyCode → FormState → FormState
unfolding resolve_options filter_options picked_code push pop upper
open_picker_key accepted KeyCode.up form =
    let p = form.currency_picker in
    highlighting
      (around true (length (filter_options (resolve_options accepted) p.filter)) p.selected) form
open_picker_key accepted KeyCode.down form =
    let p = form.currency_picker in
    highlighting
      (around false (length (filter_options (resolve_options accepted) p.filter)) p.selected) form
open_picker_key accepted KeyCode.enter form = close_currency_picker (record form {
  fiat_code = unwrap_or (picked_code accepted form.currency_picker) form.fiat_code;
})
open_picker_key accepted KeyCode.esc form = close_currency_picker form
open_picker_key accepted KeyCode.backspace form = filtering (pop form.currency_picker.filter) form
open_picker_key accepted (KeyCode.char c) form =
    if is_alphanumeric (code c)
    then filtering (push form.currency_picker.filter (upper c)) form
    else form
open_picker_key accepted k form = form

-- A key while it is closed: Enter, a space or a letter or digit opens it.
unfoldable pub closed_picker_key : List String → KeyCode → FormState → Option FormState
unfolding open_currency_picker push upper
closed_picker_key accepted KeyCode.enter form = some (open_currency_picker accepted form)
closed_picker_key accepted (KeyCode.char c) form =
    if code c == b' '
    then some (open_currency_picker accepted form)
    else if is_alphanumeric (code c)
    then some (filtering (push "" (upper c)) (open_currency_picker accepted form))
    else none
closed_picker_key accepted k form = none

-- `none` where the key goes on.
unfoldable pub picker_key : List String → KeyCode → FormState → Option FormState
unfolding open_picker_key closed_picker_key
picker_key accepted k form =
    if not (is_currency form.focused)
    then none
    else if form.currency_picker.is_open
    then some (open_picker_key accepted k form)
    else closed_picker_key accepted k form

-- The text of the focused field; an order type has none.
unfoldable pub edit_field : (String → String) → FormState → FormState
edit_field f form = elim form.focused [
  | FormField.order_type ↦ form
  | FormField.currency ↦ record form { fiat_code = f form.fiat_code }
  | FormField.amount_sats ↦ record form { amount = f form.amount }
  | FormField.fiat_amount ↦ record form { fiat_amount = f form.fiat_amount }
  | FormField.fiat_amount_max ↦
      if form.use_range
      then record form { fiat_amount_max = f form.fiat_amount_max }
      else record form { fiat_amount = f form.fiat_amount }
  | FormField.payment_method ↦ record form { payment_method = f form.payment_method }
  | FormField.premium ↦ record form { premium = f form.premium }
  | FormField.invoice ↦ record form { invoice = f form.invoice }
  | FormField.expiration_days ↦ record form { expiration_days = f form.expiration_days }
]

-- The space toggles buying and selling, and a range of amounts.
unfoldable pub press_space : (String → String) → FormState → FormState
press_space to_lowercase form = elim form.focused [
  | FormField.order_type ↦ record form {
    kind = if str_eq (to_lowercase form.kind) "buy" then "sell" else "buy";
  }
  | FormField.fiat_amount ↦ record form { use_range = not form.use_range }
  | FormField.payment_method ↦ record form { payment_method = form.payment_method ++ " " }
  | _ ↦ form
]

module _ (h : Host) (validate_range_amount : TakeOrderState → TakeOrderState) where
  type_in_form : Char → FormState → FormState
  unfolding press_space edit_field push
  type_in_form c form =
      if code c == b' ' then press_space h.to_lowercase form else edit_field (λ s. push s c) form

  -- Digits and points only, and only for a range order.
  unfoldable pub type_in_take : Char → TakeOrderState → TakeOrderState
  unfolding push
  type_in_take c t =
      if t.is_range_order && (is_digit (code c) || (code c == b'.'))
      then validate_range_amount (record t { amount_input = push t.amount_input c })
      else t

  unfoldable pub char_mode : Char → UiMode → UiMode
  unfolding type_in_form type_in_take
  char_mode c (UiMode.user_mode (UserMode.creating_order form)) =
      UiMode.user_mode (UserMode.creating_order (type_in_form c form))
  char_mode c (UiMode.user_mode (UserMode.taking_order t)) =
      UiMode.user_mode (UserMode.taking_order (type_in_take c t))
  char_mode c mode = mode

  -- `handle_char_input`
  abbrev pub handle_char_input : Char → App → App
  handle_char_input c app = set_mode (char_mode c app.mode) app

  unfoldable pub backspace_in_take : TakeOrderState → TakeOrderState
  unfolding pop
  backspace_in_take t =
      if t.is_range_order
      then validate_range_amount (record t { amount_input = pop t.amount_input })
      else t

  unfoldable pub backspace_mode : UiMode → UiMode
  unfolding edit_field backspace_in_take pop
  backspace_mode (UiMode.user_mode (UserMode.creating_order form)) =
      UiMode.user_mode (UserMode.creating_order (edit_field pop form))
  backspace_mode (UiMode.user_mode (UserMode.taking_order t)) =
      UiMode.user_mode (UserMode.taking_order (backspace_in_take t))
  backspace_mode mode = mode

  -- `handle_backspace`
  abbrev pub handle_backspace : App → App
  handle_backspace app = set_mode (backspace_mode app.mode) app
