-- ===== src/Ui/Form.antt =====
-- ui/orders.rs: the form of a new order and of a take, and the order in which fields take the focus.
use mostrix.Prelude.{ℕ, String, Bool, false, Option, if◌then◌else◌}
use mostrix.Protocol.{SmallOrder}

pub data FormField : Type 0 where
  order_type currency amount_sats fiat_amount fiat_amount_max : FormField
  payment_method premium invoice expiration_days : FormField

unfoldable pub next : FormField → Bool → FormField
next order_type use_range = currency
next currency use_range = amount_sats
next amount_sats use_range = fiat_amount
next fiat_amount use_range = if use_range then fiat_amount_max else payment_method
next fiat_amount_max use_range = payment_method
next payment_method use_range = premium
next premium use_range = invoice
next invoice use_range = expiration_days
next expiration_days use_range = order_type

unfoldable pub prev : FormField → Bool → FormField
prev order_type use_range = expiration_days
prev currency use_range = order_type
prev amount_sats use_range = currency
prev fiat_amount use_range = amount_sats
prev fiat_amount_max use_range = fiat_amount
prev payment_method use_range = if use_range then fiat_amount_max else fiat_amount
prev premium use_range = payment_method
prev invoice use_range = premium
prev expiration_days use_range = invoice

pub record CurrencyPicker : Type 0 where
  pub is_open : Bool
  pub filter : String
  pub selected : ℕ

pub record FormState : Type 0 where
  pub kind : String
  pub fiat_code : String
  pub fiat_amount : String
  pub fiat_amount_max : String
  pub amount : String
  pub payment_method : String
  pub premium : String
  pub invoice : String
  pub expiration_days : String
  pub focused : FormField
  pub use_range : Bool
  pub currency_picker : CurrencyPicker

abbrev pub new_default_form : FormState
new_default_form = record {
  kind = "buy";
  fiat_code = "USD";
  fiat_amount = "";
  fiat_amount_max = "";
  amount = "0";
  payment_method = "";
  premium = "0";
  invoice = "";
  expiration_days = "1";
  focused = currency;
  use_range = false;
  currency_picker = record { is_open = false; filter = ""; selected = 0 };
}

pub record TakeOrderState : Type 0 where
  pub order : SmallOrder
  pub amount_input : String
  pub is_range_order : Bool
  pub validation_error : Option String
  pub selected_button : Bool
