-- ===== src/Samples.antt =====
-- Concrete orders, messages and states, on which the examples run the models.
use mostrix.Prelude.{ℕ, pos, Bool, true, false, Option, none, some, List, []}
use mostrix.Protocol.{Kind, Status, Action, Payload, SmallOrder, Message}
use mostrix.Messages.{OrderMessage}
use mostrix.Db.{Env, Order}
use mostrix.Dm.{State, Dm}

abbrev pub sample_env : Env
sample_env = record {
  public_key = λ k. k;
  secret_hex = λ k. "secret";
  parse_pubkey = λ s. some 9;
  shared_hex = λ k p. some "shared";
  now = 100;
  new_uuid = 77;
  order_chat_since = λ i. none;
  dispute_chat_since = λ i. none;
  format_local_timestamp = λ t. some "today";
}

abbrev pub sample_order : Status → SmallOrder
sample_order s = record {
  id = some 1;
  kind = some Kind.buy;
  status = some s;
  amount = pos 1000;
  fiat_code = "EUR";
  min_amount = none;
  max_amount = none;
  fiat_amount = pos 50;
  payment_method = "SEPA";
  premium = pos 0;
  buyer_trade_pubkey = none;
  seller_trade_pubkey = none;
  buyer_invoice = none;
  created_at = none;
  expires_at = none;
}

abbrev pub sample_row : Bool → Status → Order
sample_row mine s = record {
  id = 1;
  kind = some Kind.buy;
  status = some s;
  amount = pos 1000;
  fiat_code = "EUR";
  min_amount = none;
  max_amount = none;
  fiat_amount = pos 50;
  payment_method = "SEPA";
  premium = pos 0;
  trade_keys = some "secret";
  counterparty_pubkey = none;
  order_chat_shared_key_hex = none;
  dispute_id = none;
  solver_pubkey = none;
  dispute_chat_shared_key_hex = none;
  is_mine = mine;
  buyer_invoice = none;
  request_id = none;
  trade_index = some (pos 3);
  created_at = some 90;
  expires_at = none;
  last_seen_dm_ts = some 40;
}

abbrev pub sample_message : Action → Option Payload → Message
sample_message a p = record { action = a; payload = p; request_id = none }

-- A row of the Messages tab of order 1.
abbrev pub sample_order_message : Action → ℕ → Option Status → OrderMessage
sample_order_message a t s = record {
  message = sample_message a none;
  timestamp = t;
  sender = 5;
  order_id = some 1;
  trade_index = pos 3;
  sat_amount = none;
  buyer_invoice = none;
  order_kind = some Kind.buy;
  is_mine = some true;
  order_status = s;
  order_snapshot = none;
  read = false;
  auto_popup_shown = false;
}

abbrev pub sample_dm : Action → Option Payload → ℕ → Dm
sample_dm a p t = record {
  order_id = 1;
  trade_index = pos 3;
  message = sample_message a p;
  timestamp = t;
  sender = 5;
  trade_keys = 8;
  notify = true;
}

abbrev pub sample_state : List Order → List OrderMessage → State
sample_state rows messages = record {
  rows = rows;
  messages = messages;
  pending_notifications = 0;
  notifications = [];
  chat_cmds = [];
  notices = [];
}
