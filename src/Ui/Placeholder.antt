-- ===== src/Ui/Placeholder.antt =====
-- ui/orders.rs: the row that stands for a new trade until its first message arrives.
use mostrix.Prelude.{ℕ, true, false, Option, none, some, and_then, unwrap_or}
use mostrix.Protocol.{Uuid, PublicKey, Status, Action, Payload, SmallOrder}
use mostrix.Messages.{OrderMessage}
use mostrix.Ui.Host.{Host}
use mostrix.Ui.Mode.{OrderSuccess, OrderChatStaticHeader}

maker_action : Option Status → Action
maker_action (some Status.waiting_maker_bond) = Action.pay_bond_invoice
maker_action _ = Action.new_order

taker_action : Option Status → Action
taker_action (some Status.waiting_taker_bond) = Action.pay_bond_invoice
taker_action (some Status.waiting_payment) = Action.waiting_seller_to_pay
taker_action (some Status.waiting_buyer_invoice) = Action.waiting_buyer_invoice
taker_action (some Status.settled_hold_invoice) = Action.waiting_buyer_invoice
taker_action (some Status.fiat_sent) = Action.fiat_sent
taker_action _ = Action.buyer_took_order

abbrev header_action : OrderChatStaticHeader → Option Status → Action
header_action h status = elim h.is_mine [ true ↦ maker_action status | false ↦ taker_action status ]

unfoldable pub placeholder_action_for_order_success : OrderSuccess → Option Action
unfolding maker_action taker_action
placeholder_action_for_order_success os = elim os.static_header [
  | none ↦ none
  | some h ↦ some (header_action h os.status)
]

unfoldable pub small_order_from_order_success : OrderSuccess → SmallOrder
small_order_from_order_success os = record {
  id = os.order_id;
  kind = os.kind;
  status = os.status;
  amount = os.amount;
  fiat_code = os.fiat_code;
  min_amount = os.min_amount;
  max_amount = os.max_amount;
  fiat_amount = os.fiat_amount;
  payment_method = os.payment_method;
  premium = os.premium;
  buyer_trade_pubkey = none;
  seller_trade_pubkey = none;
  buyer_invoice = none;
  created_at = and_then os.static_header (λ h. h.created_at);
  expires_at = none;
}

unfoldable pub placeholder_row :
    ℕ → OrderSuccess → OrderChatStaticHeader → Uuid → Action → PublicKey → OrderMessage
unfolding small_order_from_order_success
placeholder_row now os h i action sender = record {
  message = record {
    action = action;
    payload = some (Payload.order (small_order_from_order_success os));
    request_id = none;
  };
  timestamp = now;
  sender = sender;
  order_id = some i;
  trade_index = unwrap_or os.trade_index h.trade_index;
  sat_amount = none;
  buyer_invoice = none;
  order_kind = os.kind;
  is_mine = some h.is_mine;
  order_status = os.status;
  order_snapshot = some (small_order_from_order_success os);
  read = true;
  auto_popup_shown = true;
}

unfoldable pub try_placeholder_order_message_from_success :
    Host → OrderSuccess → Option OrderMessage
unfolding placeholder_action_for_order_success placeholder_row
try_placeholder_order_message_from_success host os = and_then os.static_header (λ h.
    and_then os.order_id (λ i. and_then (placeholder_action_for_order_success os) (λ action.
      and_then (host.parse_pubkey h.initiator_trade_pubkey)
        (λ sender. some (placeholder_row host.now os h i action sender)))))
