-- ===== src/Dm/Judge.antt =====
-- util/dm_utils/mod.rs: what `handle_trade_dm_for_order` computes from a message, the newest row of its
-- order and the table row before the upsert.
use mathlib.Core.Option
use mostrix.Prelude.{
  ℤ, String, Bool, true, false, not, ◌&&◌, Option, none, some, List, is_some, is_some_and, or,
  and_then, same, ◌==◌, ltb, str_eq, if◌then◌else◌,
}
use mostrix.Protocol.{
  Kind, Status, Action, Payload, SmallOrder, Message, Status-discrete, Action-discrete,
}
use mostrix.OrderStatus.{should_apply_status_transition, should_strictly_advance_status}
use mostrix.Messages.{OrderMessage}
use mostrix.Messages.Snapshot.{small_order_from_payload, merge_order_snapshots}
use mostrix.Db.{Order, update_status}
use mostrix.Dm.{Dm}
use mostrix.Dm.Terminal.{small_order_ref_from_payload, resolved_status_candidate}
use mostrix.Dm.NewOrder.{new_order_would_regress_messages_row}

-- `sat_amount` and `invoice` of the payload, by action.
abbrev pub sat_and_invoice : Action → Option Payload → Option ℤ × Option String
sat_and_invoice Action.pay_invoice (some (Payload.payment_request o invoice amount)) =
    (or amount (Option.map (λ (x : SmallOrder). x.amount) o), some invoice)
sat_and_invoice Action.pay_bond_invoice (some (Payload.payment_request o invoice amount)) =
    (or amount (Option.map (λ (x : SmallOrder). x.amount) o), some invoice)
sat_and_invoice Action.add_invoice (some (Payload.order o)) = (some o.amount, none)
sat_and_invoice Action.add_bond_invoice (some (Payload.bond_payout_request o slashed_at)) =
    (some o.amount, none)
sat_and_invoice _ _ = (none, none)

abbrev pub is_pay : Action → Bool
is_pay Action.pay_invoice = true
is_pay Action.pay_bond_invoice = true
is_pay _ = false

abbrev needs_amount : Action → Bool
needs_amount Action.add_invoice = true
needs_amount Action.add_bond_invoice = true
needs_amount _ = false

unfoldable pub is_actionable_notification : Message → Bool
is_actionable_notification m =
    let (sat_amount, invoice) = sat_and_invoice m.action m.payload in
    if is_pay m.action
    then is_some_and invoice (λ s. not (str_eq s ""))
    else if needs_amount m.action
    then is_some sat_amount
    else true

-- `effective_is_mine_for_trade_dm_message`
unfoldable pub effective_is_mine_for_trade_dm_message :
    Bool → Option Bool → Option Bool → Option Bool
effective_is_mine_for_trade_dm_message had_row post_upsert prior =
    if had_row then or post_upsert prior else prior

abbrev kind_from_take_action : Action → Option Kind
kind_from_take_action Action.take_sell = some Kind.sell
kind_from_take_action Action.take_buy = some Kind.buy
kind_from_take_action _ = none

unfoldable pub status_candidate : Message → Option Status
status_candidate m =
    if same Action-discrete m.action Action.cant_do
    then none
    else resolved_status_candidate m.action m.payload

-- The wire order that a table row stands for.
unfoldable pub small_order_from_db_order : Order → SmallOrder
small_order_from_db_order row = record {
  id = some row.id;
  kind = row.kind;
  status = row.status;
  amount = row.amount;
  fiat_code = row.fiat_code;
  min_amount = row.min_amount;
  max_amount = row.max_amount;
  fiat_amount = row.fiat_amount;
  payment_method = row.payment_method;
  premium = row.premium;
  buyer_trade_pubkey = none;
  seller_trade_pubkey = none;
  buyer_invoice = row.buyer_invoice;
  created_at = row.created_at;
  expires_at = row.expires_at;
}

-- What a call compares with: the newest row of the order and the table row before the upsert.
module _ (d : Dm) (prior : Option OrderMessage) (db_order : Option Order) where
  unfoldable pub is_new_message : Bool
  is_new_message = elim prior [
    | none ↦ true
    | some p ↦
        if same Action-discrete d.message.action p.message.action
        then ltb p.timestamp d.timestamp
        else true
  ]

  unfoldable pub effective_order_kind : Option Kind
  effective_order_kind =
      or
        (or
          (or (and_then (small_order_ref_from_payload d.message.payload) (λ o. o.kind))
            (and_then prior (λ p. p.order_kind)))
          (kind_from_take_action d.message.action))
        (and_then db_order (λ r. r.kind))

  abbrev pub status_from_db : Option Status
  status_from_db = and_then db_order (λ r. r.status)

  abbrev pub baseline_status : Option Status
  baseline_status = or status_from_db (and_then prior (λ p. p.order_status))

  unfoldable pub should_accept_candidate : Bool
  unfolding effective_order_kind
  should_accept_candidate =
      is_some_and (status_candidate d.message)
        (λ c. should_apply_status_transition baseline_status c effective_order_kind)

  unfoldable pub effective_order_status : Option Status
  effective_order_status =
      if should_accept_candidate
      then or (status_candidate d.message) baseline_status
      else baseline_status

  -- The status write after the upsert: the candidate if it is accepted and new, else the status that
  -- the table held before.
  abbrev write_candidate : Option Status → List Order → List Order
  write_candidate none rows = rows
  write_candidate (some c) rows =
      if should_accept_candidate
      then (if is_some_and baseline_status (λ b. same Status-discrete b c)
          then rows
          else update_status d.order_id c rows)
      else elim status_from_db [ none ↦ rows | some st ↦ update_status d.order_id st rows ]

  unfoldable pub write_status : List Order → List Order
  write_status rows = write_candidate (status_candidate d.message) rows

  unfoldable pub should_replace_row : Bool
  unfolding effective_order_kind
  should_replace_row = elim prior [
    | none ↦ true
    | some p ↦
        if new_order_would_regress_messages_row d.message.action p.message.action
        then false
        else if ltb p.timestamp d.timestamp
        then true
        else if d.timestamp == p.timestamp
        then not (same Action-discrete d.message.action p.message.action)
        else is_some_and (status_candidate d.message)
            (λ c. should_strictly_advance_status p.order_status c effective_order_kind)
  ]

  -- `post` is the table row after the upsert.
  unfoldable pub order_message : Option Order → OrderMessage
  unfolding effective_order_kind effective_order_status
  order_message post = record {
    message = d.message;
    timestamp = d.timestamp;
    sender = d.sender;
    order_id = some d.order_id;
    trade_index = d.trade_index;
    sat_amount =
        or (sat_and_invoice d.message.action d.message.payload).0
          (and_then prior (λ p. p.sat_amount));
    buyer_invoice =
        or (sat_and_invoice d.message.action d.message.payload).1
          (and_then prior (λ p. p.buyer_invoice));
    order_kind = effective_order_kind;
    is_mine =
        effective_is_mine_for_trade_dm_message (is_some db_order)
          (Option.map (λ (r : Order). r.is_mine) post) (and_then prior (λ p. p.is_mine));
    order_status = effective_order_status;
    order_snapshot =
        merge_order_snapshots (small_order_from_payload d.message.payload)
          (and_then prior (λ p. p.order_snapshot)) (Option.map small_order_from_db_order db_order);
    read = false;
    auto_popup_shown =
        is_some_and prior
          (λ p. p.auto_popup_shown && same Action-discrete p.message.action d.message.action);
  }
