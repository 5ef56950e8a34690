-- ===== src/Db/Rows.antt =====
-- models.rs, util/db_utils.rs and util/chat_utils.rs: rows built from wire orders.
use mostrix.Prelude.{
  ℕ, ℤ, positive, as_i64, String, Bool, true, Option, none, some, List, is_some, or, unwrap_or,
  and_then, str_eq, ◌==◌, ◌||◌, if◌then◌else◌,
}
use mathlib.Core.Option
use mostrix.Protocol.{Uuid, PublicKey, Keys, SmallOrder}
use mostrix.Db.{Env, Order, get_by_id, insert_or_update, update_db}

-- A payload id, if there is one, is the routed order id.
abbrev pub id_matches : Option Uuid → Uuid → Bool
id_matches none i = true
id_matches (some p) i = p == i

module _ (e : Env) where
  open e use {public_key, secret_hex, parse_pubkey, shared_hex, now, new_uuid}

  -- chat_utils.rs `derive_shared_key_hex`
  unfoldable pub derive_shared_key_hex : Keys → Option String → Option String
  derive_shared_key_hex keys counterparty =
      and_then (and_then counterparty parse_pubkey) (shared_hex keys)

  abbrev counterparty_of : PublicKey → PublicKey → PublicKey → String → String → Option String
  counterparty_of mine buyer seller buyer_s seller_s =
      if mine == buyer then some seller_s else if mine == seller then some buyer_s else none

  abbrev shared_with : Keys → String → Option (String × String)
  shared_with keys cp = Option.map (λ hex. (cp, hex)) (derive_shared_key_hex keys (some cp))

  -- chat_utils.rs `order_chat_counterparty_and_shared_hex`
  unfoldable pub order_chat_counterparty_and_shared_hex :
      Keys → SmallOrder → Option (String × String)
  unfolding derive_shared_key_hex
  order_chat_counterparty_and_shared_hex keys o = and_then o.buyer_trade_pubkey λ buyer_s.
      and_then o.seller_trade_pubkey λ seller_s.
        if str_eq buyer_s "" || str_eq seller_s ""
        then none
        else and_then (parse_pubkey buyer_s) λ buyer. and_then (parse_pubkey seller_s) λ seller.
          and_then (counterparty_of (public_key keys) buyer seller buyer_s seller_s)
            (shared_with keys)

  -- models.rs `build_order_from_small_order`
  unfoldable pub build_order_from_small_order :
      Uuid → SmallOrder → Keys → Option Order → Option ℤ → Order
  unfolding order_chat_counterparty_and_shared_hex
  build_order_from_small_order id o keys existing message_request_id =
      let chat = order_chat_counterparty_and_shared_hex keys o in
      record {
        id = id;
        kind = o.kind;
        status = o.status;
        amount = o.amount;
        fiat_code = o.fiat_code;
        min_amount = o.min_amount;
        max_amount = o.max_amount;
        fiat_amount = o.fiat_amount;
        payment_method = o.payment_method;
        premium = o.premium;
        trade_keys = and_then existing (λ r. r.trade_keys);
        counterparty_pubkey =
            or (Option.map (λ p. p.0) chat) (and_then existing (λ r. r.counterparty_pubkey));
        order_chat_shared_key_hex =
            or (Option.map (λ p. p.1) chat) (and_then existing (λ r. r.order_chat_shared_key_hex));
        dispute_id = and_then existing (λ r. r.dispute_id);
        solver_pubkey = and_then existing (λ r. r.solver_pubkey);
        dispute_chat_shared_key_hex = and_then existing (λ r. r.dispute_chat_shared_key_hex);
        is_mine = unwrap_or (Option.map (λ (r : Order). r.is_mine) existing) true;
        buyer_invoice = o.buyer_invoice;
        request_id = or message_request_id (and_then existing (λ r. r.request_id));
        trade_index = and_then existing (λ r. r.trade_index);
        created_at = or (and_then existing (λ r. r.created_at)) (some now);
        expires_at = o.expires_at;
        last_seen_dm_ts = and_then existing (λ r. r.last_seen_dm_ts);
      }

  -- models.rs `upsert_from_small_order_dm`; an `Err` leaves the table as it was. An insertion needs a
  -- trade index, which only an existing row has, so it never happens.
  unfoldable pub upsert_from_small_order_dm :
      Uuid → SmallOrder → Keys → Option ℤ → List Order → List Order
  upsert_from_small_order_dm id o keys message_request_id rows =
      let existing = get_by_id id rows in
      let row =
        build_order_from_small_order id (record o { id = some id }) keys existing
          message_request_id in
      if id_matches o.id id
      then (if is_some existing
          then update_db row rows
          else if is_some row.trade_index
          then insert_or_update row rows
          else rows)
      else rows

  -- models.rs `Order::new`; `none` is the `Err` of a non-positive trade index.
  unfoldable pub new_order_row : SmallOrder → Keys → Option ℤ → ℤ → Bool → Option Order
  new_order_row o keys request_id trade_index is_maker =
      if positive trade_index
      then some (record {
        id = unwrap_or o.id new_uuid;
        kind = o.kind;
        status = o.status;
        amount = o.amount;
        fiat_code = o.fiat_code;
        min_amount = o.min_amount;
        max_amount = o.max_amount;
        fiat_amount = o.fiat_amount;
        payment_method = o.payment_method;
        premium = o.premium;
        trade_keys = some (secret_hex keys);
        counterparty_pubkey = none;
        order_chat_shared_key_hex = none;
        dispute_id = none;
        solver_pubkey = none;
        dispute_chat_shared_key_hex = none;
        is_mine = is_maker;
        buyer_invoice = o.buyer_invoice;
        request_id = request_id;
        trade_index = some trade_index;
        created_at = some now;
        expires_at = o.expires_at;
        last_seen_dm_ts = none;
      })
      else none

  -- db_utils.rs `save_order`: the table, and whether the result is `Ok`; an error of `Order::new` is
  -- swallowed.
  unfoldable pub save_order : SmallOrder → Keys → ℕ → ℤ → Bool → List Order → List Order × Bool
  unfolding new_order_row
  save_order o keys request_id trade_index is_maker rows =
      elim (new_order_row o keys (some (as_i64 request_id)) trade_index is_maker) [
        | none ↦ (rows, true)
        | some row ↦ (insert_or_update row rows, true)
      ]
