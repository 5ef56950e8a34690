-- ===== src/Dm/NewOrder.antt =====
-- util/dm_utils/mod.rs: `NewOrder` on the trade-DM listener.
use mostrix.Prelude.{
  Bool, true, false, not, ◌&&◌, Option, none, some, same, unwrap_or, is_some_and, if◌then◌else◌,
}
use mostrix.Protocol.{Status, Action, Payload, SmallOrder, Status-discrete, Action-discrete}
use mostrix.Db.{Env, Order, get_by_id, update_status}
use mostrix.Db.Rows.{save_order}
use mostrix.Dm.{
  State, Dm, track_order, maker_book_changed, send_notice, untrack_chats,
  remove_order_from_messages,
}
use mostrix.Dm.Terminal.{is_pre_active_taker_take, is_pre_active_maker_listing}
use mostrix.Dm.Effects.{upsert_order_from_trade_dm, drop_pre_active_taker_take}

unfoldable pub small_order_pending_from_new_order_payload : Option Payload → Option SmallOrder
small_order_pending_from_new_order_payload (some (Payload.order o)) =
    if is_some_and o.status (λ s. same Status-discrete s Status.pending) then some o else none
small_order_pending_from_new_order_payload _ = none

-- A replayed `NewOrder` against a row that shows another action.
unfoldable pub new_order_would_regress_messages_row : Action → Action → Bool
new_order_would_regress_messages_row action existing =
    same Action-discrete action Action.new_order
    && not (same Action-discrete existing Action.new_order)

module _ (e : Env) where
  unfoldable pub revert_maker_to_pending_on_book_republish : Dm → State → State
  revert_maker_to_pending_on_book_republish d s =
      let t = upsert_order_from_trade_dm e d s in
      let u = record t {
        rows = update_status d.order_id Status.pending t.rows;
        messages = remove_order_from_messages d.order_id t.messages;
      } in
      send_notice (untrack_chats d.order_id u) maker_book_changed

  -- The flag is `false` where `save_order` returns an `Err`.
  unfoldable pub persist_range_child_listing_from_new_order : Dm → SmallOrder → State → State × Bool
  persist_range_child_listing_from_new_order d o s =
      let (rows, done) =
        save_order e o d.trade_keys (unwrap_or d.message.request_id 0) d.trade_index true s.rows in
      let t = record s { rows = rows } in
      if done
      then (
        send_notice (send_notice t (track_order d.order_id d.trade_index)) maker_book_changed,
        true,
      )
      else (t, false)

  abbrev republish : Dm → SmallOrder → Option Order → State → State × Bool
  republish d o none s = persist_range_child_listing_from_new_order d o s
  republish d o (some row) s =
      if is_pre_active_taker_take row
      then (drop_pre_active_taker_take d.order_id s, true)
      else if is_pre_active_maker_listing row
      then (revert_maker_to_pending_on_book_republish d s, true)
      else (s, false)

  -- `true` where the caller returns early.
  unfoldable pub try_handle_new_order_trade_dm : Dm → State → State × Bool
  try_handle_new_order_trade_dm d s =
      elim (small_order_pending_from_new_order_payload d.message.payload) [
        | none ↦ (s, false)
        | some o ↦ republish d o (get_by_id d.order_id s.rows) s
      ]
