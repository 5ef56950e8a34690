-- ===== src/Dm/Handler.antt =====
-- util/dm_utils/mod.rs: `handle_trade_dm_for_order`. One call runs to its end before the next: what
-- other tasks do to the shared state between its locks is not modelled.
use mostrix.Dm.Judge.{
  is_pay, is_actionable_notification, is_new_message, write_status, should_replace_row,
  order_message,
}
use mostrix.Prelude.{
  suc, Bool, true, false, not, ◌&&◌, Option, none, [], ◌∷◌, ◌++◌, is_some, is_some_and, same,
  if◌then◌else◌,
}
use mostrix.Protocol.{Action, Action-discrete}
use mostrix.Messages.{OrderMessage}
use mostrix.Messages.Notification.{order_message_to_notification}
use mostrix.Db.{Env, Order, get_by_id}
use mostrix.Dm.{State, Dm, newest_row, replace_row}
use mostrix.Dm.Terminal.{is_pre_active_taker_take}
use mostrix.Dm.Effects.{
  upsert_order_from_trade_dm, persist_dispute_id, persist_solver_chat, maybe_track_order_chat,
  drop_pre_active_taker_take,
}
use mostrix.Dm.NewOrder.{try_handle_new_order_trade_dm}

abbrev tell : Bool → OrderMessage → Env → State → State
tell false m e s = s
tell true m e s = record s {
  notifications = s.notifications ++ order_message_to_notification e.format_local_timestamp m ∷ [];
}

module _ (e : Env) (d : Dm) where
  -- From the comparison with the newest row to the end.
  unfoldable pub deliver : Option Order → State → State
  deliver db_order s =
      let prior = newest_row d.order_id none s.messages in
      let m = order_message d prior db_order (get_by_id d.order_id s.rows) in
      let bump =
        d.notify && (is_new_message d prior db_order && is_actionable_notification d.message) in
      tell bump m e (record s {
        rows = write_status d prior db_order s.rows;
        pending_notifications =
            if bump then suc s.pending_notifications else s.pending_notifications;
        messages =
            if should_replace_row d prior db_order
            then replace_row d.order_id m s.messages
            else s.messages;
      })

  -- The writes before it.
  unfoldable pub prepare : State → State
  prepare s =
      let t : State =
        if same Action-discrete d.message.action Action.cant_do
        then s
        else upsert_order_from_trade_dm e d s in
      maybe_track_order_chat e d (persist_solver_chat e d (persist_dispute_id d t))

  abbrev is_taker_cancel : Option Order → Bool
  is_taker_cancel db_order =
      (same Action-discrete d.message.action Action.canceled && not (is_some d.message.payload))
      && is_some_and db_order is_pre_active_taker_take

  unfoldable pub hydrate : State → State
  hydrate s =
      let db_order = get_by_id d.order_id s.rows in
      if is_taker_cancel db_order
      then drop_pre_active_taker_take d.order_id s
      else if is_pay d.message.action && not (is_actionable_notification d.message)
      then prepare s
      else deliver db_order (prepare s)

  unfoldable pub handle_trade_dm_for_order : State → State
  handle_trade_dm_for_order s =
      if same Action-discrete d.message.action Action.new_order
      then (let (t, done) = try_handle_new_order_trade_dm e d s in if done then t else hydrate t)
      else hydrate s
