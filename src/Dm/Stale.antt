-- ===== src/Dm/Stale.antt =====
-- util/dm_utils/mod.rs: the status writes of `upsert_order_from_trade_dm` that no guard undoes.
use mostrix.Prelude.{
  ℤ, ◌≡◌, ◌∙◌, ap, true, Option, none, some, List, arith, and_then, same, Bool-cases, inl, inr,
}
use mostrix.Protocol.{Action, Payload, SmallOrder, Action-discrete}
use mostrix.Messages.{OrderMessage}
use mostrix.Db.{Env, Order, get_by_id}
use mostrix.Db.Rows.{id_matches}
use mostrix.Db.Upsert.{row_status, upsert_existing}
use mostrix.Dm.{State, Dm, newest_row}
use mostrix.Dm.Terminal.{resolved_status_candidate, small_order_ref_from_payload}
use mostrix.OrderStatus.{inferred_status_from_trade_action}
use mostrix.Dm.Effects.{order_to_persist, try_i64, upsert_order_from_trade_dm}
use mostrix.Dm.Handler.{prepare, deliver, hydrate, handle_trade_dm_for_order}
use mostrix.Dm.Judge.{is_actionable_notification, write_status, status_candidate}
use mostrix.Dm.Progress.{prepare-rows_status}
use mostrix.Dm.StatusWrites.{built-status}
use mostrix.Dm.Table.{deliver-rows}

module _ (e : Env) (d : Dm) (s : State) (r : Order) (o : SmallOrder)
    (h : get_by_id d.order_id s.rows ≡ some r) (m : id_matches o.id d.order_id ≡ true) where
  upserted :
      order_to_persist d.message.action d.message.payload ≡ some o
      → row_status d.order_id (upsert_order_from_trade_dm e d s).rows ≡ o.status
  unfolding upsert_order_from_trade_dm
  upserted q =
      let rid = and_then d.message.request_id try_i64 in
      ground (
        arith,
        q,
        upsert_existing e d.order_id o d.trade_keys rid s.rows r h m,
        built-status e d.order_id o d.trade_keys rid (some r),
      )

  prepared :
      order_to_persist d.message.action d.message.payload ≡ some o
      → row_status d.order_id (prepare e d s).rows ≡ o.status
  prepared q = elim (Bool-cases (same Action-discrete d.message.action Action.cant_do)) [
    | inl a ↦ ground (arith, q, a)
    | inr a ↦ rw (prepare-rows_status e d s, a) (upserted q)
  ]

  -- For an order with a row, a `PayInvoice` whose payload has an order, with that id or none, and an
  -- empty invoice ends before the status guard: the row is left with the status of the payload,
  -- whatever it had before, a terminal one too.
  pub pay_without_invoice :
      (amount : Option ℤ)
      → d.message.action ≡ Action.pay_invoice
      → d.message.payload ≡ some (Payload.payment_request (some o) "" amount)
      → row_status d.order_id (handle_trade_dm_for_order e d s).rows ≡ o.status
  unfolding handle_trade_dm_for_order hydrate is_actionable_notification
  pay_without_invoice amount a p = ground (arith, a, p, prepared (ground (arith, a, p)))

  none-written :
      (prior : Option OrderMessage) (row : Option Order) (rows : List Order)
      → status_candidate d.message ≡ none
      → write_status d prior row rows ≡ rows
  unfolding write_status
  none-written prior row rows n = ground (arith, n)

  bond-candidate :
      (slashed_at : ℤ)
      → d.message.action ≡ Action.add_bond_invoice
      → d.message.payload ≡ some (Payload.bond_payout_request o slashed_at)
      → status_candidate d.message ≡ none
  unfolding status_candidate resolved_status_candidate small_order_ref_from_payload
      inferred_status_from_trade_action
  bond-candidate slashed_at a p = ground (arith, a, p)

  bond-delivers :
      d.message.action ≡ Action.add_bond_invoice
      → handle_trade_dm_for_order e d s ≡ deliver e d (some r) (prepare e d s)
  unfolding handle_trade_dm_for_order hydrate
  bond-delivers a = ground (arith, a, h)

  -- For an order with a row, an `AddBondInvoice` names no status for the guard, but the order in its
  -- payload, with that id or none, is stored: the row is left with the status of the payload, whatever
  -- it had before, a terminal one too.
  pub bond_payout_writes_status :
      (slashed_at : ℤ)
      → d.message.action ≡ Action.add_bond_invoice
      → d.message.payload ≡ some (Payload.bond_payout_request o slashed_at)
      → row_status d.order_id (handle_trade_dm_for_order e d s).rows ≡ o.status
  bond_payout_writes_status slashed_at a p =
      ap (λ t. row_status d.order_id t.rows) (bond-delivers a)
      ∙ ap (row_status d.order_id) (
          deliver-rows e d (some r) (prepare e d s)
          ∙ none-written (newest_row d.order_id none (prepare e d s).messages) (some r)
              (prepare e d s).rows (bond-candidate slashed_at a p))
      ∙ prepared (ground (arith, a, p))
