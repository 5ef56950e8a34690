-- ===== src/Examples/Trade.antt =====
-- util/dm_utils/mod.rs and models.rs on concrete inputs: the table.
use mostrix.Prelude.{pos, ◌≡◌, ◌≢◌, refl, true, none, some, [], ◌∷◌, ◌⊎◌, arith, unwrap_or, find}
use mostrix.Messages.{OrderMessage}
use mostrix.Protocol.{Status, Action, Payload, SmallOrder, Action-discrete, Status-discrete}
use mostrix.Db.{Order, get_by_id}
use mostrix.Db.Rows.{upsert_from_small_order_dm}
use mostrix.Db.Upsert.{row_status, KeepsOwnership, upsert-ownership}
use mostrix.Dm.{State, Dm, newest_row, is_row_of}
use mostrix.Dm.NewOrder.{small_order_pending_from_new_order_payload}
use mostrix.Dm.Handler.{handle_trade_dm_for_order, prepare, deliver}
use mostrix.Dm.Judge.{effective_order_kind, should_replace_row}
use mostrix.Dm.Tab.{prepare-messages}
use mostrix.Dm.Progress.{deliver-status}
use mostrix.Dm.StatusWrites.{is_guarded}
use mostrix.Dm.Outcome.{Outcome, handle-Outcome}
use mostrix.Dm.Ownership.{handle-ownership}
use mostrix.Dm.Core.{KeepsCore}
use mostrix.Dm.Table.{handle-frame}
use mostrix.Dm.Stale.{pay_without_invoice, bond_payout_writes_status}
use mostrix.Samples.{sample_env, sample_order, sample_row, sample_dm, sample_state}

abbrev active_row : Order
active_row = sample_row true Status.active

abbrev trade : State
trade = sample_state (active_row ∷ []) []

abbrev late_invoice : Dm
late_invoice =
    sample_dm Action.add_invoice (some (Payload.order (sample_order Status.waiting_buyer_invoice)))
      50

handle-Outcome_example :
    Outcome sample_env late_invoice active_row Status.active
      (effective_order_kind late_invoice (newest_row 1 none []) (some active_row))
      (handle_trade_dm_for_order sample_env late_invoice trade)
unfolding get_by_id is_guarded Action-discrete
handle-Outcome_example =
    handle-Outcome sample_env late_invoice trade active_row Status.active refl refl refl

handle-ownership_example :
    (get_by_id 1 (handle_trade_dm_for_order sample_env late_invoice trade).rows ≡ none)
    ⊎ ((r : Order) × (get_by_id 1 (handle_trade_dm_for_order sample_env late_invoice trade).rows
          ≡ some r)
        × KeepsCore active_row r)
unfolding get_by_id
handle-ownership_example = handle-ownership sample_env late_invoice active_row trade refl

shown_now :
    should_replace_row late_invoice
      (newest_row 1 none (prepare sample_env late_invoice trade).messages)
      (some active_row)
    ≡ true
unfolding should_replace_row newest_row
shown_now = rw (prepare-messages sample_env late_invoice trade) refl

deliver-status_example :
    let after =
      deliver sample_env late_invoice (some active_row) (prepare sample_env late_invoice trade) in
    (m : OrderMessage) × (find (is_row_of 1) after.messages ≡ some m)
    × (m.message ≡ late_invoice.message)
    × (row_status 1 after.rows ≡ m.order_status)
unfolding get_by_id is_guarded Action-discrete
deliver-status_example =
    deliver-status sample_env late_invoice trade active_row refl Status.active refl refl shown_now

not_listed :
    (o : SmallOrder)
    → small_order_pending_from_new_order_payload late_invoice.message.payload ≡ some o
    → unwrap_or o.id 77 ≢ 2
unfolding small_order_pending_from_new_order_payload Status-discrete
not_listed o h = ground arith

handle-frame_example :
    get_by_id 2 (handle_trade_dm_for_order sample_env late_invoice trade).rows
    ≡ get_by_id 2 trade.rows
handle-frame_example =
    handle-frame sample_env late_invoice 2 (λ h. omega (arith, h)) trade not_listed

-- A successful trade, and a replayed payment request with no invoice in it.
abbrev done_state : State
done_state = sample_state (sample_row true Status.success ∷ []) []

abbrev empty_invoice : Dm
empty_invoice =
    sample_dm Action.pay_invoice
      (some (Payload.payment_request (some (sample_order Status.waiting_payment)) "" none)) 50

pay_without_invoice_example :
    row_status 1 (handle_trade_dm_for_order sample_env empty_invoice done_state).rows
    ≡ some Status.waiting_payment
unfolding get_by_id
pay_without_invoice_example =
    pay_without_invoice sample_env empty_invoice done_state (sample_row true Status.success)
      (sample_order Status.waiting_payment) refl refl none refl refl

abbrev bond_payout : Dm
bond_payout =
    sample_dm Action.add_bond_invoice
      (some (Payload.bond_payout_request (sample_order Status.waiting_payment) (pos 7))) 50

bond_payout_writes_status_example :
    row_status 1 (handle_trade_dm_for_order sample_env bond_payout done_state).rows
    ≡ some Status.waiting_payment
unfolding get_by_id
bond_payout_writes_status_example =
    bond_payout_writes_status sample_env bond_payout done_state (sample_row true Status.success)
      (sample_order Status.waiting_payment) refl refl (pos 7) refl refl

upsert-ownership_example :
    (r : Order) × (get_by_id 1 (
        upsert_from_small_order_dm sample_env 1
          (sample_order Status.pending)
          8
          none
          (active_row ∷ []))
      ≡ some r)
    × KeepsOwnership active_row r
unfolding get_by_id
upsert-ownership_example =
    upsert-ownership sample_env 1 (sample_order Status.pending) 8 none (active_row ∷ []) active_row
      refl
