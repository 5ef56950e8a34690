-- ===== src/Examples/Network.antt =====
-- util/order_utils/relay_order_db_reconcile.rs on concrete inputs.
use mathlib.Core.List.{Memᴰ.head}
use mostrix.Prelude.{◌≡◌, refl, true, Option, some, List, [], ◌∷◌, arith}
use mostrix.Protocol.{Uuid, Status, SmallOrder}
use mostrix.OrderStatus.{is_terminal_trade_status}
use mostrix.Db.{Order, get_by_id}
use mostrix.Db.Upsert.{row_status}
use mostrix.Relay.{
  OrderEvent, aggregate_latest_orders_by_id, list_ids_for_targeted_relay_reconcile,
  reconcile_terminal_order_statuses_from_relay,
}
use mostrix.Relay.Latest.{AtLeast, latest_wins}
use mostrix.Relay.Fairness.{run_ticks, round_robin}
use mostrix.Relay.Reconcile.{settled_by, reconcile_any_position}
use mostrix.Samples.{sample_order, sample_row}

abbrev late_event : OrderEvent
late_event = record { parsed = some (sample_order Status.canceled); created_at = 9 }

abbrev early_event : OrderEvent
early_event = record { parsed = some (sample_order Status.pending); created_at = 4 }

abbrev events : List OrderEvent
events = late_event ∷ early_event ∷ []

latest_wins_example : AtLeast 1 9 (aggregate_latest_orders_by_id events)
latest_wins_example =
    latest_wins events late_event 1 (record (sample_order Status.canceled) { created_at = some 9 })
      (head refl) refl

abbrev table : List Order
table = record (sample_row true Status.active) { id = 2 } ∷ sample_row true Status.pending ∷ []

-- A relay on which every order is canceled.
abbrev canceled_order : Uuid → SmallOrder
canceled_order i = record (sample_order Status.canceled) { id = some i }

abbrev all_canceled : Uuid → Option SmallOrder
all_canceled i = some (canceled_order i)

all_canceled-named : (a : Uuid) (x : SmallOrder) → all_canceled a ≡ some x → x.id ≡ some a
all_canceled-named a x h = ground (arith, h)

round_robin_example : row_status 1 (run_ticks all_canceled 3 7 table) ≡ some Status.canceled
unfolding list_ids_for_targeted_relay_reconcile is_terminal_trade_status get_by_id
round_robin_example =
    round_robin all_canceled all_canceled-named 1 (canceled_order 1) Status.canceled refl refl refl
      3 7 table (sample_row true Status.pending) refl refl (omega arith)

abbrev other_relay_order : SmallOrder
other_relay_order = record (sample_order Status.expired) { id = some 2 }

reconcile_any_position_example :
    row_status 1 (
      reconcile_terminal_order_statuses_from_relay
        (other_relay_order ∷ sample_order Status.canceled ∷ [])
        table)
    ≡ some (settled_by (some Status.pending) Status.canceled)
unfolding get_by_id is_terminal_trade_status
reconcile_any_position_example =
    reconcile_any_position (other_relay_order ∷ []) [] (sample_order Status.canceled) 1
      Status.canceled table (sample_row true Status.pending) refl refl refl refl ((λ h. cc), tt) tt
