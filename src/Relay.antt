-- ===== src/Relay.antt =====
-- util/order_utils/helper.rs and util/order_utils/relay_order_db_reconcile.rs: order events of the
-- relays, and the terminal statuses that they bring to the local table.
pub mod Latest
pub mod Reconcile
pub mod Cursor
pub mod Visits
pub mod Listing
pub mod Fairness
pub mod Book
use mathlib.Core.Option
use mostrix.Prelude.{
  ℕ, suc, zero, ◌+◌, ◌%◌, min, String, Bool, true, false, not, ◌&&◌, Option, none, some, List, [],
  ◌∷◌, map, length, get_elem?, retain, is_some, is_some_and, or, and_then, unwrap_or, str_eq, ltb,
  leb, ◌==◌, if◌then◌else◌,
}
use mostrix.Protocol.{Uuid, Kind, Status, SmallOrder}
use mostrix.OrderStatus.{is_terminal_trade_status, should_apply_status_transition}
use mostrix.Db.{Order, get_by_id, update_status}

-- An order event: what `order_from_tags` reads from its tags, and its `created_at` in seconds.
pub record OrderEvent : Type 0 where
  pub parsed : Option SmallOrder
  pub created_at : ℕ

abbrev keyed : ℕ → SmallOrder → Option Uuid → Option Kind → Option (Uuid × SmallOrder)
keyed ts o (some i) (some k) = some (i, record o { created_at = some ts })
keyed ts o _ _ = none

-- The order of an event, stamped with its time; events without an id or a kind are skipped.
abbrev pub stamped : OrderEvent → Option (Uuid × SmallOrder)
stamped ev = and_then ev.parsed (λ o. keyed ev.created_at o o.id o.kind)

abbrev pub stamp : SmallOrder → ℕ
stamp o = unwrap_or o.created_at 0

-- `entry(id).and_modify(…).or_insert(…)`: a strictly newer order replaces the one that is there.
unfoldable pub put_latest : Uuid → SmallOrder → List (Uuid × SmallOrder) → List (Uuid × SmallOrder)
put_latest i o [] = (i, o) ∷ []
put_latest i o (x ∷ xs) =
    let rest = put_latest i o xs in
    if x.0 == i then (x.0, if ltb (stamp x.1) (stamp o) then o else x.1) ∷ xs else x ∷ rest

unfoldable pub add_event : OrderEvent → List (Uuid × SmallOrder) → List (Uuid × SmallOrder)
add_event ev latest = elim (stamped ev) [ none ↦ latest | some x ↦ put_latest x.0 x.1 latest ]

unfoldable pub aggregate_from :
    List OrderEvent → List (Uuid × SmallOrder) → List (Uuid × SmallOrder)
aggregate_from [] latest = latest
aggregate_from (ev ∷ evs) latest = aggregate_from evs (add_event ev latest)

abbrev pub aggregate_latest_orders_by_id : List OrderEvent → List (Uuid × SmallOrder)
aggregate_latest_orders_by_id evs = aggregate_from evs []

-- The update of a row that has been read, where the guard accepts the terminal candidate.
abbrev apply_terminal : SmallOrder → Uuid → Status → Order → List Order → List Order
apply_terminal o i c row rows =
    if should_apply_status_transition row.status c (or o.kind row.kind)
    then update_status i c rows
    else rows

abbrev reconcile_row : SmallOrder → Status → Uuid → Option Order → List Order → List Order
reconcile_row o c i none rows = rows
reconcile_row o c i (some row) rows = apply_terminal o i c row rows

abbrev reconcile_id : SmallOrder → Status → Option Uuid → List Order → List Order
reconcile_id o c none rows = rows
reconcile_id o c (some i) rows = reconcile_row o c i (get_by_id i rows) rows

abbrev reconcile_status : SmallOrder → Option Status → List Order → List Order
reconcile_status o none rows = rows
reconcile_status o (some c) rows =
    if is_terminal_trade_status c then reconcile_id o c o.id rows else rows

unfoldable pub reconcile_one_order_if_terminal : SmallOrder → List Order → List Order
reconcile_one_order_if_terminal o rows = reconcile_status o o.status rows

unfoldable pub reconcile_terminal_order_statuses_from_relay :
    List SmallOrder → List Order → List Order
reconcile_terminal_order_statuses_from_relay [] rows = rows
reconcile_terminal_order_statuses_from_relay (o ∷ os) rows =
    reconcile_terminal_order_statuses_from_relay os (reconcile_one_order_if_terminal o rows)

abbrev run_relay_order_db_reconcile_once : List OrderEvent → List Order → List Order
run_relay_order_db_reconcile_once evs rows =
    reconcile_terminal_order_statuses_from_relay
      (map (λ x. x.1) (aggregate_latest_orders_by_id evs)) rows

-- models.rs `list_ids_for_targeted_relay_reconcile`; ids compare as their fixed-width texts do.
abbrev pub insert_id : Uuid → List Uuid → List Uuid
insert_id i [] = i ∷ []
insert_id i (j ∷ js) = let rest = insert_id i js in if leb i j then i ∷ j ∷ js else j ∷ rest

abbrev pub is_reconcilable : Order → Bool
is_reconcilable r =
    is_some_and r.trade_keys (λ k. not (str_eq k ""))
    && not (is_some_and r.status is_terminal_trade_status)

unfoldable pub list_ids_for_targeted_relay_reconcile : List Order → List Uuid
list_ids_for_targeted_relay_reconcile [] = []
list_ids_for_targeted_relay_reconcile (r ∷ rs) =
    let rest = list_ids_for_targeted_relay_reconcile rs in
    if is_reconcilable r then insert_id r.id rest else rest

abbrev pub targeted_relay_reconcile_max_per_tick : ℕ
targeted_relay_reconcile_max_per_tick = 5

-- The positions `(start + i) % len` for `i` from `from`, `n` of them.
unfoldable pub window : ℕ → ℕ → ℕ → ℕ → List ℕ
window start len from zero = []
window start len from (suc n) = (start + from) % len ∷ window start len (suc from) n

module _ (fetch : Uuid → Option SmallOrder) where
  abbrev pub visit : List Uuid → ℕ → List Order → List Order
  visit ids k rows = elim (and_then (get_elem? ids k) fetch) [
    | none ↦ rows
    | some o ↦ reconcile_one_order_if_terminal o rows
  ]

  unfoldable pub visit_all : List Uuid → List ℕ → List Order → List Order
  visit_all ids [] rows = rows
  visit_all ids (k ∷ ks) rows = visit_all ids ks (visit ids k rows)

  -- `fetch` stands for the relay's answer: `none` where there is no event or the query fails.
  unfoldable pub run_targeted_relay_order_db_reconcile_tick : ℕ → List Order → List Order × ℕ
  run_targeted_relay_order_db_reconcile_tick cursor rows =
      let ids = list_ids_for_targeted_relay_reconcile rows in
      let len = length ids in
      let start = cursor % len in
      let take = min targeted_relay_reconcile_max_per_tick len in
      if len == 0
      then (rows, cursor)
      else (visit_all ids (window start len 0 take) rows, (start + take) % len)
