-- ===== src/Messages/Snapshot.antt =====
-- ui/orders.rs: the trade receipt that a row carries, chosen among three candidates.
use mostrix.Prelude.{
  is_blank, ℕ, ◌+◌, positive, ◌||◌, Option, none, some, is_some, leb, if◌then◌else◌,
}
use mostrix.Protocol.{SmallOrder, Payload}

unfoldable pub small_order_from_payload : Option Payload → Option SmallOrder
small_order_from_payload (some (Payload.order o)) = some o
small_order_from_payload (some (Payload.payment_request o invoice amount)) = o
small_order_from_payload (some (Payload.bond_payout_request o slashed_at)) = some o
small_order_from_payload _ = none

unfoldable pub snapshot_richness : SmallOrder → ℕ
snapshot_richness o =
    ((if is_blank o.payment_method then 0 else 4)
      + (if positive o.fiat_amount || is_some o.min_amount || is_some o.max_amount then 2 else 0))
    + ((if is_blank o.fiat_code then 0 else 1) + (if positive o.amount then 1 else 0))

-- `max_by_key` keeps the later of two equal candidates.
richer : Option SmallOrder → Option SmallOrder → Option SmallOrder
richer best none = best
richer none (some o) = some o
richer (some b) (some o) =
    if leb (snapshot_richness b) (snapshot_richness o) then some o else some b

unfoldable pub merge_order_snapshots :
    Option SmallOrder → Option SmallOrder → Option SmallOrder → Option SmallOrder
unfolding richer
merge_order_snapshots incoming prior from_db = richer (richer incoming prior) from_db
