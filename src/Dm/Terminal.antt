-- ===== src/Dm/Terminal.antt =====
-- util/dm_utils/mod.rs: which trade messages end a trade, and which statuses precede it.
use mostrix.Prelude.{Bool, true, false, not, ◌||◌, ◌&&◌, Option, none, some, is_some_and}
use mostrix.Protocol.{Status, Action, Payload, SmallOrder, Message}
use mostrix.OrderStatus.{inferred_status_from_trade_action, map_action_to_status}
use mostrix.Db.{Order}

unfoldable pub is_terminal_order_status : Status → Bool
is_terminal_order_status Status.success = true
is_terminal_order_status Status.canceled = true
is_terminal_order_status Status.canceled_by_admin = true
is_terminal_order_status Status.settled_by_admin = true
is_terminal_order_status Status.completed_by_admin = true
is_terminal_order_status Status.expired = true
is_terminal_order_status Status.cooperatively_canceled = true
is_terminal_order_status _ = false

unfoldable pub order_status_untracks_chat : Status → Bool
order_status_untracks_chat Status.canceled = true
order_status_untracks_chat Status.canceled_by_admin = true
order_status_untracks_chat Status.settled_by_admin = true
order_status_untracks_chat Status.completed_by_admin = true
order_status_untracks_chat Status.expired = true
order_status_untracks_chat Status.cooperatively_canceled = true
order_status_untracks_chat _ = false

abbrev pub is_cancel_action : Action → Bool
is_cancel_action Action.admin_canceled = true
is_cancel_action Action.canceled = true
is_cancel_action Action.cooperative_cancel_accepted = true
is_cancel_action _ = false

-- The status of a `Payload::Order`, and of no other payload.
abbrev pub order_payload_status : Option Payload → Option Status
order_payload_status (some (Payload.order o)) = o.status
order_payload_status _ = none

unfoldable pub trade_message_should_untrack_order_chat : Message → Bool
unfolding order_status_untracks_chat
trade_message_should_untrack_order_chat m =
    is_cancel_action m.action
    || is_some_and (order_payload_status m.payload) order_status_untracks_chat

unfoldable pub message_has_terminal_order_status : Message → Bool
message_has_terminal_order_status m =
    is_some_and (order_payload_status m.payload) is_terminal_order_status

unfoldable pub trade_message_is_terminal : Message → Bool
unfolding message_has_terminal_order_status
trade_message_is_terminal m = is_cancel_action m.action || message_has_terminal_order_status m

-- A `SmallOrder` in an order or payment-request payload.
unfoldable pub small_order_ref_from_payload : Option Payload → Option SmallOrder
small_order_ref_from_payload (some (Payload.order o)) = some o
small_order_ref_from_payload (some (Payload.payment_request o invoice amount)) = o
small_order_ref_from_payload _ = none

abbrev candidate_of : Action → Option SmallOrder → Option Status
candidate_of action (some o) = map_action_to_status action o
candidate_of action none = inferred_status_from_trade_action action

unfoldable pub resolved_status_candidate : Action → Option Payload → Option Status
unfolding small_order_ref_from_payload
resolved_status_candidate action payload =
    candidate_of action (small_order_ref_from_payload payload)

unfoldable pub is_pre_active_status : Status → Bool
is_pre_active_status Status.pending = true
is_pre_active_status Status.waiting_taker_bond = true
is_pre_active_status Status.waiting_maker_bond = true
is_pre_active_status Status.waiting_payment = true
is_pre_active_status Status.waiting_buyer_invoice = true
is_pre_active_status Status.settled_hold_invoice = true
is_pre_active_status _ = false

unfoldable pub is_pre_active_taker_take : Order → Bool
is_pre_active_taker_take row = not row.is_mine && is_some_and row.status is_pre_active_status

unfoldable pub is_pre_active_maker_listing : Order → Bool
is_pre_active_maker_listing row = row.is_mine && is_some_and row.status is_pre_active_status
