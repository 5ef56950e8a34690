-- ===== src/OrderStatus.antt =====
-- util/order_utils/helper.rs: the guard that compares a candidate status with the status of an order.
pub mod Guard
use mostrix.Prelude.{ℕ, Bool, true, false, ◌||◌, Option, none, some, leb, same, or, if◌then◌else◌}
use mostrix.Protocol.{Kind, Status, Action, SmallOrder, Status-discrete, Action-discrete}

-- `_ => None`
unfoldable pub inferred_status_from_trade_action : Action → Option Status
inferred_status_from_trade_action Action.canceled = some Status.canceled
inferred_status_from_trade_action Action.cooperative_cancel_accepted =
    some Status.cooperatively_canceled
inferred_status_from_trade_action Action.waiting_buyer_invoice = some Status.waiting_buyer_invoice
inferred_status_from_trade_action Action.add_invoice = some Status.waiting_buyer_invoice
inferred_status_from_trade_action Action.waiting_seller_to_pay = some Status.waiting_payment
inferred_status_from_trade_action Action.pay_invoice = some Status.waiting_payment
inferred_status_from_trade_action Action.pay_bond_invoice = some Status.waiting_taker_bond
inferred_status_from_trade_action Action.admin_canceled = some Status.canceled_by_admin
inferred_status_from_trade_action Action.fiat_sent_ok = some Status.fiat_sent
inferred_status_from_trade_action Action.release = some Status.success
inferred_status_from_trade_action Action.released = some Status.success
inferred_status_from_trade_action Action.hold_invoice_payment_settled = some Status.success
inferred_status_from_trade_action Action.purchase_completed = some Status.success
inferred_status_from_trade_action _ = none

unfoldable pub map_action_to_status : Action → SmallOrder → Option Status
map_action_to_status action order = or order.status (inferred_status_from_trade_action action)

abbrev waiting_payment_rank : Option Kind → Option ℕ
waiting_payment_rank (some Kind.buy) = some 1
waiting_payment_rank (some Kind.sell) = some 2
waiting_payment_rank none = none

abbrev buyer_invoice_rank : Option Kind → Option ℕ
buyer_invoice_rank (some Kind.buy) = some 2
buyer_invoice_rank (some Kind.sell) = some 1
buyer_invoice_rank none = none

unfoldable pub status_phase_rank_for_actor : Status → Option Kind → Option ℕ
status_phase_rank_for_actor Status.pending k = some 0
status_phase_rank_for_actor Status.waiting_taker_bond k = some 0
status_phase_rank_for_actor Status.waiting_maker_bond k = some 0
status_phase_rank_for_actor Status.waiting_payment k = waiting_payment_rank k
status_phase_rank_for_actor Status.waiting_buyer_invoice k = buyer_invoice_rank k
status_phase_rank_for_actor Status.settled_hold_invoice k = buyer_invoice_rank k
status_phase_rank_for_actor Status.in_progress k = some 3
status_phase_rank_for_actor Status.active k = some 3
status_phase_rank_for_actor Status.fiat_sent k = some 4
status_phase_rank_for_actor Status.success k = some 5
status_phase_rank_for_actor _ k = none

unfoldable pub is_terminal_trade_status : Status → Bool
is_terminal_trade_status Status.canceled = true
is_terminal_trade_status Status.canceled_by_admin = true
is_terminal_trade_status Status.settled_by_admin = true
is_terminal_trade_status Status.completed_by_admin = true
is_terminal_trade_status Status.expired = true
is_terminal_trade_status Status.cooperatively_canceled = true
is_terminal_trade_status Status.success = true
is_terminal_trade_status _ = false

-- The last `match` of `should_apply_status_transition`.
abbrev pub rank_advances : Option ℕ → Option ℕ → Bool
rank_advances (some cur) (some next) = leb cur next
rank_advances (some cur) none = false
rank_advances none _ = false

unfoldable pub should_apply_status_transition : Option Status → Status → Option Kind → Bool
should_apply_status_transition none candidate kind = true
should_apply_status_transition (some current) candidate kind =
    if same Status-discrete current candidate
    then true
    else if is_terminal_trade_status current
    then false
    else if is_terminal_trade_status candidate
    then true
    else rank_advances (status_phase_rank_for_actor current kind)
        (status_phase_rank_for_actor candidate kind)

unfoldable pub should_strictly_advance_status : Option Status → Status → Option Kind → Bool
should_strictly_advance_status none candidate kind =
    should_apply_status_transition none candidate kind
should_strictly_advance_status (some cur) candidate kind =
    if same Status-discrete cur candidate
    then false
    else should_apply_status_transition (some cur) candidate kind

pub data AdminFinalizeAck : Type 0 where
  confirmed already_cooperatively_canceled : AdminFinalizeAck

-- `none` is the `Err` of an unexpected action.
unfoldable pub admin_finalize_ack : Action → Action → Option AdminFinalizeAck
admin_finalize_ack action expected =
    if same Action-discrete action expected
    then some AdminFinalizeAck.confirmed
    else if same Action-discrete action Action.cooperative_cancel_accepted
    then some AdminFinalizeAck.already_cooperatively_canceled
    else none
