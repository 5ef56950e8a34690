-- ===== src/Messages/Popup.antt =====
-- ui/orders.rs: which invoice popup may open, who must act on it, and the notification of a row.
pub mod Roles
use mostrix.Prelude.{
  ℤ, String, Bool, true, false, not, Option, none, some, is_some_and, unwrap_or, str_eq, same,
  if◌then◌else◌,
}
use mostrix.Protocol.{Kind, Status, Action, Payload, Message, Uuid, SmallOrder, Action-discrete}
use mostrix.Messages.{OrderMessage, MessageNotification}

abbrev pay_invoice_allowed : Option Status → Bool
pay_invoice_allowed (some Status.waiting_payment) = true
pay_invoice_allowed _ = false

abbrev pay_bond_invoice_allowed : Option Status → Bool
pay_bond_invoice_allowed (some Status.waiting_taker_bond) = true
pay_bond_invoice_allowed (some Status.waiting_maker_bond) = true
pay_bond_invoice_allowed none = true
pay_bond_invoice_allowed _ = false

abbrev add_invoice_allowed : Option Status → Bool
add_invoice_allowed (some Status.waiting_buyer_invoice) = true
add_invoice_allowed (some Status.settled_hold_invoice) = true
add_invoice_allowed none = true
add_invoice_allowed _ = false

abbrev add_bond_invoice_allowed : Option Status → Bool
add_bond_invoice_allowed (some Status.canceled) = false
add_bond_invoice_allowed (some Status.canceled_by_admin) = false
add_bond_invoice_allowed _ = true

unfoldable pub invoice_popup_allowed_for_order_status : Action → Option Status → Bool
invoice_popup_allowed_for_order_status Action.pay_invoice s = pay_invoice_allowed s
invoice_popup_allowed_for_order_status Action.pay_bond_invoice s = pay_bond_invoice_allowed s
invoice_popup_allowed_for_order_status Action.add_invoice s = add_invoice_allowed s
invoice_popup_allowed_for_order_status Action.add_bond_invoice s = add_bond_invoice_allowed s
invoice_popup_allowed_for_order_status _ s = false

-- The bond popup's actor.
abbrev bond_actor : Option Status → Bool → Bool
bond_actor (some Status.waiting_maker_bond) is_maker = is_maker
bond_actor (some Status.waiting_taker_bond) is_maker = not is_maker
bond_actor none is_maker = is_maker
bond_actor _ is_maker = false

abbrev must_act : Option Kind → Action → Bool → OrderMessage → Bool
must_act (some Kind.buy) Action.add_invoice is_maker msg = is_maker
must_act (some Kind.buy) Action.pay_invoice is_maker msg = not is_maker
must_act (some Kind.sell) Action.add_invoice is_maker msg = not is_maker
must_act (some Kind.sell) Action.pay_invoice is_maker msg = is_maker
must_act _ Action.pay_bond_invoice is_maker msg = bond_actor msg.order_status is_maker
must_act _ Action.add_bond_invoice is_maker msg = true
must_act none Action.pay_invoice is_maker msg =
    is_some_and msg.buyer_invoice (λ s. not (str_eq s ""))
must_act none Action.add_invoice is_maker msg = false
must_act _ _ is_maker msg = false

-- An unknown role counts as taker.
unfoldable pub local_user_must_act_on_invoice_popup : OrderMessage → Action → Bool
local_user_must_act_on_invoice_popup msg popup_action =
    must_act msg.order_kind popup_action (unwrap_or msg.is_mine false) msg

abbrev bond_phase_description : Option Status → String
bond_phase_description (some Status.waiting_taker_bond) =
    "Waiting for the taker to pay the anti-abuse bond."
bond_phase_description _ = "Pay the anti-abuse bond to publish your order to the book."

abbrev default_description : String
default_description = "Waiting for the counterparty. No action is required from you right now."

abbrev describe : Option Kind → Bool → Action → Option Status → String
describe (some Kind.buy) true Action.waiting_seller_to_pay s =
    "Your order was taken. Waiting for the seller to pay the hold invoice. You will be prompted to add your Lightning invoice when it is your turn."
describe (some Kind.buy) true Action.pay_invoice s =
    "Your order was taken. Waiting for the seller to pay the hold invoice. You will be prompted to add your Lightning invoice when it is your turn."
describe (some Kind.sell) false Action.waiting_seller_to_pay s =
    "Waiting for the seller to pay the hold invoice."
describe (some Kind.sell) false Action.pay_invoice s =
    "Waiting for the seller to pay the hold invoice."
describe (some Kind.buy) false Action.waiting_buyer_invoice s =
    "Waiting for the buyer to add their Lightning invoice."
describe (some Kind.buy) false Action.add_invoice s =
    "Waiting for the buyer to add their Lightning invoice."
describe (some Kind.sell) true Action.waiting_buyer_invoice s =
    "Waiting for the buyer to add their Lightning invoice."
describe (some Kind.sell) true Action.add_invoice s =
    "Waiting for the buyer to add their Lightning invoice."
describe _ true Action.pay_bond_invoice s = bond_phase_description s
describe _ _ Action.buyer_took_order s = "Your order was taken. Waiting for the trade to proceed."
describe _ _ _ s = default_description

unfoldable pub waiting_phase_description : OrderMessage → String
waiting_phase_description msg =
    describe msg.order_kind (unwrap_or msg.is_mine false) msg.message.action msg.order_status

abbrev bond_phase_label : Option Status → String
bond_phase_label (some Status.waiting_taker_bond) = "Waiting for Taker Bond"
bond_phase_label _ = "Maker Bond Required"

abbrev short_label : Option Kind → Bool → Action → Option Status → String
short_label _ true Action.pay_bond_invoice s = bond_phase_label s
short_label (some Kind.buy) true Action.waiting_seller_to_pay s = "Waiting for Seller to Pay"
short_label (some Kind.buy) true Action.pay_invoice s = "Waiting for Seller to Pay"
short_label (some Kind.sell) false Action.waiting_seller_to_pay s = "Waiting for Seller to Pay"
short_label (some Kind.sell) false Action.pay_invoice s = "Waiting for Seller to Pay"
short_label (some Kind.buy) false Action.waiting_buyer_invoice s =
    "Waiting for Buyer to Add Invoice"
short_label (some Kind.buy) false Action.add_invoice s = "Waiting for Buyer to Add Invoice"
short_label (some Kind.sell) true Action.waiting_buyer_invoice s =
    "Waiting for Buyer to Add Invoice"
short_label (some Kind.sell) true Action.add_invoice s = "Waiting for Buyer to Add Invoice"
short_label _ _ _ s = "Trade status"

unfoldable pub waiting_phase_short_label : OrderMessage → String
waiting_phase_short_label msg =
    short_label msg.order_kind (unwrap_or msg.is_mine false) msg.message.action msg.order_status

abbrev waiting_popup_action : Action → Action
waiting_popup_action Action.waiting_buyer_invoice = Action.waiting_buyer_invoice
waiting_popup_action Action.add_invoice = Action.waiting_buyer_invoice
waiting_popup_action _ = Action.waiting_seller_to_pay

unfoldable pub waiting_popup_action_for_message : OrderMessage → Action
waiting_popup_action_for_message msg = waiting_popup_action msg.message.action
