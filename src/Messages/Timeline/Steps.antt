-- ===== src/Messages/Timeline/Steps.antt =====
-- ui/orders.rs: the stepper's columns, and the column of an order status.
use mostrix.Prelude.{ℕ, Bool, true, false, Option, some}
use mostrix.Protocol.{Kind, Status}

pub data StepLabelsBuy : Type 0 where
  step_pending_order step_seller_payment step_buyer_invoice step_chat_active_order : StepLabelsBuy
  step_send_fiat step_release_sats step_rate : StepLabelsBuy

pub data StepLabelsSell : Type 0 where
  step_pending_order step_buyer_invoice step_seller_payment step_chat_active_order : StepLabelsSell
  step_send_fiat step_release_sats step_rate : StepLabelsSell

pub data FlowStep : Type 0 where
  buy_flow_step : StepLabelsBuy → FlowStep
  sell_flow_step : StepLabelsSell → FlowStep

-- `step as usize`
abbrev buy_index : StepLabelsBuy → ℕ
buy_index StepLabelsBuy.step_pending_order = 0
buy_index StepLabelsBuy.step_seller_payment = 1
buy_index StepLabelsBuy.step_buyer_invoice = 2
buy_index StepLabelsBuy.step_chat_active_order = 3
buy_index StepLabelsBuy.step_send_fiat = 4
buy_index StepLabelsBuy.step_release_sats = 5
buy_index StepLabelsBuy.step_rate = 6

abbrev sell_index : StepLabelsSell → ℕ
sell_index StepLabelsSell.step_pending_order = 0
sell_index StepLabelsSell.step_buyer_invoice = 1
sell_index StepLabelsSell.step_seller_payment = 2
sell_index StepLabelsSell.step_chat_active_order = 3
sell_index StepLabelsSell.step_send_fiat = 4
sell_index StepLabelsSell.step_release_sats = 5
sell_index StepLabelsSell.step_rate = 6

unfoldable pub step_number : FlowStep → ℕ
step_number (buy_flow_step s) = buy_index s
step_number (sell_flow_step s) = sell_index s

-- `block_success` is for the release branch only.
unfoldable pub timeline_blocks_post_fiat_action_override : Option Status → Bool → Bool
timeline_blocks_post_fiat_action_override (some Status.canceled) b = true
timeline_blocks_post_fiat_action_override (some Status.canceled_by_admin) b = true
timeline_blocks_post_fiat_action_override (some Status.cooperatively_canceled) b = true
timeline_blocks_post_fiat_action_override (some Status.expired) b = true
timeline_blocks_post_fiat_action_override (some Status.dispute) b = true
timeline_blocks_post_fiat_action_override (some Status.settled_by_admin) b = true
timeline_blocks_post_fiat_action_override (some Status.completed_by_admin) b = true
timeline_blocks_post_fiat_action_override (some Status.success) b = b
timeline_blocks_post_fiat_action_override _ b = false

abbrev buy_step_from_status : Status → StepLabelsBuy
buy_step_from_status Status.pending = StepLabelsBuy.step_pending_order
buy_step_from_status Status.waiting_taker_bond = StepLabelsBuy.step_pending_order
buy_step_from_status Status.waiting_maker_bond = StepLabelsBuy.step_pending_order
buy_step_from_status Status.waiting_payment = StepLabelsBuy.step_seller_payment
buy_step_from_status Status.waiting_buyer_invoice = StepLabelsBuy.step_buyer_invoice
buy_step_from_status Status.settled_hold_invoice = StepLabelsBuy.step_buyer_invoice
buy_step_from_status Status.in_progress = StepLabelsBuy.step_chat_active_order
buy_step_from_status Status.active = StepLabelsBuy.step_chat_active_order
buy_step_from_status Status.fiat_sent = StepLabelsBuy.step_send_fiat
buy_step_from_status Status.success = StepLabelsBuy.step_rate
buy_step_from_status _ = StepLabelsBuy.step_pending_order

abbrev sell_step_from_status : Status → StepLabelsSell
sell_step_from_status Status.pending = StepLabelsSell.step_pending_order
sell_step_from_status Status.waiting_taker_bond = StepLabelsSell.step_pending_order
sell_step_from_status Status.waiting_maker_bond = StepLabelsSell.step_pending_order
sell_step_from_status Status.waiting_payment = StepLabelsSell.step_seller_payment
sell_step_from_status Status.waiting_buyer_invoice = StepLabelsSell.step_buyer_invoice
sell_step_from_status Status.settled_hold_invoice = StepLabelsSell.step_buyer_invoice
sell_step_from_status Status.in_progress = StepLabelsSell.step_chat_active_order
sell_step_from_status Status.active = StepLabelsSell.step_chat_active_order
sell_step_from_status Status.fiat_sent = StepLabelsSell.step_send_fiat
sell_step_from_status Status.success = StepLabelsSell.step_rate
sell_step_from_status _ = StepLabelsSell.step_pending_order

unfoldable pub listing_step_from_status : Kind → Status → Option FlowStep
listing_step_from_status Kind.buy status = some (buy_flow_step (buy_step_from_status status))
listing_step_from_status Kind.sell status = some (sell_flow_step (sell_step_from_status status))
