-- ===== src/Messages/Timeline.antt =====
-- ui/orders.rs: the highlighted column of the Messages tab stepper.
mod Steps
mod Actions
pub mod Columns
pub use Steps.{StepLabelsBuy, StepLabelsSell, FlowStep, buy_flow_step, sell_flow_step}
unfoldable pub use Steps.{
  step_number, timeline_blocks_post_fiat_action_override, listing_step_from_status,
}
unfoldable pub use Actions.{
  sell_listing_flow_step_from_action, buy_listing_flow_step_from_action,
  message_buy_flow_step_fallback,
}
use mostrix.Prelude.{Bool, true, false, Option, none, some, unwrap_or, if◌then◌else◌, ◌&&◌, not}
use mostrix.Protocol.{Kind, Status, Action}
use mostrix.Messages.{OrderMessage}

-- `matches!(action, Rate | RateReceived | HoldInvoicePaymentSettled | PurchaseCompleted)`
abbrev is_rate_phase : Action → Bool
is_rate_phase Action.rate = true
is_rate_phase Action.rate_received = true
is_rate_phase Action.hold_invoice_payment_settled = true
is_rate_phase Action.purchase_completed = true
is_rate_phase _ = false

-- `matches!(action, FiatSentOk | Release | Released)`
abbrev is_release_phase : Action → Bool
is_release_phase Action.fiat_sent_ok = true
is_release_phase Action.release = true
is_release_phase Action.released = true
is_release_phase _ = false

-- `if let Some(status) … if let Some(step) … return step`, else the action.
abbrev step_or : Kind → Option Status → FlowStep → FlowStep
step_or kind none fallback = fallback
step_or kind (some status) fallback = unwrap_or (listing_step_from_status kind status) fallback

abbrev is_buy : Option Kind → Bool
is_buy (some Kind.buy) = true
is_buy (some Kind.sell) = false
is_buy none = false

abbrev is_sell : Option Kind → Bool
is_sell (some Kind.sell) = true
is_sell (some Kind.buy) = false
is_sell none = false

unfoldable pub buy_listing_flow_step : OrderMessage → FlowStep
buy_listing_flow_step msg =
    if not (is_buy msg.order_kind)
    then message_buy_flow_step_fallback action
    else if is_rate_phase action && not (timeline_blocks_post_fiat_action_override status false)
    then buy_flow_step StepLabelsBuy.step_rate
    else if is_release_phase action && not (timeline_blocks_post_fiat_action_override status true)
    then buy_flow_step StepLabelsBuy.step_release_sats
    else step_or Kind.buy status
        (buy_listing_flow_step_from_action action (unwrap_or msg.is_mine false))
  where
    open msg use {message.{action}, order_status as status}

unfoldable pub sell_listing_flow_step : OrderMessage → FlowStep
sell_listing_flow_step msg =
    if not (is_sell msg.order_kind)
    then message_buy_flow_step_fallback action
    else if is_rate_phase action && not (timeline_blocks_post_fiat_action_override status false)
    then sell_flow_step StepLabelsSell.step_rate
    else if is_release_phase action && not (timeline_blocks_post_fiat_action_override status true)
    then sell_flow_step StepLabelsSell.step_release_sats
    else step_or Kind.sell status
        (sell_listing_flow_step_from_action action (unwrap_or msg.is_mine false))
  where
    open msg use {message.{action}, order_status as status}

abbrev timeline_step_by_kind : Option Kind → OrderMessage → FlowStep
timeline_step_by_kind (some Kind.buy) msg = buy_listing_flow_step msg
timeline_step_by_kind (some Kind.sell) msg = sell_listing_flow_step msg
timeline_step_by_kind none msg = message_buy_flow_step_fallback msg.message.action

unfoldable pub message_trade_timeline_step : OrderMessage → FlowStep
message_trade_timeline_step msg = timeline_step_by_kind msg.order_kind msg
