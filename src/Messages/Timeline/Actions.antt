-- ===== src/Messages/Timeline/Actions.antt =====
-- ui/orders.rs: the stepper's column of an action, for each listing kind and role.
use mostrix.Prelude.{Bool, if◌then◌else◌}
use mostrix.Protocol.{Action}
use mostrix.Messages.Timeline.Steps.{
  StepLabelsBuy, StepLabelsSell, FlowStep, buy_flow_step, sell_flow_step,
}

abbrev sell_action_column_maker : Action → StepLabelsSell
sell_action_column_maker Action.waiting_seller_to_pay = StepLabelsSell.step_seller_payment
sell_action_column_maker Action.pay_invoice = StepLabelsSell.step_seller_payment
sell_action_column_maker Action.add_invoice = StepLabelsSell.step_buyer_invoice
sell_action_column_maker Action.waiting_buyer_invoice = StepLabelsSell.step_buyer_invoice
sell_action_column_maker Action.hold_invoice_payment_accepted =
    StepLabelsSell.step_chat_active_order
sell_action_column_maker Action.fiat_sent = StepLabelsSell.step_send_fiat
sell_action_column_maker Action.fiat_sent_ok = StepLabelsSell.step_release_sats
sell_action_column_maker Action.release = StepLabelsSell.step_release_sats
sell_action_column_maker Action.released = StepLabelsSell.step_release_sats
sell_action_column_maker Action.rate = StepLabelsSell.step_rate
sell_action_column_maker Action.rate_received = StepLabelsSell.step_rate
sell_action_column_maker Action.hold_invoice_payment_settled = StepLabelsSell.step_rate
sell_action_column_maker Action.purchase_completed = StepLabelsSell.step_rate
sell_action_column_maker Action.take_buy = StepLabelsSell.step_chat_active_order
sell_action_column_maker Action.take_sell = StepLabelsSell.step_chat_active_order
sell_action_column_maker _ = StepLabelsSell.step_chat_active_order

abbrev sell_action_column_taker : Action → StepLabelsSell
sell_action_column_taker Action.waiting_seller_to_pay = StepLabelsSell.step_seller_payment
sell_action_column_taker Action.pay_invoice = StepLabelsSell.step_seller_payment
sell_action_column_taker Action.add_invoice = StepLabelsSell.step_buyer_invoice
sell_action_column_taker Action.waiting_buyer_invoice = StepLabelsSell.step_buyer_invoice
sell_action_column_taker Action.hold_invoice_payment_accepted =
    StepLabelsSell.step_chat_active_order
sell_action_column_taker Action.fiat_sent = StepLabelsSell.step_send_fiat
sell_action_column_taker Action.fiat_sent_ok = StepLabelsSell.step_release_sats
sell_action_column_taker Action.release = StepLabelsSell.step_release_sats
sell_action_column_taker Action.released = StepLabelsSell.step_release_sats
sell_action_column_taker Action.rate = StepLabelsSell.step_rate
sell_action_column_taker Action.rate_received = StepLabelsSell.step_rate
sell_action_column_taker Action.hold_invoice_payment_settled = StepLabelsSell.step_rate
sell_action_column_taker Action.purchase_completed = StepLabelsSell.step_rate
sell_action_column_taker Action.take_buy = StepLabelsSell.step_chat_active_order
sell_action_column_taker Action.take_sell = StepLabelsSell.step_chat_active_order
sell_action_column_taker _ = StepLabelsSell.step_chat_active_order

abbrev buy_action_column_maker : Action → StepLabelsBuy
buy_action_column_maker Action.waiting_seller_to_pay = StepLabelsBuy.step_seller_payment
buy_action_column_maker Action.pay_invoice = StepLabelsBuy.step_seller_payment
buy_action_column_maker Action.add_invoice = StepLabelsBuy.step_buyer_invoice
buy_action_column_maker Action.waiting_buyer_invoice = StepLabelsBuy.step_buyer_invoice
buy_action_column_maker Action.hold_invoice_payment_accepted = StepLabelsBuy.step_chat_active_order
buy_action_column_maker Action.fiat_sent = StepLabelsBuy.step_send_fiat
buy_action_column_maker Action.fiat_sent_ok = StepLabelsBuy.step_release_sats
buy_action_column_maker Action.release = StepLabelsBuy.step_release_sats
buy_action_column_maker Action.released = StepLabelsBuy.step_release_sats
buy_action_column_maker Action.rate = StepLabelsBuy.step_rate
buy_action_column_maker Action.rate_received = StepLabelsBuy.step_rate
buy_action_column_maker Action.hold_invoice_payment_settled = StepLabelsBuy.step_rate
buy_action_column_maker Action.purchase_completed = StepLabelsBuy.step_rate
buy_action_column_maker Action.take_buy = StepLabelsBuy.step_chat_active_order
buy_action_column_maker Action.take_sell = StepLabelsBuy.step_chat_active_order
buy_action_column_maker _ = StepLabelsBuy.step_chat_active_order

abbrev buy_action_column_taker : Action → StepLabelsBuy
buy_action_column_taker Action.waiting_seller_to_pay = StepLabelsBuy.step_seller_payment
buy_action_column_taker Action.pay_invoice = StepLabelsBuy.step_seller_payment
buy_action_column_taker Action.add_invoice = StepLabelsBuy.step_buyer_invoice
buy_action_column_taker Action.waiting_buyer_invoice = StepLabelsBuy.step_buyer_invoice
buy_action_column_taker Action.hold_invoice_payment_accepted = StepLabelsBuy.step_chat_active_order
buy_action_column_taker Action.fiat_sent = StepLabelsBuy.step_send_fiat
buy_action_column_taker Action.fiat_sent_ok = StepLabelsBuy.step_release_sats
buy_action_column_taker Action.release = StepLabelsBuy.step_release_sats
buy_action_column_taker Action.released = StepLabelsBuy.step_release_sats
buy_action_column_taker Action.rate = StepLabelsBuy.step_rate
buy_action_column_taker Action.rate_received = StepLabelsBuy.step_rate
buy_action_column_taker Action.hold_invoice_payment_settled = StepLabelsBuy.step_rate
buy_action_column_taker Action.purchase_completed = StepLabelsBuy.step_rate
buy_action_column_taker Action.take_buy = StepLabelsBuy.step_chat_active_order
buy_action_column_taker Action.take_sell = StepLabelsBuy.step_chat_active_order
buy_action_column_taker _ = StepLabelsBuy.step_chat_active_order

unfoldable pub sell_listing_flow_step_from_action : Action → Bool → FlowStep
sell_listing_flow_step_from_action action is_maker =
    if is_maker
    then sell_flow_step (sell_action_column_maker action)
    else sell_flow_step (sell_action_column_taker action)

unfoldable pub buy_listing_flow_step_from_action : Action → Bool → FlowStep
buy_listing_flow_step_from_action action is_maker =
    if is_maker
    then buy_flow_step (buy_action_column_maker action)
    else buy_flow_step (buy_action_column_taker action)

abbrev fallback_column : Action → StepLabelsBuy
fallback_column Action.waiting_seller_to_pay = StepLabelsBuy.step_seller_payment
fallback_column Action.pay_invoice = StepLabelsBuy.step_seller_payment
fallback_column Action.add_invoice = StepLabelsBuy.step_buyer_invoice
fallback_column Action.waiting_buyer_invoice = StepLabelsBuy.step_buyer_invoice
fallback_column Action.hold_invoice_payment_accepted = StepLabelsBuy.step_chat_active_order
fallback_column Action.fiat_sent = StepLabelsBuy.step_send_fiat
fallback_column Action.fiat_sent_ok = StepLabelsBuy.step_release_sats
fallback_column Action.release = StepLabelsBuy.step_release_sats
fallback_column Action.released = StepLabelsBuy.step_release_sats
fallback_column Action.rate = StepLabelsBuy.step_rate
fallback_column Action.rate_received = StepLabelsBuy.step_rate
fallback_column Action.hold_invoice_payment_settled = StepLabelsBuy.step_rate
fallback_column Action.purchase_completed = StepLabelsBuy.step_rate
fallback_column Action.take_buy = StepLabelsBuy.step_chat_active_order
fallback_column Action.take_sell = StepLabelsBuy.step_chat_active_order
fallback_column _ = StepLabelsBuy.step_chat_active_order

unfoldable pub message_buy_flow_step_fallback : Action → FlowStep
message_buy_flow_step_fallback action = buy_flow_step (fallback_column action)
