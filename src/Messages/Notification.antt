-- ===== src/Messages/Notification.antt =====
-- ui/orders.rs: the notification built from a row.
use mostrix.Prelude.{ℤ, String, Option, none, some, is_some_and, same, unwrap_or}
use mostrix.Protocol.{Uuid, Status, Action, Payload, Status-discrete}
use mostrix.Messages.{OrderMessage, MessageNotification}
use mostrix.Messages.Popup.{
  waiting_phase_description, waiting_phase_short_label, waiting_popup_action_for_message,
}
use Prim.Native.String.{◌++◌}

abbrev notification_preview : Action → String
notification_preview Action.new_order = "New Order created"
notification_preview Action.add_invoice = "Invoice Request"
notification_preview Action.add_bond_invoice = "Bond Payout Invoice"
notification_preview Action.pay_invoice = "Payment Request"
notification_preview Action.pay_bond_invoice = "Bond Invoice"
notification_preview Action.take_sell = "Take Sell"
notification_preview Action.take_buy = "Take Buy"
notification_preview Action.fiat_sent = "Fiat Sent"
notification_preview Action.fiat_sent_ok = "Fiat payment completed"
notification_preview Action.waiting_buyer_invoice = "Waiting for Buyer to Add Invoice"
notification_preview Action.waiting_seller_to_pay = "Waiting for Seller to Pay"
notification_preview Action.hold_invoice_payment_accepted =
    "Hold invoice payment accepted — confirm fiat was sent?\n\nYES — Send FiatSent (you sent fiat).\nNO — Close without sending.\nCANCEL — Start cooperative cancel (both sides must agree; same as My Trades Shift+C).\n\nCancel path: Cancel this order? This sends a cooperative Cancel request."
notification_preview Action.buyer_took_order =
    "Buyer took order — do you want to start a cooperative cancel?\n\nCANCEL — Start cooperative cancel (both sides must agree; same as My Trades Shift+C).\nNO — Close without canceling.\n"
notification_preview Action.cancel = "Cancel"
notification_preview Action.cooperative_cancel_initiated_by_peer =
    "Peer requested cooperative cancel"
notification_preview Action.canceled = "Order canceled"
notification_preview Action.admin_canceled = "Order canceled by admin"
notification_preview Action.dispute = "Dispute"
notification_preview Action.dispute_initiated_by_you = "Dispute"
notification_preview Action.dispute_initiated_by_peer = "Your counterpart opened a dispute"
notification_preview Action.admin_took_dispute = "A solver joined the dispute"
notification_preview Action.rate = "Rate Counterparty"
notification_preview Action.rate_received = "Rate Counterparty completed"
notification_preview Action.purchase_completed = "Rate Counterparty completed"
notification_preview Action.release = "Release"
notification_preview Action.released = "Release"
notification_preview _ = "Message"

-- `format_local_timestamp` (the local time zone) is a parameter.
unfoldable pub bond_payout_notification_body : (ℤ → Option String) → ℤ → String
bond_payout_notification_body format_local_timestamp slashed_at =
    ("Slash recorded: " ++ unwrap_or (format_local_timestamp slashed_at) "unknown")
    ++ ". Claim deadline = anchor + instance payout window."

abbrev notification_body : (ℤ → Option String) → Action → Option Payload → Option String
notification_body format Action.add_bond_invoice (some (Payload.bond_payout_request o slashed_at)) =
    some (bond_payout_notification_body format slashed_at)
notification_body format _ _ = none

abbrev notification_solver : Action → Option Payload → Option String
notification_solver Action.admin_took_dispute (some (Payload.peer pubkey reputation)) = some pubkey
notification_solver _ _ = none

abbrev notification_dispute : Option Payload → Option Uuid
notification_dispute (some (Payload.dispute id)) = some id
notification_dispute _ = none

unfoldable pub order_message_to_notification :
    (ℤ → Option String) → OrderMessage → MessageNotification
order_message_to_notification format msg = record {
  order_id = msg.order_id;
  message_preview = notification_preview action;
  timestamp = msg.timestamp;
  action = action;
  sat_amount = msg.sat_amount;
  invoice = msg.buyer_invoice;
  body = notification_body format action payload;
  maker_bond_publish =
      is_some_and msg.order_status (λ s. same Status-discrete s Status.waiting_maker_bond);
  solver_pubkey = notification_solver action payload;
  dispute_id = notification_dispute payload;
}
  where
    open msg use {message.{action, payload}}

unfoldable pub order_message_to_waiting_notification :
    (ℤ → Option String) → OrderMessage → MessageNotification
order_message_to_waiting_notification format msg =
    record (order_message_to_notification format msg) {
      message_preview = waiting_phase_short_label msg;
      body = some (waiting_phase_description msg);
      action = waiting_popup_action_for_message msg;
    }
