-- ===== src/Messages/Labels.antt =====
-- ui/orders.rs: labels, emoji and badges of the Messages sidebar.
use mostrix.Prelude.{String, Option, none, some}
use mostrix.Protocol.{Kind, Status, Action, Payload}
use mostrix.Messages.{OrderMessage}

-- `ratatui` colours, `PRIMARY_COLOR` among them.
pub data Color : Type 0 where
  green red dark_gray magenta yellow primary : Color

unfoldable pub message_action_compact_label : Action → String
message_action_compact_label Action.add_invoice = "Invoice Request"
message_action_compact_label Action.add_bond_invoice = "Bond Payout Invoice"
message_action_compact_label Action.pay_invoice = "Payment Request"
message_action_compact_label Action.pay_bond_invoice = "Bond Invoice"
message_action_compact_label Action.waiting_buyer_invoice = "Waiting Buyer Invoice"
message_action_compact_label Action.waiting_seller_to_pay = "Waiting Seller Payment"
message_action_compact_label Action.hold_invoice_payment_accepted = "Hold Invoice Accepted"
message_action_compact_label Action.buyer_took_order = "Buyer Took Order"
message_action_compact_label Action.fiat_sent = "Fiat Sent"
message_action_compact_label Action.fiat_sent_ok = "Fiat Confirmed"
message_action_compact_label Action.release = "Release sats"
message_action_compact_label Action.released = "Release sats"
message_action_compact_label Action.dispute = "Dispute"
message_action_compact_label Action.dispute_initiated_by_you = "Dispute"
message_action_compact_label Action.dispute_initiated_by_peer = "Dispute by Peer"
message_action_compact_label Action.admin_took_dispute = "Solver Joined Dispute"
message_action_compact_label Action.cant_do = "Action Rejected"
message_action_compact_label Action.canceled = "Canceled"
message_action_compact_label Action.admin_canceled = "Admin Canceled"
message_action_compact_label Action.rate = "Rate Counterparty"
message_action_compact_label Action.rate_received = "Rating Received"
message_action_compact_label Action.cooperative_cancel_initiated_by_peer =
    "Cooperative Cancel Initiated by Peer"
message_action_compact_label Action.cooperative_cancel_initiated_by_you =
    "Cooperative Cancel Initiated by You"
message_action_compact_label Action.new_order = "New Order Created"
message_action_compact_label _ = "Unknown Message"

unfoldable pub message_action_emoji : Action → String
message_action_emoji Action.add_invoice = "🧾"
message_action_emoji Action.add_bond_invoice = "🔒"
message_action_emoji Action.pay_invoice = "⚡"
message_action_emoji Action.pay_bond_invoice = "🔒"
message_action_emoji Action.waiting_buyer_invoice = "⏳"
message_action_emoji Action.waiting_seller_to_pay = "⏳"
message_action_emoji Action.hold_invoice_payment_accepted = "🔐"
message_action_emoji Action.buyer_took_order = "🤝"
message_action_emoji Action.fiat_sent = "💸"
message_action_emoji Action.fiat_sent_ok = "✅"
message_action_emoji Action.release = "🔓"
message_action_emoji Action.released = "🔓"
message_action_emoji Action.dispute = "⚖\u{fe0f}"
message_action_emoji Action.dispute_initiated_by_you = "⚖\u{fe0f}"
message_action_emoji Action.dispute_initiated_by_peer = "⚖\u{fe0f}"
message_action_emoji Action.canceled = "❌"
message_action_emoji Action.admin_canceled = "🛑"
message_action_emoji Action.rate = "⭐"
message_action_emoji Action.rate_received = "🌟"
message_action_emoji Action.cooperative_cancel_initiated_by_peer = "✋"
message_action_emoji Action.cooperative_cancel_initiated_by_you = "✋"
message_action_emoji Action.new_order = "🆕"
message_action_emoji _ = "✉\u{fe0f}"

abbrev label_by_status : Option Status → Action → String
label_by_status (some Status.pending) action = "Pending order"
label_by_status (some Status.success) action = "Trade Completed"
label_by_status (some Status.settled_by_admin) action = "Settled by admin"
label_by_status (some Status.completed_by_admin) action = "Completed by admin"
label_by_status (some Status.canceled) action = "Canceled"
label_by_status (some Status.canceled_by_admin) action = "Admin Canceled"
label_by_status (some Status.cooperatively_canceled) action = "Cooperatively Canceled"
label_by_status (some Status.dispute) action = "Trade in Dispute"
label_by_status (some Status.waiting_buyer_invoice) action = "Waiting Buyer Invoice"
label_by_status (some Status.waiting_payment) action = "Waiting Seller Payment"
label_by_status (some Status.expired) action = "Expired"
label_by_status _ action = message_action_compact_label action

unfoldable pub message_action_compact_label_for_message : OrderMessage → String
message_action_compact_label_for_message msg = label_by_status msg.order_status msg.message.action

abbrev emoji_by_status : Option Status → Action → String
emoji_by_status (some Status.success) action = "✅"
emoji_by_status (some Status.settled_by_admin) action = "✅"
emoji_by_status (some Status.completed_by_admin) action = "✅"
emoji_by_status (some Status.canceled) action = "❌"
emoji_by_status (some Status.canceled_by_admin) action = "❌"
emoji_by_status (some Status.cooperatively_canceled) action = "❌"
emoji_by_status (some Status.expired) action = "⌛"
emoji_by_status (some Status.dispute) action = "⚖\u{fe0f}"
emoji_by_status (some Status.fiat_sent) action = "💸"
emoji_by_status (some Status.pending) action = "⏳"
emoji_by_status (some Status.waiting_payment) action = "⏳"
emoji_by_status (some Status.waiting_buyer_invoice) action = "⏳"
emoji_by_status (some Status.waiting_taker_bond) action = "⏳"
emoji_by_status (some Status.waiting_maker_bond) action = "⏳"
emoji_by_status (some Status.in_progress) action = "💬"
emoji_by_status (some Status.active) action = "💬"
emoji_by_status (some Status.settled_hold_invoice) action = "💬"
emoji_by_status none action = message_action_emoji action

unfoldable pub message_action_emoji_for_message : OrderMessage → String
message_action_emoji_for_message msg = emoji_by_status msg.order_status msg.message.action

unfoldable pub order_status_badge : Option Status → String × Color
order_status_badge (some Status.success) = ("✅", Color.green)
order_status_badge (some Status.settled_by_admin) = ("✅", Color.green)
order_status_badge (some Status.completed_by_admin) = ("✅", Color.green)
order_status_badge (some Status.canceled) = ("❌", Color.red)
order_status_badge (some Status.canceled_by_admin) = ("❌", Color.red)
order_status_badge (some Status.cooperatively_canceled) = ("❌", Color.red)
order_status_badge (some Status.expired) = ("⌛", Color.dark_gray)
order_status_badge (some Status.dispute) = ("⚖\u{fe0f}", Color.magenta)
order_status_badge (some Status.fiat_sent) = ("💸", Color.primary)
order_status_badge (some Status.pending) = ("⏳", Color.yellow)
order_status_badge (some Status.waiting_payment) = ("⏳", Color.yellow)
order_status_badge (some Status.waiting_buyer_invoice) = ("⏳", Color.yellow)
order_status_badge (some Status.waiting_taker_bond) = ("⏳", Color.yellow)
order_status_badge (some Status.waiting_maker_bond) = ("⏳", Color.yellow)
order_status_badge (some Status.in_progress) = ("💬", Color.primary)
order_status_badge (some Status.active) = ("💬", Color.primary)
order_status_badge (some Status.settled_hold_invoice) = ("💬", Color.primary)
order_status_badge none = ("💬", Color.primary)

abbrev kind_label : Kind → String
kind_label Kind.buy = "BUY"
kind_label Kind.sell = "SELL"

abbrev kind_label_from_action : Action → String
kind_label_from_action Action.take_sell = "SELL"
kind_label_from_action Action.take_buy = "BUY"
kind_label_from_action _ = "N/A"

abbrev kind_label_or : Option Kind → Action → String
kind_label_or none action = kind_label_from_action action
kind_label_or (some k) action = kind_label k

abbrev order_kind_of_payload : Option Payload → Option Kind
order_kind_of_payload (some (Payload.order o)) = o.kind
order_kind_of_payload _ = none

abbrev kind_label_of : Option Kind → OrderMessage → String
kind_label_of (some k) msg = kind_label k
kind_label_of none msg =
    kind_label_or (order_kind_of_payload msg.message.payload) msg.message.action

unfoldable pub message_order_kind_label : OrderMessage → String
message_order_kind_label msg = kind_label_of msg.order_kind msg
