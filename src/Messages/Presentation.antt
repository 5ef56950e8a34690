-- ===== src/Messages/Presentation.antt =====
-- ui/orders.rs: the STATUS banner of the Messages detail panel.
use mostrix.Prelude.{String, Bool, true, false, Option, none, some, is_some, or, if◌then◌else◌}
use text.Mathlib.Text.{find?}
use mostrix.Protocol.{Kind, Status, Action}
use mostrix.Messages.{OrderMessage}
use mostrix.Messages.Labels.{Color}
use mostrix.Messages.Popup.{local_user_must_act_on_invoice_popup, waiting_phase_description}

unfoldable pub message_timeline_warning : Action → Option String
message_timeline_warning Action.canceled = some "Trade canceled"
message_timeline_warning Action.admin_canceled = some "Trade canceled by admin"
message_timeline_warning Action.dispute = some "Trade in dispute state"
message_timeline_warning Action.dispute_initiated_by_you = some "Trade in dispute state"
message_timeline_warning Action.dispute_initiated_by_peer = some "Trade in dispute state"
message_timeline_warning _ = none

unfoldable pub message_timeline_warning_for_order_status : Option Status → Option String
message_timeline_warning_for_order_status none = none
message_timeline_warning_for_order_status (some Status.canceled) = some "Trade canceled"
message_timeline_warning_for_order_status (some Status.canceled_by_admin) =
    some "Trade canceled by admin"
message_timeline_warning_for_order_status (some Status.cooperatively_canceled) =
    some "Trade cooperatively canceled"
message_timeline_warning_for_order_status (some Status.expired) = some "Trade expired"
message_timeline_warning_for_order_status (some Status.dispute) = some "Trade in dispute state"
message_timeline_warning_for_order_status (some _) = none

pub record MessageStatusPresentation : Type 0 where
  pub emoji : String
  pub title : String
  pub color : Color
  pub next : Option String

-- `matches!((order_kind, is_mine), (Some(Buy), Some(false)) | (Some(Sell), Some(true)))`
abbrev is_seller : Option Kind → Option Bool → Bool
is_seller (some Kind.buy) (some false) = true
is_seller (some Kind.sell) (some true) = true
is_seller _ _ = false

-- `matches!((order_kind, is_mine), (Some(Buy), Some(true)) | (Some(Sell), Some(false)))`
abbrev is_buyer : Option Kind → Option Bool → Bool
is_buyer (some Kind.buy) (some true) = true
is_buyer (some Kind.sell) (some false) = true
is_buyer _ _ = false

abbrev when : Bool → String → Option String
when true s = some s
when false s = none

abbrev bond_next_step : Option Status → Option Bool → String
bond_next_step (some Status.waiting_maker_bond) mine =
    "Pay the anti-abuse bond to publish your order to the book."
bond_next_step none (some true) = "Pay the anti-abuse bond to publish your order to the book."
bond_next_step _ _ = "Pay the anti-abuse bond to continue."

unfoldable pub actionable_next_step : OrderMessage → Action → Option String
actionable_next_step msg Action.add_invoice =
    when (local_user_must_act_on_invoice_popup msg Action.add_invoice)
      "Add your Lightning invoice to continue."
actionable_next_step msg Action.pay_invoice =
    when (local_user_must_act_on_invoice_popup msg Action.pay_invoice)
      "Pay the hold invoice to continue."
actionable_next_step msg Action.pay_bond_invoice =
    when (local_user_must_act_on_invoice_popup msg Action.pay_bond_invoice)
      (bond_next_step msg.order_status msg.is_mine)
actionable_next_step msg Action.add_bond_invoice =
    when (local_user_must_act_on_invoice_popup msg Action.add_bond_invoice)
      "Add a bond payout invoice to claim your share."
actionable_next_step msg Action.fiat_sent_ok =
    when (is_seller msg.order_kind msg.is_mine) "Release sats to complete the trade."
actionable_next_step msg Action.release =
    when (is_seller msg.order_kind msg.is_mine) "Release sats to complete the trade."
actionable_next_step msg Action.fiat_sent =
    when (is_buyer msg.order_kind msg.is_mine) "Confirm that you sent the fiat payment."
actionable_next_step msg Action.hold_invoice_payment_accepted =
    some "Confirm you sent the fiat payment to continue."
actionable_next_step msg Action.cooperative_cancel_initiated_by_peer =
    some "Your counterparty asked to cooperatively cancel — press Enter to review."
actionable_next_step msg Action.rate = some "Rate your counterparty."
actionable_next_step msg _ = none

abbrev next_step_title : Action → String × String
next_step_title Action.add_invoice = ("🧾", "Invoice required")
next_step_title Action.pay_invoice = ("⚡", "Payment required")
next_step_title Action.pay_bond_invoice = ("🔒", "Bond payment required")
next_step_title Action.add_bond_invoice = ("🔒", "Bond payout invoice required")
next_step_title Action.release = ("🔓", "Release required")
next_step_title Action.fiat_sent_ok = ("🔓", "Release required")
next_step_title Action.fiat_sent = ("💸", "Confirm fiat sent")
next_step_title Action.hold_invoice_payment_accepted = ("💸", "Confirm fiat sent")
next_step_title Action.cooperative_cancel_initiated_by_peer = ("⚠\u{fe0f}", "Cancel requested")
next_step_title Action.rate = ("⭐", "Rating required")
next_step_title _ = ("👉", "Action required")

abbrev warning_banner : String → MessageStatusPresentation
warning_banner text =
    if is_some (find? text "dispute")
    then record { emoji = "⚖\u{fe0f}"; title = text; color = Color.magenta; next = none }
    else record { emoji = "❌"; title = text; color = Color.red; next = none }

abbrev completed_banner : Action → MessageStatusPresentation
completed_banner Action.rate = record {
  emoji = "⭐";
  title = "Trade completed";
  color = Color.green;
  next = some "Rate your counterparty.";
}
completed_banner _ = record {
  emoji = "✅";
  title = "Trade completed";
  color = Color.green;
  next = none;
}

abbrev settled_banner : MessageStatusPresentation
settled_banner = record {
  emoji = "✅";
  title = "Trade settled by admin";
  color = Color.green;
  next = none;
}

abbrev next_step_banner : OrderMessage → Option String → MessageStatusPresentation
next_step_banner msg (some next) = record {
  emoji = (next_step_title msg.message.action).0;
  title = (next_step_title msg.message.action).1;
  color = Color.primary;
  next = some next;
}
next_step_banner msg none = record {
  emoji = "✅";
  title = "Trade is on the normal path";
  color = Color.green;
  next = some (waiting_phase_description msg);
}

abbrev open_banner : OrderMessage → Option Status → MessageStatusPresentation
open_banner msg (some Status.success) = completed_banner msg.message.action
open_banner msg (some Status.settled_by_admin) = settled_banner
open_banner msg (some Status.completed_by_admin) = settled_banner
open_banner msg _ = next_step_banner msg (actionable_next_step msg msg.message.action)

abbrev banner : OrderMessage → Option String → MessageStatusPresentation
banner msg (some text) = warning_banner text
banner msg none = open_banner msg msg.order_status

unfoldable pub message_status_presentation : OrderMessage → MessageStatusPresentation
message_status_presentation msg = banner msg (
    or (message_timeline_warning_for_order_status msg.order_status)
      (message_timeline_warning msg.message.action))
