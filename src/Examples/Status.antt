-- ===== src/Examples/Status.antt =====
-- The status guard of util/order_utils/helper.rs and the views of ui/orders.rs on concrete inputs.
use mostrix.Prelude.{◌≤◌, ◌≡◌, refl, true, false, none, some, List, [], ◌∷◌}
use mostrix.Protocol.{Kind, Status, Action, Status-discrete}
use mostrix.OrderStatus.{
  should_apply_status_transition, is_terminal_trade_status, status_phase_rank_for_actor,
}
use mostrix.OrderStatus.Guard.{settle, settle-accepted}
use mostrix.Messages.Popup.{invoice_popup_allowed_for_order_status}
use mostrix.Messages.Popup.Roles.{pay_popup_stays_shut}
use mostrix.Messages.Timeline.{
  message_trade_timeline_step, step_number, timeline_blocks_post_fiat_action_override,
}
use mostrix.Messages.Timeline.Columns.{at, timeline_monotone}
use mostrix.Samples.{sample_order_message}

abbrev candidates : List Status
candidates = Status.active ∷ Status.waiting_payment ∷ Status.success ∷ Status.pending ∷ []

settle_test : settle (some Kind.buy) Status.pending candidates ≡ Status.success
unfolding settle should_apply_status_transition is_terminal_trade_status status_phase_rank_for_actor
    Status-discrete
settle_test = refl

settle-accepted_example :
    should_apply_status_transition
      (some Status.pending)
      (settle (some Kind.buy) Status.pending candidates)
      (some Kind.buy)
    ≡ true
settle-accepted_example = settle-accepted (some Kind.buy) Status.pending candidates

timeline_monotone_example :
    step_number (
      message_trade_timeline_step
        (at (sample_order_message Action.release 5 none) Kind.buy Status.pending))
    ≤ step_number (
        message_trade_timeline_step
          (at (sample_order_message Action.release 5 none) Kind.buy Status.active))
unfolding should_apply_status_transition is_terminal_trade_status status_phase_rank_for_actor
    Status-discrete timeline_blocks_post_fiat_action_override
timeline_monotone_example =
    timeline_monotone (sample_order_message Action.release 5 none) Kind.buy Status.pending
      Status.active refl refl

pay_popup_stays_shut_example :
    invoice_popup_allowed_for_order_status Action.pay_invoice
      (some (settle (some Kind.buy) Status.active candidates))
    ≡ false
unfolding should_apply_status_transition is_terminal_trade_status status_phase_rank_for_actor
    Status-discrete
pay_popup_stays_shut_example = pay_popup_stays_shut Kind.buy Status.active candidates refl (λ h. cc)
