-- ===== src/Messages/Timeline/Columns.antt =====
-- ui/orders.rs: the columns of the stepper and the guard on order statuses.
use mostrix.Prelude.{
  ℕ, ◌≤◌, ◌≡◌, Bool, true, false, Option, none, some, arith, unwrap_or, if◌then◌else◌, ◌==◌, ◌&&◌,
  not, inl, inr,
}
use mostrix.Protocol.{Kind, Status, Action}
use mostrix.OrderStatus.{
  rank_advances, status_phase_rank_for_actor, should_apply_status_transition,
  is_terminal_trade_status,
}
use mostrix.OrderStatus.Guard.{accepted}
use mostrix.Messages.{OrderMessage}
use mostrix.Messages.Timeline.{
  FlowStep, step_number, message_trade_timeline_step, buy_listing_flow_step, sell_listing_flow_step,
  buy_listing_flow_step_from_action, sell_listing_flow_step_from_action, listing_step_from_status,
  timeline_blocks_post_fiat_action_override, step_or, is_rate_phase, is_release_phase,
}

-- The rank by which helper.rs orders statuses, as a column: `Success` skips the release column.
abbrev rank_column : Option ℕ → ℕ
rank_column none = 0
rank_column (some r) = if r == 5 then 6 else r

column_of_status :
    (k : Kind) (s : Status) (f : FlowStep)
    → step_number (step_or k (some s) f) ≡ rank_column (status_phase_rank_for_actor s (some k))
unfolding listing_step_from_status step_number status_phase_rank_for_actor
column_of_status k s f = ground arith

abbrev pub stopped : Status → Bool
stopped s = timeline_blocks_post_fiat_action_override (some s) false

-- The message as it stands for a listing of a kind, at a status.
abbrev pub at : OrderMessage → Kind → Status → OrderMessage
at m k s = record m { order_kind = some k; order_status = some s }

abbrev pub column : Action → Kind → Status → ℕ
column action k s =
    if is_rate_phase action && not (stopped s)
    then 6
    else if is_release_phase action && not (timeline_blocks_post_fiat_action_override (some s) true)
    then 5
    else rank_column (status_phase_rank_for_actor s (some k))

-- At a known status the column is that of the status's rank, but for an action of the rating phase
-- (column 6) or of the release phase (column 5) on a trade that has not been stopped.
timeline_column :
    (m : OrderMessage) (k : Kind) (s : Status)
    → step_number (message_trade_timeline_step (at m k s)) ≡ column m.message.action k s
unfolding message_trade_timeline_step buy_listing_flow_step sell_listing_flow_step step_number
timeline_column m Kind.buy s = ground (
  arith,
  column_of_status Kind.buy s
      (buy_listing_flow_step_from_action m.message.action (unwrap_or m.is_mine false)),
)
timeline_column m Kind.sell s = ground (
  arith,
  column_of_status Kind.sell s
      (sell_listing_flow_step_from_action m.message.action (unwrap_or m.is_mine false)),
)

rank_column_mono : (a b : Option ℕ) → rank_advances a b ≡ true → rank_column a ≤ rank_column b
rank_column_mono a b h = ground arith

open_terminal :
    (s : Status) → is_terminal_trade_status s ≡ true → stopped s ≡ false → s ≡ Status.success
unfolding is_terminal_trade_status timeline_blocks_post_fiat_action_override
open_terminal s h o = ground arith

column-success : (action : Action) (k : Kind) → column action k Status.success ≡ 6
unfolding timeline_blocks_post_fiat_action_override status_phase_rank_for_actor
column-success action k = ground arith

column-le : (action : Action) (k : Kind) (s : Status) → column action k s ≤ 6
unfolding status_phase_rank_for_actor
column-le action k s = ground arith

-- A ranked status that is not terminal stops nothing.
ranked_open :
    (k : Kind) (a : Status) (r : Option ℕ)
    → is_terminal_trade_status a ≡ false
    → rank_advances (status_phase_rank_for_actor a (some k)) r ≡ true
    → (stopped a ≡ false) × (timeline_blocks_post_fiat_action_override (some a) true ≡ false)
unfolding is_terminal_trade_status status_phase_rank_for_actor
    timeline_blocks_post_fiat_action_override
ranked_open k a r t h = (ground arith, ground arith)

success_blocks :
    (s : Status)
    → stopped s ≡ false
    → timeline_blocks_post_fiat_action_override (some s) true ≡ true
    → s ≡ Status.success
unfolding timeline_blocks_post_fiat_action_override
success_blocks s o h = ground arith

column_mono :
    (action : Action) (k : Kind) (a b : Status)
    → should_apply_status_transition (some a) b (some k) ≡ true
    → stopped b ≡ false
    → column action k a ≤ column action k b
column_mono action k a b h o = elim (accepted (some k) a b h) [
  | inl e ↦ rw e (omega arith)
  | inr (t, inl u) ↦ rw (open_terminal b u o, column-success action k) (column-le action k a)
  | inr (t, inr adv) ↦ ground (
    arith,
    ranked_open k a (status_phase_rank_for_actor b (some k)) t adv,
    rank_column_mono (status_phase_rank_for_actor a (some k))
        (status_phase_rank_for_actor b (some k)) adv,
    column-success action k,
    success_blocks b o,
    column-le action k a,
  )
]

-- As long as the trade has not been stopped, a status that the guard accepts never moves the
-- highlighted column back, whatever the last action.
pub timeline_monotone :
    (m : OrderMessage) (k : Kind) (a b : Status)
    → should_apply_status_transition (some a) b (some k) ≡ true
    → timeline_blocks_post_fiat_action_override (some b) false ≡ false
    → step_number (message_trade_timeline_step (at m k a))
      ≤ step_number (message_trade_timeline_step (at m k b))
timeline_monotone m k a b h o =
    rw (timeline_column m k a, timeline_column m k b) (column_mono m.message.action k a b h o)
