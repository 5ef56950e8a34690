-- ===== src/Messages/Popup/Roles.antt =====
-- Who acts on an invoice popup of ui/orders.rs, and when such a popup may open.
use mostrix.Prelude.{◌≡◌, ◌≢◌, refl, Bool, true, false, not, some, arith, ◌⊎◌, inl, inr, List}
use mostrix.Protocol.{Kind, Status, Action}
use mostrix.OrderStatus.{
  should_apply_status_transition, is_terminal_trade_status, status_phase_rank_for_actor,
}
use mostrix.OrderStatus.Guard.{accepted, settle, settle-accepted}
use mostrix.Messages.Popup.{invoice_popup_allowed_for_order_status}

-- The maker of a buy listing and the taker of a sell listing buy.
abbrev pub is_buyer : Kind → Bool → Bool
is_buyer Kind.buy is_maker = is_maker
is_buyer Kind.sell is_maker = not is_maker

left_payment :
    (k : Kind) (t : Status)
    → should_apply_status_transition (some Status.waiting_payment) t (some k) ≡ true
    → t ≢ Status.waiting_payment
    → should_apply_status_transition (some t) Status.waiting_payment (some k) ≡ false
unfolding is_terminal_trade_status status_phase_rank_for_actor should_apply_status_transition
left_payment k t h n = ground (arith, accepted (some k) Status.waiting_payment t h)

allowed_status :
    (s : Status)
    → (invoice_popup_allowed_for_order_status Action.pay_invoice (some s) ≡ false)
      ⊎ (s ≡ Status.waiting_payment)
unfolding invoice_popup_allowed_for_order_status
allowed_status Status.waiting_payment = inr refl
allowed_status Status.pending = inl refl
allowed_status _ = inl refl

-- Once an accepted status has left `waiting-payment`, no sequence of candidate statuses brings the
-- payment popup back: a replayed `pay-invoice` stays shut.
pub pay_popup_stays_shut :
    (k : Kind) (t : Status) (cs : List Status)
    → should_apply_status_transition (some Status.waiting_payment) t (some k) ≡ true
    → t ≢ Status.waiting_payment
    → invoice_popup_allowed_for_order_status Action.pay_invoice (some (settle (some k) t cs))
      ≡ false
pay_popup_stays_shut k t cs h n = elim (allowed_status (settle (some k) t cs)) [
  | inl shut ↦ shut
  | inr e ↦ cc (left_payment k t h n, settle-accepted (some k) t cs, e)
]
