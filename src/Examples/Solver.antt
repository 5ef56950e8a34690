-- ===== src/Examples/Solver.antt =====
-- models.rs and util/order_utils/relay_dispute_db_reconcile.rs on concrete inputs.
use mostrix.Prelude.{
  ◌≡◌, refl, ap, ◌∙◌, false, Option, none, some, List, [], ◌∷◌, arith, pos, String, str_eq, eq_iff,
  if◌then◌else◌,
}
use mostrix.Disputes.{
  DisputeStatus, DisputeText, Reads, Dispute, AdminDispute, is_terminal_status, is_finalized,
  apply_terminal_relay_statuses_to_admin_disputes, reconcile_terminal_admin_disputes_from_relay,
}
use mostrix.Disputes.Taking.{SolverDisputeInfo, get_dispute, dispute_row}
use mostrix.Disputes.Agreement.{Unique, memory_agrees}
use mostrix.Disputes.Closing.{finalized_stays}
use mostrix.Samples.{sample_env}

abbrev kebab : DisputeStatus → String
kebab DisputeStatus.initiated = "initiated"
kebab DisputeStatus.in_progress = "in-progress"
kebab DisputeStatus.settled = "settled"
kebab DisputeStatus.seller_refunded = "seller-refunded"
kebab DisputeStatus.released = "released"

abbrev from_kebab : String → Option DisputeStatus
from_kebab s =
    if str_eq s "initiated"
    then some DisputeStatus.initiated
    else if str_eq s "in-progress"
    then some DisputeStatus.in_progress
    else if str_eq s "settled"
    then some DisputeStatus.settled
    else if str_eq s "seller-refunded"
    then some DisputeStatus.seller_refunded
    else if str_eq s "released"
    then some DisputeStatus.released
    else none

abbrev texts : DisputeText
texts = record { to_text = kebab; of_text = from_kebab }

read_back : (d : DisputeStatus) → from_kebab (kebab d) ≡ some d
read_back DisputeStatus.initiated = refl
read_back DisputeStatus.in_progress = refl
read_back DisputeStatus.settled = refl
read_back DisputeStatus.seller_refunded = refl
read_back DisputeStatus.released = refl

read_only : (s : String) (d : DisputeStatus) → from_kebab s ≡ some d → s ≡ kebab d
read_only s d h = ground (
  arith,
  h,
  eq_iff s "initiated",
  eq_iff s "in-progress",
  eq_iff s "settled",
  eq_iff s "seller-refunded",
  eq_iff s "released",
)

texts-Reads : Reads texts
texts-Reads s d = (read_only s d, λ h. ap from_kebab h ∙ read_back d)

abbrev info : String → SolverDisputeInfo
info s = record {
  id = 1;
  kind = "buy";
  status = s;
  hash = none;
  preimage = none;
  order_previous_status = "active";
  initiator_pubkey = "a";
  buyer_pubkey = some "a";
  seller_pubkey = some "b";
  initiator_full_privacy = false;
  counterpart_full_privacy = false;
  initiator_info = none;
  counterpart_info = none;
  premium = pos 0;
  payment_method = "SEPA";
  amount = pos 1000;
  fiat_amount = pos 50;
  fee = pos 1;
  routing_fee = pos 1;
  buyer_invoice = none;
  invoice_held_at = pos 1;
  taken_at = pos 2;
  created_at = pos 1;
}

-- Two taken disputes: one settled, one in progress.
abbrev closed_row : AdminDispute
closed_row = dispute_row sample_env (info "settled") 31 none none

abbrev open_row : AdminDispute
open_row = dispute_row sample_env (record (info "in-progress") { id = 2 }) 32 none none

abbrev disputes : List AdminDispute
disputes = closed_row ∷ open_row ∷ []

abbrev relayed : List Dispute
relayed =
    record { id = 31; status = "seller-refunded" } ∷ record { id = 32; status = "released" } ∷ []

disputes-Unique : Unique disputes
unfolding dispute_row
disputes-Unique i = ground arith

memory_agrees_example :
    apply_terminal_relay_statuses_to_admin_disputes texts relayed disputes
    ≡ reconcile_terminal_admin_disputes_from_relay texts relayed disputes
memory_agrees_example = memory_agrees texts texts-Reads relayed disputes disputes-Unique

finalized_stays_example :
    get_dispute 1 (reconcile_terminal_admin_disputes_from_relay texts relayed disputes).0
    ≡ some closed_row
unfolding get_dispute is_finalized is_terminal_status dispute_row
finalized_stays_example = finalized_stays texts texts-Reads 1 closed_row refl relayed disputes refl

abbrev retaken : List AdminDispute
retaken = dispute_row sample_env (record (info "in-progress") { id = 3 }) 33 none none ∷ disputes
