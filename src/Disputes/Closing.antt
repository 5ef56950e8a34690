-- ===== src/Disputes/Closing.antt =====
-- models.rs and util/order_utils/relay_dispute_db_reconcile.rs: disputes that are closed.
use mostrix.Prelude.{◌≡◌, ap, ◌∙◌, true, some, List, [], ◌∷◌, arith, Bool-cases, inl, inr, ◌==◌}
use mostrix.Protocol.{Uuid}
use mostrix.Disputes.{
  DisputeStatus, DisputeText, Reads, Dispute, AdminDispute, is_terminal_status, is_finalized,
  set_status_by_dispute_id, reconcile_one_admin_dispute_if_terminal,
  reconcile_terminal_admin_disputes_from_relay,
}
use mostrix.Disputes.Taking.{get_dispute}
use mostrix.Disputes.Agreement.{open_not_final, terminal_text, one_writes}

module _ (x : DisputeText) (reads : Reads x) (i : Uuid) (r : AdminDispute)
    (f : is_finalized x r ≡ true) where
  set_status-keeps :
      (j : Uuid) (st : DisputeStatus) (rows : List AdminDispute)
      → get_dispute i rows ≡ some r
      → get_dispute i (set_status_by_dispute_id x j st rows).0 ≡ some r
  unfolding get_dispute set_status_by_dispute_id
  set_status-keeps j st [] h = h
  set_status-keeps j st (y ∷ ys) h = elim (Bool-cases (y.id == i)) [
    | inl q ↦ ground (arith, q, h, f, open_not_final x reads y)
    | inr q ↦ ground (arith, q, h, set_status-keeps j st ys)
  ]

  one-keeps :
      (d : Dispute) (rows : List AdminDispute)
      → get_dispute i rows ≡ some r
      → get_dispute i (reconcile_one_admin_dispute_if_terminal x d rows).0 ≡ some r
  one-keeps d rows h = elim (Bool-cases (is_terminal_status x d.status)) [
    | inr a ↦ unfold reconcile_one_admin_dispute_if_terminal in rw a h
    | inl a ↦
        let t = terminal_text x reads d.status a in
        ap (λ (c : List AdminDispute × List Uuid). get_dispute i c.0)
          (one_writes x reads d t.0 rows a t.1)
        ∙ set_status-keeps d.id t.0 rows h
  ]

  -- If a text reads as a status exactly if it is that status's text, no sequence of relay disputes
  -- changes the row of a finalized dispute: a later `seller-refunded` never overwrites `settled`.
  pub finalized_stays :
      (ds : List Dispute) (rows : List AdminDispute)
      → get_dispute i rows ≡ some r
      → get_dispute i (reconcile_terminal_admin_disputes_from_relay x ds rows).0 ≡ some r
  unfolding reconcile_terminal_admin_disputes_from_relay
  finalized_stays [] rows h = h
  finalized_stays (d ∷ ds) rows h =
      finalized_stays ds (reconcile_one_admin_dispute_if_terminal x d rows).0 (one-keeps d rows h)
