-- ===== src/Disputes/Agreement.antt =====
-- util/order_utils/relay_dispute_db_reconcile.rs: the table and the list in memory.
use mostrix.Prelude.{
  ◌≤◌, ◌≡◌, refl, sym, ap, ◌∙◌, Bool, true, false, not, ◌&&◌, ◌||◌, some, List, [], ◌∷◌, ◌++◌,
  count, arith, Bool-cases, Option-cases, inl, inr, ◌↔◌, is_some_and, str_eq, eq_iff, ◌==◌,
  if◌then◌else◌, String,
}
use mostrix.Protocol.{Uuid}
use mostrix.Disputes.{
  DisputeStatus, DisputeText, Reads, Dispute, AdminDispute, is_terminal_status, is_finalized,
  is_open_row, is_final, set_status_by_dispute_id, close_first,
  reconcile_one_admin_dispute_if_terminal, reconcile_terminal_admin_disputes_from_relay,
  apply_terminal_relay_statuses_to_admin_disputes,
}

abbrev pub is_dispute : Uuid → AdminDispute → Bool
is_dispute i r = r.dispute_id == i

-- Every dispute is taken at most once.
abbrev pub Unique : List AdminDispute → Type 0
Unique rows = (i : Uuid) → count (is_dispute i) rows ≤ 1

module _ (x : DisputeText) (reads : Reads x) where
  reads_text :
      (s : String) (d : DisputeStatus) → (str_eq s (x.to_text d) ≡ true) ↔ (x.of_text s ≡ some d)
  reads_text s d = (
    λ h. (reads s d).1 ((eq_iff s (x.to_text d)).0 h),
    λ h. (eq_iff s (x.to_text d)).1 ((reads s d).0 h),
  )

  text_final :
      (s : String)
      → is_terminal_status x s ≡ (
          str_eq s (x.to_text DisputeStatus.settled)
          || (str_eq s (x.to_text DisputeStatus.seller_refunded)
              || str_eq s (x.to_text DisputeStatus.released)))
  unfolding is_terminal_status
  text_final s = ground (
    arith,
    reads_text s DisputeStatus.settled,
    reads_text s DisputeStatus.seller_refunded,
    reads_text s DisputeStatus.released,
  )

  -- The column test of the statement is the test of the code.
  pub open_not_final : (r : AdminDispute) → is_open_row x r ≡ not (is_finalized x r)
  unfolding is_open_row is_finalized
  open_not_final r = elim (Option-cases r.status) [
    | inl n ↦ rw n refl
    | inr (s, n) ↦ rw (n, text_final s) refl
  ]

  -- A relay dispute that is terminal, as the two writers see it.
  module _ (d : Dispute) (st : DisputeStatus) (h : x.of_text d.status ≡ some st)
      (f : is_final st ≡ true) where
    untouched :
        (rows : List AdminDispute)
        → count (is_dispute d.id) rows ≡ 0
        → set_status_by_dispute_id x d.id st rows ≡ (rows, false)
    unfolding set_status_by_dispute_id
    untouched [] z = refl
    untouched (r ∷ rs) z =
        let q : (r.dispute_id == d.id) ≡ false = ground (arith, z) in
        let k : count (is_dispute d.id) rs ≡ 0 = ground (arith, z, q) in rw (q, untouched rs k) refl

    status_text : x.to_text st ≡ d.status
    status_text = sym ((reads d.status st).0 h)

    shown_final : is_terminal_status x d.status ≡ true
    unfolding is_terminal_status
    shown_final = ground (arith, h, f)

    not_same :
        (r : AdminDispute)
        → is_finalized x r ≡ false
        → is_some_and r.status (λ s. str_eq s d.status) ≡ false
    unfolding is_finalized
    not_same r a = elim (Option-cases r.status) [
      | inl n ↦ rw n refl
      | inr (s, n) ↦ elim (Bool-cases (str_eq s d.status)) [
        | inr m ↦ rw (n, m) refl
        | inl m ↦
            let e : s ≡ d.status = (eq_iff s d.status).0 m in
            ground (arith, n, a, shown_final, ap (is_terminal_status x) e)
      ]
    ]

    close_row :
        (rows : List AdminDispute)
        → count (is_dispute d.id) rows ≤ 1
        → close_first x d rows ≡ set_status_by_dispute_id x d.id st rows
    unfolding set_status_by_dispute_id close_first
    close_row [] u = refl
    close_row (r ∷ rs) u = elim (Bool-cases (r.dispute_id == d.id)) [
      | inr q ↦
          let k : count (is_dispute d.id) rs ≤ 1 = ground (arith, u, q) in
          rw (q, close_row rs k) refl
      | inl q ↦
          let k : count (is_dispute d.id) rs ≡ 0 = ground (arith, u, q) in
          elim (Bool-cases (is_finalized x r)) [
            | inl a ↦ rw (q, a, open_not_final r, a, untouched rs k) refl
            | inr a ↦ rw (q, a, open_not_final r, a, not_same r a, untouched rs k, status_text) refl
          ]
    ]

  -- One relay dispute, in memory.
  abbrev one_in_memory : Dispute → List AdminDispute → List AdminDispute × List Uuid
  one_in_memory d rows =
      if is_terminal_status x d.status
      then (let c = close_first x d rows in (c.0, if c.1 then d.id ∷ [] else []))
      else (rows, [])

  pub terminal_text :
      (s : String)
      → is_terminal_status x s ≡ true
      → (st : DisputeStatus) × (x.of_text s ≡ some st) × (is_final st ≡ true)
  unfolding is_terminal_status
  terminal_text s h = elim (Option-cases (x.of_text s)) [
    | inl n ↦ ground (arith, h, n)
    | inr (st, n) ↦ (st, n, ground (arith, h, n))
  ]

  abbrev pub told : Dispute → List AdminDispute × Bool → List AdminDispute × List Uuid
  told d c = (c.0, if c.1 then d.id ∷ [] else [])

  pub one_writes :
      (d : Dispute) (st : DisputeStatus) (rows : List AdminDispute)
      → is_terminal_status x d.status ≡ true
      → x.of_text d.status ≡ some st
      → reconcile_one_admin_dispute_if_terminal x d rows
        ≡ told d (set_status_by_dispute_id x d.id st rows)
  unfolding reconcile_one_admin_dispute_if_terminal
  one_writes d st rows a t = ground (arith, a, t)

  one_agrees :
      (d : Dispute) (rows : List AdminDispute)
      → Unique rows
      → one_in_memory d rows ≡ reconcile_one_admin_dispute_if_terminal x d rows
  one_agrees d rows u = elim (Bool-cases (is_terminal_status x d.status)) [
    | inr a ↦ unfold reconcile_one_admin_dispute_if_terminal in rw a refl
    | inl a ↦
        let t = terminal_text d.status a in
        let m : one_in_memory d rows ≡ told d (close_first x d rows) = rw a refl in
        m
        ∙ (ap (told d) (close_row d t.0 t.1 t.2 rows (u d.id)) ∙ sym (one_writes d t.0 rows a t.1))
  ]

  set_status-count :
      (i j : Uuid) (st : DisputeStatus) (rows : List AdminDispute)
      → count (is_dispute j) (set_status_by_dispute_id x i st rows).0 ≡ count (is_dispute j) rows
  unfolding set_status_by_dispute_id
  set_status-count i j st [] = refl
  set_status-count i j st (r ∷ rs) = elim (Bool-cases (r.dispute_id == i && is_open_row x r)) [
    | inl a ↦ rw (a, set_status-count i j st rs) refl
    | inr a ↦ rw (a, set_status-count i j st rs) refl
  ]

  one-count :
      (d : Dispute) (j : Uuid) (rows : List AdminDispute)
      → count (is_dispute j) (reconcile_one_admin_dispute_if_terminal x d rows).0
        ≡ count (is_dispute j) rows
  unfolding reconcile_one_admin_dispute_if_terminal
  one-count d j rows = elim (Bool-cases (is_terminal_status x d.status)) [
    | inr a ↦ rw a refl
    | inl a ↦
        let t = terminal_text d.status a in ground (arith, a, t.1, set_status-count d.id j t.0 rows)
  ]

  one-Unique :
      (d : Dispute) (rows : List AdminDispute)
      → Unique rows
      → Unique (reconcile_one_admin_dispute_if_terminal x d rows).0
  one-Unique d rows u j = rw (one-count d j rows) (u j)

  -- If a text reads as a status exactly if it is that status's text, and every dispute is taken at most
  -- once, the list in memory and the table end with the same rows after the same relay disputes, and
  -- the chats of the same disputes are untracked.
  pub memory_agrees :
      (ds : List Dispute) (rows : List AdminDispute)
      → Unique rows
      → apply_terminal_relay_statuses_to_admin_disputes x ds rows
        ≡ reconcile_terminal_admin_disputes_from_relay x ds rows
  unfolding apply_terminal_relay_statuses_to_admin_disputes
      reconcile_terminal_admin_disputes_from_relay
  memory_agrees [] rows u = refl
  memory_agrees (d ∷ ds) rows u =
      let db = reconcile_one_admin_dispute_if_terminal x d rows in
      let one : one_in_memory d rows ≡ db = one_agrees d rows u in
      let rest = memory_agrees ds db.0 (one-Unique d rows u) in
      ap
        (λ (o : List AdminDispute × List Uuid).
          (let r = apply_terminal_relay_statuses_to_admin_disputes x ds o.0 in (r.0, o.1 ++ r.1)))
        one
      ∙ ap (λ (r : List AdminDispute × List Uuid). (r.0, db.1 ++ r.1)) rest
