-- ===== src/Dm/Progress.antt =====
-- util/dm_utils/mod.rs: `handle_trade_dm_for_order` on the status of the order's own row.
use mostrix.Dm.StatusWrites.{
  dispute-status, solver-status, status-written, is_guarded, candidate_persisted, built-status,
}
use mostrix.Prelude.{
  ◌≡◌, refl, ap, ◌∙◌, true, false, Option, none, some, List, arith, Bool-cases, Option-cases, inl,
  inr, ◌⊎◌, same, and_then, if◌then◌else◌, find, sym,
}
use mostrix.Protocol.{Action, Action-discrete, Status, SmallOrder}
use mostrix.Messages.{OrderMessage}
use mostrix.Db.{Env, Order, get_by_id}
use mostrix.Db.Rows.{id_matches}
use mostrix.Db.Upsert.{row_status, upsert_existing, upsert_mismatch}
use mostrix.Dm.{State, Dm, newest_row, is_row_of}
use mostrix.Dm.Effects.{
  try_i64, order_to_persist, upsert_order_from_trade_dm, persist_dispute_id, persist_solver_chat,
}
use mostrix.Dm.Handler.{prepare, deliver}
use mostrix.Dm.Judge.{
  write_status, status_candidate, should_accept_candidate, effective_order_status,
  should_replace_row, order_message,
}
use mostrix.Dm.Table.{track-rows, deliver-rows}
use mostrix.Dm.Tab.{deliver-messages}
use mostrix.Dm.Rows.{find-replace_row}

module _ (e : Env) (d : Dm) where
  dispute_dm-status :
      (s : State)
      → row_status d.order_id (persist_dispute_id d s).rows ≡ row_status d.order_id s.rows
  unfolding persist_dispute_id
  dispute_dm-status s = grind (arith, dispute-status d.order_id s.rows)

  solver_dm-status :
      (s : State)
      → row_status d.order_id (persist_solver_chat e d s).rows ≡ row_status d.order_id s.rows
  unfolding persist_solver_chat
  solver_dm-status s = grind (arith, solver-status d.order_id s.rows)

  pub upsert_dm-status :
      (s : State) (r : Order)
      → get_by_id d.order_id s.rows ≡ some r
      → (row_status d.order_id (upsert_order_from_trade_dm e d s).rows ≡ r.status)
        ⊎ ((o : SmallOrder) × (order_to_persist d.message.action d.message.payload ≡ some o)
            × (row_status d.order_id (upsert_order_from_trade_dm e d s).rows ≡ o.status))
  unfolding upsert_order_from_trade_dm
  upsert_dm-status s r h =
      elim (Option-cases (order_to_persist d.message.action d.message.payload)) [
        | inl q ↦ inl (ground (arith, q, h))
        | inr (o, q) ↦
            let rid = and_then d.message.request_id try_i64 in
            elim (Bool-cases (id_matches o.id d.order_id)) [
              | inr n ↦
                  inl
                    (ground (arith, q, h, upsert_mismatch e d.order_id o d.trade_keys rid s.rows n))
              | inl y ↦ inr (
                o,
                q,
                ground (
                  arith,
                  q,
                  upsert_existing e d.order_id o d.trade_keys rid s.rows r h y,
                  built-status e d.order_id o d.trade_keys rid (some r),
                ),
              )
            ]
      ]

  pub prepare-rows_status :
      (s : State)
      → row_status d.order_id (prepare e d s).rows
        ≡ row_status d.order_id
            (if same Action-discrete d.message.action Action.cant_do
              then s
              else upsert_order_from_trade_dm e d s).rows
  unfolding prepare
  prepare-rows_status s =
      let t : State =
        if same Action-discrete d.message.action Action.cant_do
        then s
        else upsert_order_from_trade_dm e d s in
      ap (row_status d.order_id) (track-rows e d (persist_solver_chat e d (persist_dispute_id d t)))
      ∙ (solver_dm-status (persist_dispute_id d t) ∙ dispute_dm-status t)

  module _ (s : State) (r : Order) (h : get_by_id d.order_id s.rows ≡ some r) where
    pub prepare-status :
        (row_status d.order_id (prepare e d s).rows ≡ r.status)
        ⊎ ((o : SmallOrder) × (order_to_persist d.message.action d.message.payload ≡ some o)
            × (row_status d.order_id (prepare e d s).rows ≡ o.status))
    prepare-status = elim (Bool-cases (same Action-discrete d.message.action Action.cant_do)) [
      | inl q ↦ inl (rw (prepare-rows_status s, q, h) refl)
      | inr q ↦ elim (upsert_dm-status s r h) [
        | inl k ↦ inl (rw (prepare-rows_status s, q) k)
        | inr (o, k, l) ↦ inr (o, k, rw (prepare-rows_status s, q) l)
      ]
    ]

    -- The status write, on rows that an upsert has touched.
    module _ (prior : Option OrderMessage) (st : Status) (k : r.status ≡ some st)
        (rows : List Order) where
      abbrev after : Option Status
      after = row_status d.order_id (write_status d prior (some r) rows)

      written-none :
          status_candidate d.message ≡ none
          → row_status d.order_id rows ≡ some st
          → after ≡ effective_order_status d prior (some r)
      unfolding write_status effective_order_status should_accept_candidate
      written-none n q = ground (arith, n, q, k)

      written-rejected :
          (c : Status) (x : Status)
          → status_candidate d.message ≡ some c
          → row_status d.order_id rows ≡ some x
          → should_accept_candidate d prior (some r) ≡ false
          → after ≡ effective_order_status d prior (some r)
      unfolding write_status effective_order_status
      written-rejected c x n q no_it =
          ground (arith, n, q, k, no_it, status-written d.order_id rows st x q)

      written-accepted :
          (c : Status) (x : Status)
          → status_candidate d.message ≡ some c
          → row_status d.order_id rows ≡ some x
          → (x ≡ st) ⊎ (x ≡ c)
          → should_accept_candidate d prior (some r) ≡ true
          → after ≡ effective_order_status d prior (some r)
      unfolding write_status effective_order_status
      written-accepted c x n q w yes_it =
          ground (arith, n, q, k, w, yes_it, status-written d.order_id rows c x q)

    module _ (st : Status) (k : r.status ≡ some st) (g : is_guarded d.message ≡ true) where
      -- After the upsert the row shows the old status or the candidate.
      prepared :
          (row_status d.order_id (prepare e d s).rows ≡ some st)
          ⊎ ((c : Status) × (status_candidate d.message ≡ some c)
              × (row_status d.order_id (prepare e d s).rows ≡ some c))
      prepared = elim prepare-status [
        | inl q ↦ inl (q ∙ k)
        | inr (o, q, l) ↦ elim (Option-cases o.status) [
          | inl n ↦ unfold is_guarded in ground (arith, q, n, g)
          | inr (c, n) ↦ inr (c, candidate_persisted d.message o c q g n, l ∙ n)
        ]
      ]

      written :
          (prior : Option OrderMessage)
          → row_status d.order_id (write_status d prior (some r) (prepare e d s).rows)
            ≡ effective_order_status d prior (some r)
      written prior =
          let rows = (prepare e d s).rows in
          elim (Option-cases (status_candidate d.message)) [
            | inl n ↦ elim prepared [
              | inl q ↦ written-none prior st k rows n q
              | inr (c, n', q) ↦ ground (arith, n, n')
            ]
            | inr (c, n) ↦
                let x : (x : Status) × (row_status d.order_id rows ≡ some x)
                    × ((x ≡ st) ⊎ (x ≡ c)) =
                  elim prepared [
                    | inl q ↦ (st, q, inl refl)
                    | inr (c', n', q) ↦ (c', q, inr (ground (arith, n, n')))
                  ] in
                elim (Bool-cases (should_accept_candidate d prior (some r))) [
                  | inr a ↦ written-rejected prior st k rows c x.0 n x.1 a
                  | inl a ↦ written-accepted prior st k rows c x.0 n x.1 x.2 a
                ]
          ]

      abbrev pub shown : Option OrderMessage
      shown = newest_row d.order_id none (prepare e d s).messages

      abbrev delivered : State
      delivered = deliver e d (some r) (prepare e d s)

      pub status_delivered :
          row_status d.order_id delivered.rows ≡ effective_order_status d shown (some r)
      status_delivered =
          ap (row_status d.order_id) (deliver-rows e d (some r) (prepare e d s)) ∙ written shown

      row_written :
          should_replace_row d shown (some r) ≡ true
          → (m : OrderMessage) × (find (is_row_of d.order_id) delivered.messages ≡ some m)
            × (m.message ≡ d.message)
            × (m.order_status ≡ effective_order_status d shown (some r))
      unfolding order_message
      row_written w =
          let m = order_message d shown (some r) (get_by_id d.order_id (prepare e d s).rows) in
          (
            m,
            rw (deliver-messages e d (some r) (prepare e d s), w)
                (find-replace_row d.order_id m (prepare e d s).messages refl),
            refl,
            refl,
          )

      -- Where the local row of the order has a status and the payload is one that the guard sees whole,
      -- a message that is let into the Messages tab ends there as the row of its order, and the status
      -- that this row shows is the status that the order then has in the table.
      pub deliver-status :
          should_replace_row d shown (some r) ≡ true
          → (m : OrderMessage) × (find (is_row_of d.order_id) delivered.messages ≡ some m)
            × (m.message ≡ d.message)
            × (row_status d.order_id delivered.rows ≡ m.order_status)
      deliver-status w = let x = row_written w in (x.0, x.1, x.2, status_delivered ∙ sym x.3)
