-- ===== src/Dm/Ownership.antt =====
-- util/dm_utils/mod.rs: `handle_trade_dm_for_order` and the ownership columns of an order's row.
use mostrix.Dm.Core.{KeepsCore, core_refl, core_trans, Kept, status-Kept, dispute-Kept, solver-Kept}
use mostrix.Prelude.{
  String, ◌≡◌, sym, subst, Option, none, some, List, arith, Bool-cases, Option-cases, inl, inr, ◌⊎◌,
  same, is_some_and, and_then, if◌then◌else◌,
}
use mostrix.Protocol.{Uuid, Action, Action-discrete, Status-discrete, Status, SmallOrder}
use mostrix.Messages.{OrderMessage}
use mostrix.Db.{Env, Order, get_by_id, update_status, update_dispute_id, update_solver_chat}
use mostrix.Db.Rows.{upsert_from_small_order_dm, derive_shared_key_hex}
use mostrix.Db.Frame.{get_by_id-delete_self}
use mostrix.Db.Upsert.{upsert-ownership}
use mostrix.Dm.{State, Dm, newest_row, untrack_chats}
use mostrix.Dm.Effects.{
  try_i64, opened_dispute, solver_of, order_to_persist, upsert_order_from_trade_dm,
  persist_dispute_id, persist_solver_chat, drop_pre_active_taker_take,
}
use mostrix.Dm.NewOrder.{
  try_handle_new_order_trade_dm, revert_maker_to_pending_on_book_republish,
  small_order_pending_from_new_order_payload,
}
use mostrix.Dm.Handler.{prepare, deliver, hydrate, handle_trade_dm_for_order}
use mostrix.Dm.Judge.{
  write_status, status_candidate, should_accept_candidate, baseline_status, status_from_db,
}
use mostrix.Dm.Tab.{handle-try}
use mostrix.Dm.Table.{track-rows, deliver-rows, hydrate-cases}

module _ (e : Env) (d : Dm) (r : Order) where
  upsert-rows :
      (s : State)
      → ((upsert_order_from_trade_dm e d s).rows ≡ s.rows)
        ⊎ ((o : SmallOrder) × ((upsert_order_from_trade_dm e d s).rows
              ≡ upsert_from_small_order_dm e d.order_id o d.trade_keys
                  (and_then d.message.request_id try_i64)
                  s.rows))
  unfolding upsert_order_from_trade_dm
  upsert-rows s = elim (Option-cases (order_to_persist d.message.action d.message.payload)) [
    | inl q ↦ inl (ground (arith, q))
    | inr (o, q) ↦ inr (o, ground (arith, q))
  ]

  dispute-rows :
      (s : State)
      → ((persist_dispute_id d s).rows ≡ s.rows)
        ⊎ ((x : Uuid) × ((persist_dispute_id d s).rows ≡ update_dispute_id d.order_id x s.rows))
  unfolding persist_dispute_id
  dispute-rows s = elim (Option-cases (opened_dispute d.message.action d.message.payload)) [
    | inl q ↦ inl (ground (arith, q))
    | inr (x, q) ↦ inr (x, ground (arith, q))
  ]

  solver-rows :
      (s : State)
      → ((persist_solver_chat e d s).rows ≡ s.rows)
        ⊎ ((x : String × String) × ((persist_solver_chat e d s).rows
              ≡ update_solver_chat d.order_id x.0 x.1 s.rows))
  unfolding persist_solver_chat
  solver-rows s = elim (Option-cases (solver_of e d.message.action d.message.payload)) [
    | inl q ↦ inl (ground (arith, q))
    | inr (peer, q) ↦ elim (Option-cases (e.parse_pubkey peer)) [
      | inl a ↦ inl (ground (arith, q, a))
      | inr (solver, a) ↦ elim (Option-cases (derive_shared_key_hex e d.trade_keys (some peer))) [
        | inl b ↦ inl (ground (arith, q, a, b))
        | inr (hex, b) ↦ inr ((peer, hex), ground (arith, q, a, b))
      ]
    ]
  ]

  write-rows :
      (prior : Option OrderMessage) (row : Option Order) (rows : List Order)
      → (write_status d prior row rows ≡ rows)
        ⊎ ((st : Status) × (write_status d prior row rows ≡ update_status d.order_id st rows))
  unfolding write_status
  write-rows prior row rows = elim (Option-cases (status_candidate d.message)) [
    | inl n ↦ inl (ground (arith, n))
    | inr (c, n) ↦ elim (Bool-cases (should_accept_candidate d prior row)) [
      | inl a ↦
          elim (Bool-cases
            (is_some_and (baseline_status d prior row) (λ b. same Status-discrete b c))) [
              | inl b ↦ inl (ground (arith, n, a, b))
              | inr b ↦ inr (c, ground (arith, n, a, b))
            ]
      | inr a ↦ elim (Option-cases (status_from_db d prior row)) [
        | inl b ↦ inl (ground (arith, n, a, b))
        | inr (st, b) ↦ inr (st, ground (arith, n, a, b))
      ]
    ]
  ]

  abbrev Here : List Order → Type 0
  Here rows = Kept d.order_id r rows

  upsert-Kept : (s : State) → Here s.rows → Here (upsert_order_from_trade_dm e d s).rows
  upsert-Kept s w = elim (upsert-rows s) [
    | inl q ↦ subst Here (sym q) w
    | inr (o, q) ↦
        let x =
          upsert-ownership e d.order_id o d.trade_keys (and_then d.message.request_id try_i64)
            s.rows w.0 w.1 in
        let y = x.2 in
        subst Here (sym q) (
          x.0,
          x.1,
          core_trans r w.0 x.0 w.2 (record {
            trade_keys = y.trade_keys;
            is_mine = y.is_mine;
            trade_index = y.trade_index;
            last_seen_dm_ts = y.last_seen_dm_ts;
          }),
        )
  ]

  dispute_dm-Kept : (s : State) → Here s.rows → Here (persist_dispute_id d s).rows
  dispute_dm-Kept s w = elim (dispute-rows s) [
    | inl q ↦ subst Here (sym q) w
    | inr (x, q) ↦ subst Here (sym q) (dispute-Kept d.order_id r s.rows w x)
  ]

  solver_dm-Kept : (s : State) → Here s.rows → Here (persist_solver_chat e d s).rows
  solver_dm-Kept s w = elim (solver-rows s) [
    | inl q ↦ subst Here (sym q) w
    | inr (x, q) ↦ subst Here (sym q) (solver-Kept d.order_id r s.rows w x.0 x.1)
  ]

  prepare-Kept : (s : State) → Kept d.order_id r s.rows → Kept d.order_id r (prepare e d s).rows
  unfolding prepare
  prepare-Kept s w =
      let t : State =
        if same Action-discrete d.message.action Action.cant_do
        then s
        else upsert_order_from_trade_dm e d s in
      let first : Kept d.order_id r t.rows =
        elim (Bool-cases (same Action-discrete d.message.action Action.cant_do)) [
          | inl q ↦ rw q w
          | inr q ↦ rw q (upsert-Kept s w)
        ] in
      subst (Kept d.order_id r)
        (sym (track-rows e d (persist_solver_chat e d (persist_dispute_id d t))))
        (solver_dm-Kept (persist_dispute_id d t) (dispute_dm-Kept t first))

  write-Kept :
      (prior : Option OrderMessage) (row : Option Order) (rows : List Order)
      → Here rows
      → Here (write_status d prior row rows)
  write-Kept prior row rows w = elim (write-rows prior row rows) [
    | inl q ↦ subst Here (sym q) w
    | inr (st, q) ↦ subst Here (sym q) (status-Kept d.order_id r rows w st)
  ]

  deliver-Kept : (row : Option Order) (s : State) → Here s.rows → Here (deliver e d row s).rows
  deliver-Kept row s w =
      subst Here (sym (deliver-rows e d row s))
        (write-Kept (newest_row d.order_id none s.messages) row s.rows w)

  -- The row is gone, or it has its core.
  abbrev pub GoneOrKept : State → Type 0
  GoneOrKept s = (get_by_id d.order_id s.rows ≡ none) ⊎ Here s.rows

  drop-Gone : (s : State) → GoneOrKept (drop_pre_active_taker_take d.order_id s)
  unfolding drop_pre_active_taker_take untrack_chats
  drop-Gone s = inl (get_by_id-delete_self d.order_id s.rows)

  revert-Kept :
      (s : State) → Here s.rows → Here (revert_maker_to_pending_on_book_republish e d s).rows
  unfolding revert_maker_to_pending_on_book_republish untrack_chats
  revert-Kept s w =
      status-Kept d.order_id r (upsert_order_from_trade_dm e d s).rows (upsert-Kept s w)
        Status.pending

  hydrate-Kept : (s : State) → Here s.rows → GoneOrKept (hydrate e d s)
  hydrate-Kept s w = elim (hydrate-cases e d s) [
    | inl q ↦ subst GoneOrKept (sym q) (drop-Gone s)
    | inr (inl q) ↦ subst GoneOrKept (sym q) (inr (prepare-Kept s w))
    | inr (inr q) ↦
        subst GoneOrKept (sym q)
          (inr (deliver-Kept (get_by_id d.order_id s.rows) (prepare e d s) (prepare-Kept s w)))
  ]

  try-cases :
      (s : State) (x : Order)
      → get_by_id d.order_id s.rows ≡ some x
      → ((try_handle_new_order_trade_dm e d s).0 ≡ s)
        ⊎ (((try_handle_new_order_trade_dm e d s).0 ≡ drop_pre_active_taker_take d.order_id s)
            ⊎ ((try_handle_new_order_trade_dm e d s).0
                ≡ revert_maker_to_pending_on_book_republish e d s))
  unfolding try_handle_new_order_trade_dm
  try-cases s x h =
      elim (Option-cases (small_order_pending_from_new_order_payload d.message.payload)) [
        | inl q ↦ ground (arith, q)
        | inr (o, q) ↦ ground (arith, q, h)
      ]

  try-Kept : (s : State) → Here s.rows → GoneOrKept (try_handle_new_order_trade_dm e d s).0
  try-Kept s w = elim (try-cases s w.0 w.1) [
    | inl q ↦ subst GoneOrKept (sym q) (inr w)
    | inr (inl q) ↦ subst GoneOrKept (sym q) (drop-Gone s)
    | inr (inr q) ↦ subst GoneOrKept (sym q) (inr (revert-Kept s w))
  ]

  handle-Kept : (s : State) → Here s.rows → GoneOrKept (handle_trade_dm_for_order e d s)
  handle-Kept s w = elim (handle-try e d s) [
    | inl q ↦ subst GoneOrKept (sym q) (try-Kept s w)
    | inr q ↦ subst GoneOrKept (sym q) (hydrate-Kept s w)
  ]

  -- Whatever a DM says, the row of its order is gone after the call or has the trade keys, the role,
  -- the trade index and the cursor that it had before.
  pub handle-ownership :
      (s : State)
      → get_by_id d.order_id s.rows ≡ some r
      → (get_by_id d.order_id (handle_trade_dm_for_order e d s).rows ≡ none)
        ⊎ ((r' : Order) × (get_by_id d.order_id (handle_trade_dm_for_order e d s).rows ≡ some r')
            × KeepsCore r r')
  handle-ownership s h = handle-Kept s (r, h, core_refl r)
