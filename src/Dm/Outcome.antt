-- ===== src/Dm/Outcome.antt =====
-- util/dm_utils/mod.rs: `handle_trade_dm_for_order` and the status of its order's row.
use mostrix.Prelude.{
  ◌≡◌, ap, ◌∙◌, true, Option, none, some, arith, Bool-cases, Option-cases, inl, inr, ◌⊎◌, same,
}
use mostrix.Protocol.{Kind, Action, Action-discrete, Status, SmallOrder}
use mostrix.OrderStatus.{should_apply_status_transition}
use mostrix.OrderStatus.Guard.{should_apply_refl}
use mostrix.Messages.{OrderMessage}
use mostrix.Db.{Env, Order, get_by_id}
use mostrix.Db.Upsert.{row_status}
use mostrix.Dm.{State, Dm, newest_row, untrack_chats}
use mostrix.Dm.Terminal.{is_pre_active_taker_take, is_pre_active_maker_listing}
use mostrix.Dm.Effects.{order_to_persist, upsert_order_from_trade_dm, drop_pre_active_taker_take}
use mostrix.Dm.NewOrder.{
  try_handle_new_order_trade_dm, revert_maker_to_pending_on_book_republish,
  small_order_pending_from_new_order_payload,
}
use mostrix.Dm.Tab.{try-again, prepare-messages}
use mostrix.Db.Frame.{get_by_id-delete_self}
use mostrix.Dm.Handler.{prepare, deliver, hydrate, handle_trade_dm_for_order}
use mostrix.Dm.Judge.{
  status_candidate, should_accept_candidate, effective_order_status, effective_order_kind,
}
use mostrix.Dm.Progress.{upsert_dm-status, prepare-status, status_delivered, shown}
use mostrix.Dm.StatusWrites.{status-written, is_guarded}

module _ (e : Env) (d : Dm) where
  effective-accepted :
      (prior : Option OrderMessage) (r : Order) (st : Status)
      → r.status ≡ some st
      → (st' : Status) × (effective_order_status d prior (some r) ≡ some st')
        × (should_apply_status_transition (some st) st' (effective_order_kind d prior (some r))
            ≡ true)
  unfolding effective_order_status
  effective-accepted prior r st k = elim (Option-cases (status_candidate d.message)) [
    | inl n ↦ (
      st,
      unfold should_accept_candidate in ground (arith, n, k),
      should_apply_refl st (effective_order_kind d prior (some r)),
    )
    | inr (c, n) ↦ elim (Bool-cases (should_accept_candidate d prior (some r))) [
      | inr a ↦
          (st, ground (arith, a, k), should_apply_refl st (effective_order_kind d prior (some r)))
      | inl a ↦ (c, ground (arith, a, n), unfold should_accept_candidate in ground (arith, a, n, k))
    ]
  ]

  drop-gone :
      (s : State) → get_by_id d.order_id (drop_pre_active_taker_take d.order_id s).rows ≡ none
  unfolding drop_pre_active_taker_take untrack_chats
  drop-gone s = get_by_id-delete_self d.order_id s.rows

  revert-pending :
      (s : State) (r : Order) (st : Status) (o : SmallOrder)
      → get_by_id d.order_id s.rows ≡ some r
      → r.status ≡ some st
      → d.message.action ≡ Action.new_order
      → small_order_pending_from_new_order_payload d.message.payload ≡ some o
      → row_status d.order_id (revert_maker_to_pending_on_book_republish e d s).rows
        ≡ some Status.pending
  unfolding revert_maker_to_pending_on_book_republish untrack_chats
  revert-pending s r st o h k a q =
      let x : (x : Status) × (row_status d.order_id (upsert_order_from_trade_dm e d s).rows
            ≡ some x) =
        elim (upsert_dm-status e d s r h) [
          | inl l ↦ (st, l ∙ k)
          | inr (o', l, m) ↦ (
            Status.pending,
            unfold small_order_pending_from_new_order_payload in ground (arith, l, m, a, q),
          )
        ] in
      status-written d.order_id (upsert_order_from_trade_dm e d s).rows Status.pending x.0 x.1

  -- What a call may leave of the order's row, where the row had the status `st`.
  abbrev pub Outcome : Order → Status → Option Kind → State → Type 0
  Outcome r st kind s' =
      ((get_by_id d.order_id s'.rows ≡ none) × (is_pre_active_taker_take r ≡ true))
      ⊎ (((row_status d.order_id s'.rows ≡ some Status.pending)
            × (is_pre_active_maker_listing r ≡ true)
            × (d.message.action ≡ Action.new_order))
          ⊎ ((st' : Status) × (row_status d.order_id s'.rows ≡ some st')
              × (should_apply_status_transition (some st) st' kind ≡ true)))

  module _ (s : State) (r : Order) (st : Status) (h : get_by_id d.order_id s.rows ≡ some r)
      (k : r.status ≡ some st) (g : is_guarded d.message ≡ true) where
    abbrev kind : Option Kind
    kind = effective_order_kind d (newest_row d.order_id none s.messages) (some r)

    hydrate-split :
        ((hydrate e d s ≡ drop_pre_active_taker_take d.order_id s)
          × (is_pre_active_taker_take r ≡ true))
        ⊎ (((hydrate e d s ≡ prepare e d s)
              × (order_to_persist d.message.action d.message.payload ≡ none))
            ⊎ (hydrate e d s ≡ deliver e d (some r) (prepare e d s)))
    unfolding hydrate is_guarded
    hydrate-split = ground (arith, h, g)

    unwritten :
        order_to_persist d.message.action d.message.payload ≡ none
        → row_status d.order_id (prepare e d s).rows ≡ some st
    unwritten n = elim (prepare-status e d s r h) [
      | inl q ↦ q ∙ k
      | inr (o, q, l) ↦ ground (arith, q, n)
    ]

    delivered :
        (st' : Status) × (row_status d.order_id (deliver e d (some r) (prepare e d s)).rows
          ≡ some st')
        × (should_apply_status_transition (some st) st' kind ≡ true)
    delivered =
        let prior = newest_row d.order_id none s.messages in
        let p : shown e d s r h st k g ≡ prior =
          ap (newest_row d.order_id none) (prepare-messages e d s) in
        let x = effective-accepted prior r st k in
        (
          x.0,
          status_delivered e d s r h st k g
              ∙ (ap (λ y. effective_order_status d y (some r)) p ∙ x.1),
          x.2,
        )

    pub hydrate-Outcome : Outcome r st kind (hydrate e d s)
    hydrate-Outcome = elim hydrate-split [
      | inl (q, t) ↦ inl (ap (λ x. get_by_id d.order_id x.rows) q ∙ drop-gone s, t)
      | inr (inl (q, n)) ↦ inr (
          inr
            (st, ap (λ x. row_status d.order_id x.rows) q ∙ unwritten n, should_apply_refl st kind))
      | inr (inr q) ↦
          inr
            (inr (delivered.0, ap (λ x. row_status d.order_id x.rows) q ∙ delivered.1, delivered.2))
    ]

    try-split :
        (try_handle_new_order_trade_dm e d s).1 ≡ true
        → ((try_handle_new_order_trade_dm e d s).0 ≡ drop_pre_active_taker_take d.order_id s)
            × (is_pre_active_taker_take r ≡ true)
          ⊎ ((o : SmallOrder) × ((try_handle_new_order_trade_dm e d s).0
                ≡ revert_maker_to_pending_on_book_republish e d s)
              × (small_order_pending_from_new_order_payload d.message.payload ≡ some o)
              × (is_pre_active_maker_listing r ≡ true))
    unfolding try_handle_new_order_trade_dm
    try-split t =
        elim (Option-cases (small_order_pending_from_new_order_payload d.message.payload)) [
          | inl q ↦ ground (arith, q, t)
          | inr (o, q) ↦ elim (Bool-cases (is_pre_active_taker_take r)) [
            | inl a ↦ inl (ground (arith, q, h, a), a)
            | inr a ↦ inr (o, ground (arith, q, h, a, t), q, ground (arith, q, h, a, t))
          ]
        ]

    -- For a row with a status and a payload that the guard sees whole, a call leaves one of three
    -- things, on every branch: no row, where it was a taker's before the trade was active; the status
    -- `pending`, where a `NewOrder` reached a maker's row before the trade was active; or a status that
    -- the guard accepts from the old one.
    pub handle-Outcome : Outcome r st kind (handle_trade_dm_for_order e d s)
    unfolding handle_trade_dm_for_order
    handle-Outcome = elim (Bool-cases (same Action-discrete d.message.action Action.new_order)) [
      | inr a ↦ rw a hydrate-Outcome
      | inl a ↦ elim (Bool-cases ((try_handle_new_order_trade_dm e d s).1)) [
        | inr t ↦ rw (a, t, try-again e d s t) hydrate-Outcome
        | inl t ↦ elim (try-split t) [
          | inl (q, b) ↦ rw (a, t) (inl (ap (λ x. get_by_id d.order_id x.rows) q ∙ drop-gone s, b))
          | inr (o, q, p, b) ↦
              rw (a, t)
                (inr (
                  inl (
                    ap (λ x. row_status d.order_id x.rows) q
                        ∙ revert-pending s r st o h k (ground (arith, a)) p,
                    b,
                    ground (arith, a),
                  )))
        ]
      ]
    ]
