-- ===== src/Dm/Tab.antt =====
-- util/dm_utils/mod.rs: `handle_trade_dm_for_order` on the rows of the Messages tab.
use mostrix.Prelude.{
  ◌≡◌, refl, true, false, Option, none, some, List, arith, Bool-cases, Option-cases, inl, inr, ◌⊎◌,
  same, sym, subst, if◌then◌else◌,
}
use mostrix.Protocol.{Action, Action-discrete, SmallOrder}
use mostrix.Messages.{OrderMessage}
use mostrix.Db.{Env, Order, get_by_id}
use mostrix.Dm.{State, Dm, remove_order_from_messages, replace_row, untrack_chats, newest_row}
use mostrix.Dm.Effects.{
  upsert_order_from_trade_dm, persist_dispute_id, persist_solver_chat, maybe_track_order_chat,
  drop_pre_active_taker_take,
}
use mostrix.Dm.NewOrder.{
  try_handle_new_order_trade_dm, revert_maker_to_pending_on_book_republish,
  persist_range_child_listing_from_new_order,
}
use mostrix.Dm.Handler.{deliver, prepare, hydrate, handle_trade_dm_for_order}
use mostrix.Dm.Judge.{order_message, should_replace_row}
use mostrix.Dm.Rows.{WellFormed, WellFormed-remove, WellFormed-replace}
use mostrix.Db.Rows.{save_order}
use mostrix.Dm.NewOrder.{small_order_pending_from_new_order_payload}

-- What a call may do to the rows: drop the order's row, replace it, or leave the tab.
module _ (e : Env) (d : Dm) where
  abbrev Change : List OrderMessage → List OrderMessage → Type 0
  Change ms ms' =
      (ms' ≡ ms)
      ⊎ ((ms' ≡ remove_order_from_messages d.order_id ms)
          ⊎ ((m : OrderMessage) × (m.order_id ≡ some d.order_id)
              × (ms' ≡ replace_row d.order_id m ms)))

  pub prepare-messages : (s : State) → (prepare e d s).messages ≡ s.messages
  unfolding prepare upsert_order_from_trade_dm persist_dispute_id persist_solver_chat
      maybe_track_order_chat
  prepare-messages s = ground arith

  pub deliver-messages :
      (row : Option Order) (s : State)
      → (deliver e d row s).messages ≡ (
          let prior = newest_row d.order_id none s.messages in
          if should_replace_row d prior row
          then replace_row d.order_id
              (order_message d prior row (get_by_id d.order_id s.rows))
              s.messages
          else s.messages)
  unfolding deliver
  deliver-messages row s = ground arith

  order_message-id :
      (prior : Option OrderMessage) (row post : Option Order)
      → (order_message d prior row post).order_id ≡ some d.order_id
  unfolding order_message
  order_message-id prior row post = refl

  deliver-Change : (row : Option Order) (s : State) → Change s.messages (deliver e d row s).messages
  deliver-Change row s =
      let prior = newest_row d.order_id none s.messages in
      let post = get_by_id d.order_id s.rows in
      elim (Bool-cases (should_replace_row d prior row)) [
        | inr q ↦ inl (rw (deliver-messages row s, q) refl)
        | inl q ↦ inr (
            inr (
              order_message d prior row post,
              order_message-id prior row post,
              rw (deliver-messages row s, q) refl,
            ))
      ]

  hydrate-messages :
      (s : State)
      → ((hydrate e d s).messages ≡ s.messages)
        ⊎ (((hydrate e d s).messages ≡ remove_order_from_messages d.order_id s.messages)
            ⊎ ((hydrate e d s).messages
                ≡ (deliver e d (get_by_id d.order_id s.rows) (prepare e d s)).messages))
  unfolding hydrate drop_pre_active_taker_take untrack_chats
  hydrate-messages s = ground (arith, prepare-messages s)

  hydrate-Change : (s : State) → Change s.messages (hydrate e d s).messages
  hydrate-Change s =
      let D : Change s.messages
          (deliver e d (get_by_id d.order_id s.rows) (prepare e d s)).messages =
        subst (λ ms. Change ms (deliver e d (get_by_id d.order_id s.rows) (prepare e d s)).messages)
          (prepare-messages s) (deliver-Change (get_by_id d.order_id s.rows) (prepare e d s)) in
      elim (hydrate-messages s) [
        | inl q ↦ inl q
        | inr (inl q) ↦ inr (inl q)
        | inr (inr q) ↦ subst (Change s.messages) (sym q) D
      ]

  -- `save_order` never fails, so the handler goes on only where nothing was done.
  pub range-done :
      (o : SmallOrder) (s : State) → (persist_range_child_listing_from_new_order e d o s).1 ≡ true
  unfolding persist_range_child_listing_from_new_order save_order
  range-done o s = ground arith

  pub try-again :
      (s : State)
      → (try_handle_new_order_trade_dm e d s).1 ≡ false
      → (try_handle_new_order_trade_dm e d s).0 ≡ s
  unfolding try_handle_new_order_trade_dm
  try-again s h =
      elim (Option-cases (small_order_pending_from_new_order_payload d.message.payload)) [
        | inl q ↦ ground (arith, q)
        | inr (o, q) ↦ ground (arith, q, range-done o s)
      ]

  try-messages :
      (s : State)
      → ((try_handle_new_order_trade_dm e d s).0.messages ≡ s.messages)
        ⊎ ((try_handle_new_order_trade_dm e d s).0.messages
            ≡ remove_order_from_messages d.order_id s.messages)
  unfolding try_handle_new_order_trade_dm drop_pre_active_taker_take
      revert_maker_to_pending_on_book_republish persist_range_child_listing_from_new_order
      untrack_chats upsert_order_from_trade_dm
  try-messages s = ground arith

  pub handle-try :
      (s : State)
      → (handle_trade_dm_for_order e d s ≡ (try_handle_new_order_trade_dm e d s).0)
        ⊎ (handle_trade_dm_for_order e d s ≡ hydrate e d s)
  unfolding handle_trade_dm_for_order
  handle-try s = elim (Bool-cases (same Action-discrete d.message.action Action.new_order)) [
    | inr q ↦ inr (rw q refl)
    | inl q ↦ elim (Bool-cases ((try_handle_new_order_trade_dm e d s).1)) [
      | inl t ↦ inl (rw (q, t) refl)
      | inr t ↦ inr (rw (q, t, try-again s t) refl)
    ]
  ]

  pub handle-Change : (s : State) → Change s.messages (handle_trade_dm_for_order e d s).messages
  handle-Change s = elim (handle-try s) [
    | inr q ↦ rw q (hydrate-Change s)
    | inl q ↦ rw q (elim (try-messages s) [ inl k ↦ inl k | inr k ↦ inr (inl k) ])
  ]

  Change-WellFormed : (ms ms' : List OrderMessage) → Change ms ms' → WellFormed ms → WellFormed ms'
  Change-WellFormed ms ms' (inl q) w = rw q w
  Change-WellFormed ms ms' (inr (inl q)) w = rw q (WellFormed-remove d.order_id ms w)
  Change-WellFormed ms ms' (inr (inr (m, k, q))) w = rw q (WellFormed-replace d.order_id m ms k w)

  -- Every call, on every branch, keeps the Messages tab newest first with at most one row for each
  -- order.
  pub handle-WellFormed :
      (s : State) → WellFormed s.messages → WellFormed (handle_trade_dm_for_order e d s).messages
  handle-WellFormed s w =
      Change-WellFormed s.messages (handle_trade_dm_for_order e d s).messages (handle-Change s) w
