-- ===== src/Dm/Counters.antt =====
-- util/dm_utils/mod.rs: when `handle_trade_dm_for_order` raises the unread counter and notifies.
use mostrix.Prelude.{
  ℕ, suc, ◌≡◌, refl, ap, ◌∙◌, Bool, true, false, ◌&&◌, Option, none, List, [], ◌∷◌, ◌++◌, arith,
  Bool-cases, inl, inr, ◌⊎◌,
}
use mostrix.Messages.{MessageNotification}
use mostrix.Messages.Notification.{order_message_to_notification}
use mostrix.Db.{Env, Order, get_by_id}
use mostrix.Dm.{State, Dm, newest_row, untrack_chats}
use mostrix.Dm.Effects.{
  upsert_order_from_trade_dm, persist_dispute_id, persist_solver_chat, maybe_track_order_chat,
  drop_pre_active_taker_take,
}
use mostrix.Dm.NewOrder.{
  try_handle_new_order_trade_dm, revert_maker_to_pending_on_book_republish,
  persist_range_child_listing_from_new_order,
}
use mostrix.Dm.Handler.{prepare, deliver, handle_trade_dm_for_order}
use mostrix.Dm.Judge.{is_new_message, is_actionable_notification, order_message}
use mostrix.Dm.Tab.{handle-try}
use mostrix.Dm.Table.{hydrate-cases}

-- What a user is told: the unread counter and the notifications.
abbrev pub Bell : Type 0
Bell = ℕ × List MessageNotification

abbrev pub bell : State → Bell
bell s = (s.pending_notifications, s.notifications)

-- The counter and the notifications go together.
abbrev pub Ring : Bell → Bell → Type 0
Ring a b = (b ≡ a) ⊎ ((n : MessageNotification) × (b ≡ (suc a.0, a.1 ++ n ∷ [])))

module _ (e : Env) (d : Dm) where
  try-bell : (s : State) → bell (try_handle_new_order_trade_dm e d s).0 ≡ bell s
  unfolding try_handle_new_order_trade_dm drop_pre_active_taker_take
      revert_maker_to_pending_on_book_republish persist_range_child_listing_from_new_order
      untrack_chats upsert_order_from_trade_dm
  try-bell s = ground arith

  prepare-bell : (s : State) → bell (prepare e d s) ≡ bell s
  unfolding prepare upsert_order_from_trade_dm persist_dispute_id persist_solver_chat
      maybe_track_order_chat
  prepare-bell s = ground arith

  drop-bell : (s : State) → bell (drop_pre_active_taker_take d.order_id s) ≡ bell s
  unfolding drop_pre_active_taker_take untrack_chats
  drop-bell s = refl

  -- Where the counter is raised.
  abbrev pub rings : Option Order → State → Bool
  rings row s =
      d.notify
      && (is_new_message d (newest_row d.order_id none s.messages) row
          && is_actionable_notification d.message)

  deliver-silent :
      (row : Option Order) (s : State) → rings row s ≡ false → bell (deliver e d row s) ≡ bell s
  unfolding deliver
  deliver-silent row s h = ground (arith, h)

  deliver-rings :
      (row : Option Order) (s : State)
      → rings row s ≡ true
      → (n : MessageNotification) × (bell (deliver e d row s)
          ≡ (suc s.pending_notifications, s.notifications ++ n ∷ []))
  unfolding deliver
  deliver-rings row s h = (
    order_message_to_notification e.format_local_timestamp
        (order_message d (newest_row d.order_id none s.messages) row (get_by_id d.order_id s.rows)),
    ground (arith, h),
  )

  -- Either nothing is told, or the handler has written the row and the message rings.
  handle-bell :
      (s : State)
      → (bell (handle_trade_dm_for_order e d s) ≡ bell s)
        ⊎ (handle_trade_dm_for_order e d s
            ≡ deliver e d (get_by_id d.order_id s.rows) (prepare e d s))
  handle-bell s = elim (handle-try e d s) [
    | inl q ↦ inl (ap bell q ∙ try-bell s)
    | inr q ↦ elim (hydrate-cases e d s) [
      | inl r ↦ inl (ap bell (q ∙ r) ∙ drop-bell s)
      | inr (inl r) ↦ inl (ap bell (q ∙ r) ∙ prepare-bell s)
      | inr (inr r) ↦ inr (q ∙ r)
    ]
  ]

  -- A call raises the unread counter exactly when it sends a notification, by one and one.
  pub handle-Ring : (s : State) → Ring (bell s) (bell (handle_trade_dm_for_order e d s))
  handle-Ring s = elim (handle-bell s) [
    | inl q ↦ inl q
    | inr q ↦ elim (Bool-cases (rings (get_by_id d.order_id s.rows) (prepare e d s))) [
      | inr a ↦ inl (
          ap bell q
          ∙ (deliver-silent (get_by_id d.order_id s.rows) (prepare e d s) a ∙ prepare-bell s))
      | inl a ↦
          let x = deliver-rings (get_by_id d.order_id s.rows) (prepare e d s) a in
          inr (x.0, ap bell q ∙ (x.1 ∙ ap (λ b. (suc b.0, b.1 ++ x.0 ∷ [])) (prepare-bell s)))
    ]
  ]
