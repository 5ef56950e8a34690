-- ===== src/Dm/Table.antt =====
-- util/dm_utils/mod.rs: `handle_trade_dm_for_order` on the `orders` table: the rows of other orders.
use mostrix.Prelude.{
  ℕ, ℤ, String, ◌≡◌, ◌≢◌, refl, ap, ◌∙◌, Bool, true, Option, none, some, List, arith, Bool-cases,
  Option-cases, inl, inr, ◌⊎◌, same, and_then, unwrap_or, if◌then◌else◌,
}
use mostrix.Protocol.{Uuid, Keys, Action, Action-discrete, Status, SmallOrder}
use mostrix.Messages.{OrderMessage}
use mostrix.Db.{Env, Order, get_by_id, update_status, update_dispute_id, update_solver_chat}
use mostrix.Db.Rows.{save_order, new_order_row}
use mostrix.Db.Frame.{get_by_id-update_ne, get_by_id-delete_ne, get_by_id-insert_ne}
use mostrix.Db.Upsert.{upsert-frame}
use mostrix.Dm.{State, Dm, newest_row, untrack_chats}
use mostrix.Dm.Effects.{
  try_i64, order_to_persist, upsert_order_from_trade_dm, persist_dispute_id, persist_solver_chat,
  maybe_track_order_chat, drop_pre_active_taker_take,
}
use mostrix.Dm.NewOrder.{
  small_order_pending_from_new_order_payload, try_handle_new_order_trade_dm,
  revert_maker_to_pending_on_book_republish, persist_range_child_listing_from_new_order,
}
use mostrix.Dm.Handler.{deliver, prepare, hydrate, handle_trade_dm_for_order}
use mostrix.Dm.Judge.{write_status}
use mostrix.Dm.Tab.{handle-try}

module _ (i j : Uuid) (h : i ≢ j) (rows : List Order) where
  status-frame : (s : Status) → get_by_id j (update_status i s rows) ≡ get_by_id j rows
  unfolding update_status
  status-frame s = get_by_id-update_ne i (λ r. record r { status = some s }) (λ r k. k) j rows h

  dispute-frame : (x : Uuid) → get_by_id j (update_dispute_id i x rows) ≡ get_by_id j rows
  unfolding update_dispute_id
  dispute-frame x =
      get_by_id-update_ne i (λ r. record r { dispute_id = some x }) (λ r k. k) j rows h

  solver-frame : (x y : String) → get_by_id j (update_solver_chat i x y rows) ≡ get_by_id j rows
  unfolding update_solver_chat
  solver-frame x y =
      get_by_id-update_ne i
        (λ r. record r { solver_pubkey = some x; dispute_chat_shared_key_hex = some y }) (λ r k. k)
        j rows h

module _ (e : Env) (d : Dm) where
  pub track-rows : (s : State) → (maybe_track_order_chat e d s).rows ≡ s.rows
  unfolding maybe_track_order_chat
  track-rows s = ground arith

  pub deliver-rows :
      (row : Option Order) (s : State)
      → (deliver e d row s).rows ≡ write_status d (newest_row d.order_id none s.messages) row s.rows
  unfolding deliver
  deliver-rows row s = ground arith

  pub hydrate-cases :
      (s : State)
      → (hydrate e d s ≡ drop_pre_active_taker_take d.order_id s)
        ⊎ ((hydrate e d s ≡ prepare e d s)
            ⊎ (hydrate e d s ≡ deliver e d (get_by_id d.order_id s.rows) (prepare e d s)))
  unfolding hydrate
  hydrate-cases s = ground arith

module _ (e : Env) (d : Dm) (j : Uuid) (h : d.order_id ≢ j) where
  upsert_dm-frame :
      (s : State) → get_by_id j (upsert_order_from_trade_dm e d s).rows ≡ get_by_id j s.rows
  unfolding upsert_order_from_trade_dm
  upsert_dm-frame s = elim (Option-cases (order_to_persist d.message.action d.message.payload)) [
    | inl q ↦ ground (arith, q)
    | inr (o, q) ↦ ground (
      arith,
      q,
      upsert-frame e d.order_id o d.trade_keys (and_then d.message.request_id try_i64) j s.rows h,
    )
  ]

  dispute_dm-frame : (s : State) → get_by_id j (persist_dispute_id d s).rows ≡ get_by_id j s.rows
  unfolding persist_dispute_id
  dispute_dm-frame s = grind (arith, dispute-frame d.order_id j h s.rows)

  solver_dm-frame : (s : State) → get_by_id j (persist_solver_chat e d s).rows ≡ get_by_id j s.rows
  unfolding persist_solver_chat
  solver_dm-frame s = grind (arith, solver-frame d.order_id j h s.rows)

  prepare-frame : (s : State) → get_by_id j (prepare e d s).rows ≡ get_by_id j s.rows
  unfolding prepare
  prepare-frame s =
      let t : State =
        if same Action-discrete d.message.action Action.cant_do
        then s
        else upsert_order_from_trade_dm e d s in
      let first : get_by_id j t.rows ≡ get_by_id j s.rows =
        elim (Bool-cases (same Action-discrete d.message.action Action.cant_do)) [
          | inl q ↦ rw q refl
          | inr q ↦ rw q (upsert_dm-frame s)
        ] in
      ap (get_by_id j) (track-rows e d (persist_solver_chat e d (persist_dispute_id d t)))
      ∙ (solver_dm-frame (persist_dispute_id d t) ∙ (dispute_dm-frame t ∙ first))

  write-frame :
      (prior : Option OrderMessage) (row : Option Order) (rows : List Order)
      → get_by_id j (write_status d prior row rows) ≡ get_by_id j rows
  unfolding write_status
  write-frame prior row rows = grind (arith, status-frame d.order_id j h rows)

  drop-frame :
      (s : State) → get_by_id j (drop_pre_active_taker_take d.order_id s).rows ≡ get_by_id j s.rows
  unfolding drop_pre_active_taker_take untrack_chats
  drop-frame s = get_by_id-delete_ne d.order_id j s.rows h

  deliver-frame :
      (row : Option Order) (s : State) → get_by_id j (deliver e d row s).rows ≡ get_by_id j s.rows
  deliver-frame row s =
      ap (get_by_id j) (deliver-rows e d row s)
      ∙ write-frame (newest_row d.order_id none s.messages) row s.rows

  hydrate-frame : (s : State) → get_by_id j (hydrate e d s).rows ≡ get_by_id j s.rows
  hydrate-frame s = elim (hydrate-cases e d s) [
    | inl q ↦ rw q (drop-frame s)
    | inr (inl q) ↦ rw q (prepare-frame s)
    | inr (inr q) ↦
        rw q (deliver-frame (get_by_id d.order_id s.rows) (prepare e d s) ∙ prepare-frame s)
  ]

  revert-frame :
      (s : State)
      → get_by_id j (revert_maker_to_pending_on_book_republish e d s).rows ≡ get_by_id j s.rows
  unfolding revert_maker_to_pending_on_book_republish untrack_chats
  revert-frame s =
      status-frame d.order_id j h (upsert_order_from_trade_dm e d s).rows Status.pending
      ∙ upsert_dm-frame s

  save-frame :
      (o : SmallOrder) (keys : Keys) (rid : ℕ) (x : ℤ) (mine : Bool) (rows : List Order)
      → unwrap_or o.id e.new_uuid ≢ j
      → get_by_id j (save_order e o keys rid x mine rows).0 ≡ get_by_id j rows
  unfolding save_order new_order_row
  save-frame o keys rid x mine rows k = grind (arith, get_by_id-insert_ne, k)

  range-frame :
      (o : SmallOrder) (s : State)
      → unwrap_or o.id e.new_uuid ≢ j
      → get_by_id j (persist_range_child_listing_from_new_order e d o s).0.rows ≡ get_by_id j s.rows
  unfolding persist_range_child_listing_from_new_order
  range-frame o s k = ground (
    arith,
    save-frame o d.trade_keys (unwrap_or d.message.request_id 0) d.trade_index true s.rows k,
  )

  try-frame :
      (s : State)
      → ((o : SmallOrder)
          → small_order_pending_from_new_order_payload d.message.payload ≡ some o
          → unwrap_or o.id e.new_uuid ≢ j)
      → get_by_id j (try_handle_new_order_trade_dm e d s).0.rows ≡ get_by_id j s.rows
  unfolding try_handle_new_order_trade_dm
  try-frame s k =
      elim (Option-cases (small_order_pending_from_new_order_payload d.message.payload)) [
        | inl q ↦ ground (arith, q)
        | inr (o, q) ↦ ground (arith, q, range-frame o s (k o q), drop-frame s, revert-frame s)
      ]

  -- A call leaves the row of another order as it is, unless that row's id is the one in a pending
  -- `NewOrder` payload, or the fresh id that such a payload is given if it has none.
  pub handle-frame :
      (s : State)
      → ((o : SmallOrder)
          → small_order_pending_from_new_order_payload d.message.payload ≡ some o
          → unwrap_or o.id e.new_uuid ≢ j)
      → get_by_id j (handle_trade_dm_for_order e d s).rows ≡ get_by_id j s.rows
  handle-frame s k = elim (handle-try e d s) [
    | inl q ↦ rw q (try-frame s k)
    | inr q ↦ rw q (hydrate-frame s)
  ]
