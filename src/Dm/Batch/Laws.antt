-- ===== src/Dm/Batch/Laws.antt =====
-- util/dm_utils/mod.rs: what a batch leaves in the listener and how far it reads.
use mostrix.Prelude.{
  ℤ, ◌==◌, ◌≡◌, ap, ◌∙◌, refl, Bool, true, false, not, none, some, List, [], ◌∷◌, retain, any,
  arith, Bool-cases, inl, inr, ◌⊎◌,
}
use mostrix.Protocol.{Uuid}
use mathlib.Core.Option
use mostrix.Db.{Env, Order, get_by_id, update_last_seen_dm_ts, later}
use mostrix.Db.Frame.{get_by_id-update_self}
use mostrix.Dm.Handler.{handle_trade_dm_for_order}
use mostrix.Dm.Ownership.{handle-ownership}
use mostrix.Dm.{State, untrack_chats}
use mostrix.Dm.Terminal.{trade_message_is_terminal}
use mostrix.Dm.Batch.{
  Listener, Batch, GiftWrapTerminalPolicy, dm_of, Parsed, SubscriptionId, tracked_subscription,
  untracked_fallback, handle_parsed, run_batch, forget_order, drop_subscription,
}

abbrev is_terminal : Parsed → Bool
is_terminal p = trade_message_is_terminal p.0

abbrev pub knows : Uuid → Listener → Bool
knows i l = any (λ x. x.0 == i) l.active_order_trade_indices

forget-knows : (b : Batch) (l : Listener) → knows b.order_id (forget_order b l) ≡ false
unfolding forget_order
forget-knows b l = go l.active_order_trade_indices
  where
    go :
        (xs : List (Uuid × ℤ))
        → any (λ x. x.0 == b.order_id) (retain (λ x. not (x.0 == b.order_id)) xs) ≡ false
    go [] = refl
    go (x ∷ xs) = ground (arith, go xs)

policy-cases :
    (b : Batch)
    → (b.terminal_policy ≡ untracked_fallback)
      ⊎ ((id : SubscriptionId) × (b.terminal_policy ≡ tracked_subscription id))
policy-cases b = go b.terminal_policy
  where
    go :
        (p : GiftWrapTerminalPolicy)
        → (p ≡ untracked_fallback) ⊎ ((id : SubscriptionId) × (p ≡ tracked_subscription id))
    go (tracked_subscription id) = inr (id, refl)
    go untracked_fallback = inl refl

module _ (e : Env) (b : Batch) where
  drop-knows :
      (id : SubscriptionId) (l : Listener)
      → knows b.order_id (drop_subscription id (forget_order b l)) ≡ false
  unfolding drop_subscription
  drop-knows id l = forget-knows b l

  run-unknown :
      (ps : List Parsed) (l : Listener)
      → knows b.order_id l ≡ false
      → knows b.order_id (run_batch e b ps l) ≡ false
  unfolding run_batch
  run-unknown [] l h = h
  run-unknown (x ∷ xs) l h =
      let handled = record l { state = handle_parsed e b x l.state } in
      elim (Bool-cases (is_terminal x)) [
        | inr a ↦ rw a (run-unknown xs handled h)
        | inl a ↦ elim (policy-cases b) [
          | inl q ↦ rw (a, q) (run-unknown xs (forget_order b handled) (forget-knows b handled))
          | inr (id, q) ↦ rw (a, q) (drop-knows id handled)
        ]
      ]

  -- After a terminal message, wherever it stands in the batch, the order is no longer among the
  -- active ones.
  pub terminal_forgets :
      (ps : List Parsed) (l : Listener)
      → any is_terminal ps ≡ true
      → knows b.order_id (run_batch e b ps l) ≡ false
  unfolding run_batch
  terminal_forgets [] l h = ground (arith, h)
  terminal_forgets (x ∷ xs) l h =
      let handled = record l { state = handle_parsed e b x l.state } in
      elim (Bool-cases (is_terminal x)) [
        | inr a ↦ rw a (terminal_forgets xs handled (ground (arith, h, a)))
        | inl a ↦ elim (policy-cases b) [
          | inl q ↦ rw (a, q) (run-unknown xs (forget_order b handled) (forget-knows b handled))
          | inr (id, q) ↦ rw (a, q) (drop-knows id handled)
        ]
      ]

  handle_parsed-rows :
      (p : Parsed) (s : State)
      → (handle_parsed e b p s).rows
        ≡ update_last_seen_dm_ts b.order_id p.1 (handle_trade_dm_for_order e (dm_of b p) s).rows
  unfolding handle_parsed untrack_chats
  handle_parsed-rows p s = ground arith

  -- The cursor of the order's row after a message, if the row outlives it, is the later of the old
  -- cursor and the message's timestamp; its trade keys, role and trade index are the old ones.
  pub handle_parsed-cursor :
      (p : Parsed) (s : State) (r : Order)
      → get_by_id b.order_id s.rows ≡ some r
      → (get_by_id b.order_id (handle_parsed e b p s).rows ≡ none)
        ⊎ ((r' : Order) × (get_by_id b.order_id (handle_parsed e b p s).rows ≡ some r')
            × (r'.last_seen_dm_ts ≡ later r.last_seen_dm_ts p.1)
            × (r'.trade_keys ≡ r.trade_keys)
            × (r'.is_mine ≡ r.is_mine)
            × (r'.trade_index ≡ r.trade_index))
  unfolding update_last_seen_dm_ts
  handle_parsed-cursor p s r h =
      let t = handle_trade_dm_for_order e (dm_of b p) s in
      let f : Order → Order = λ r. record r { last_seen_dm_ts = later r.last_seen_dm_ts p.1 } in
      let q =
        ap (get_by_id b.order_id) (handle_parsed-rows p s)
        ∙ get_by_id-update_self b.order_id f (λ r k. k) t.rows in
      elim (handle-ownership e (dm_of b p) r s h) [
        | inl n ↦ inl (q ∙ ap (Option.map f) n)
        | inr (r', n, k) ↦ inr (
          f r',
          q ∙ ap (Option.map f) n,
          ap (λ x. later x p.1) k.last_seen_dm_ts,
          k.trade_keys,
          k.is_mine,
          k.trade_index,
        )
      ]
