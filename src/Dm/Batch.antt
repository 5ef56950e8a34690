-- ===== src/Dm/Batch.antt =====
-- util/dm_utils/mod.rs: `dispatch_giftwrap_batch`, the parsed messages of one event for one order, and
-- what a terminal message clears in the listener. A poisoned lock is not modelled.
pub mod Laws
use mostrix.Prelude.{
  ℕ, ℤ, ◌==◌, Bool, true, false, not, Option, none, some, List, [], ◌∷◌, ◌++◌, if◌then◌else◌,
  retain, any,
}
use mostrix.Protocol.{Uuid, PublicKey, Keys, Message}
use mostrix.Db.{Env, update_last_seen_dm_ts}
use mostrix.Dm.{State, Dm, untrack_chats}
use mostrix.Dm.Terminal.{trade_message_is_terminal, trade_message_should_untrack_order_chat}
use mostrix.Dm.Handler.{handle_trade_dm_for_order}

abbrev pub SubscriptionId : Type 0
SubscriptionId = ℕ

pub data GiftWrapTerminalPolicy : Type 0 where
  tracked_subscription : SubscriptionId → GiftWrapTerminalPolicy
  untracked_fallback : GiftWrapTerminalPolicy

-- The listener's tables; `unsubscribed` holds the ids sent to the client, newest last.
pub record Listener : Type 0 where
  pub state : State
  pub active_order_trade_indices : List (Uuid × ℤ)
  pub subscribed_pubkeys : List PublicKey
  pub subscription_to_order : List (SubscriptionId × (Uuid × ℤ))
  pub registered : List SubscriptionId
  pub unsubscribed : List SubscriptionId

-- What is the same for every message of a batch; `trade_pubkey` is `user.derive_trade_keys` of the
-- trade index.
pub record Batch : Type 0 where
  pub order_id : Uuid
  pub trade_index : ℤ
  pub trade_keys : Keys
  pub trade_pubkey : Option PublicKey
  pub notify : Bool
  pub terminal_policy : GiftWrapTerminalPolicy

abbrev pub Parsed : Type 0
Parsed = Message × ℕ × PublicKey

abbrev pub dm_of : Batch → Parsed → Dm
dm_of b (message, timestamp, sender) = record {
  order_id = b.order_id;
  trade_index = b.trade_index;
  message = message;
  timestamp = timestamp;
  sender = sender;
  trade_keys = b.trade_keys;
  notify = b.notify;
}

-- `indices.remove` and `subscribed_pubkeys.remove`, which both policies do.
unfoldable pub forget_order : Batch → Listener → Listener
forget_order b l = record l {
  active_order_trade_indices = retain (λ x. not (x.0 == b.order_id)) l.active_order_trade_indices;
  subscribed_pubkeys = elim b.trade_pubkey [
    | none ↦ l.subscribed_pubkeys
    | some key ↦ retain (λ k. not (k == key)) l.subscribed_pubkeys
  ];
}

unfoldable pub drop_subscription : SubscriptionId → Listener → Listener
drop_subscription id l = record l {
  subscription_to_order = retain (λ x. not (x.0 == id)) l.subscription_to_order;
  registered = retain (λ x. not (x == id)) l.registered;
  unsubscribed = l.unsubscribed ++ id ∷ [];
}

module _ (e : Env) (b : Batch) where
  -- One message, before the terminal clean-up.
  unfoldable pub handle_parsed : Parsed → State → State
  handle_parsed p s =
      let t = handle_trade_dm_for_order e (dm_of b p) s in
      let u = record t { rows = update_last_seen_dm_ts b.order_id p.1 t.rows } in
      if trade_message_should_untrack_order_chat p.0 then untrack_chats b.order_id u else u

  -- The loop over the batch; a terminal message ends it on a tracked subscription.
  unfoldable pub run_batch : List Parsed → Listener → Listener
  unfolding handle_parsed
  run_batch [] l = l
  run_batch (p ∷ ps) l =
      let rest = run_batch ps in
      let handled = record l { state = handle_parsed p l.state } in
      if trade_message_is_terminal p.0
      then elim b.terminal_policy [
        | tracked_subscription id ↦ drop_subscription id (forget_order b handled)
        | untracked_fallback ↦ rest (forget_order b handled)
      ]
      else rest handled

  unfoldable pub dispatch_giftwrap_batch : List Uuid → List Parsed → Listener → Listener
  unfolding run_batch
  dispatch_giftwrap_batch dropped ps l =
      if any (λ i. i == b.order_id) dropped then l else run_batch ps l
