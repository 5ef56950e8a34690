-- ===== src/Dm/Effects.antt =====
-- util/dm_utils/mod.rs and util/chat_listener.rs: the table writes and chat commands of one trade DM,
-- before the row of the Messages tab is built.
use mostrix.Prelude.{
  ℕ, ℤ, pos, String, Option, none, some, List, [], ◌∷◌, or, and_then, ◌==◌, ltb, ◌^◌, if◌then◌else◌,
}
use mostrix.Protocol.{Uuid, PublicKey, Action, Payload, SmallOrder}
use mostrix.Db.{Env, get_by_id, update_dispute_id, update_solver_chat, delete_order_by_id}
use mostrix.Db.Rows.{derive_shared_key_hex, upsert_from_small_order_dm}
use mostrix.Dm.{
  State, Dm, ChatKeyId, user_dispute, track_chat_key, send_chat, untrack_chats,
  remove_order_from_messages,
}

-- The payloads from which `upsert_order_from_trade_dm` refreshes the local row.
abbrev pub order_to_persist : Action → Option Payload → Option SmallOrder
order_to_persist Action.add_invoice (some (Payload.order o)) = some o
order_to_persist Action.pay_invoice (some (Payload.payment_request o invoice amount)) = o
order_to_persist Action.pay_bond_invoice (some (Payload.payment_request o invoice amount)) = o
order_to_persist Action.buyer_took_order (some (Payload.order o)) = some o
order_to_persist Action.hold_invoice_payment_accepted (some (Payload.order o)) = some o
order_to_persist Action.add_bond_invoice (some (Payload.bond_payout_request o slashed_at)) = some o
order_to_persist Action.new_order (some (Payload.order o)) = some o
order_to_persist _ _ = none

-- `i64::try_from(u).ok()`
abbrev pub try_i64 : ℕ → Option ℤ
try_i64 u = if ltb u (2 ^ 63) then some (pos u) else none

abbrev pub opened_dispute : Action → Option Payload → Option Uuid
opened_dispute Action.dispute_initiated_by_you (some (Payload.dispute id)) = some id
opened_dispute Action.dispute_initiated_by_peer (some (Payload.dispute id)) = some id
opened_dispute _ _ = none

unfoldable pub persist_dispute_id : Dm → State → State
persist_dispute_id d s = elim (opened_dispute d.message.action d.message.payload) [
  | none ↦ s
  | some id ↦ record s { rows = update_dispute_id d.order_id id s.rows }
]

module _ (e : Env) where
  open e use {public_key, parse_pubkey, order_chat_since, dispute_chat_since}

  unfoldable pub upsert_order_from_trade_dm : Dm → State → State
  upsert_order_from_trade_dm d s = elim (order_to_persist d.message.action d.message.payload) [
    | none ↦ s
    | some o ↦ record s {
      rows =
          upsert_from_small_order_dm e d.order_id o d.trade_keys
            (and_then d.message.request_id try_i64) s.rows;
    }
  ]

  abbrev pub solver_of : Action → Option Payload → Option String
  solver_of Action.admin_took_dispute (some (Payload.peer pubkey reputation)) = some pubkey
  solver_of _ _ = none

  abbrev track_solver : Dm → String → State → Option PublicKey → Option String → State
  track_solver d peer s (some solver) (some hex) =
      send_chat (record s { rows = update_solver_chat d.order_id peer hex s.rows })
        (track_chat_key (user_dispute d.order_id) hex (some (public_key d.trade_keys))
          (public_key d.trade_keys ∷ solver ∷ []) (dispute_chat_since d.order_id))
  track_solver d peer s _ _ = s

  unfoldable pub persist_solver_chat : Dm → State → State
  persist_solver_chat d s = elim (solver_of d.message.action d.message.payload) [
    | none ↦ s
    | some peer ↦
        track_solver d peer s (parse_pubkey peer) (derive_shared_key_hex e d.trade_keys (some peer))
  ]

  -- chat_utils.rs `order_chat_allowed_signers`
  unfoldable pub order_chat_allowed_signers : PublicKey → Option String → Option (List PublicKey)
  order_chat_allowed_signers local counterparty =
      and_then (and_then counterparty parse_pubkey)
        λ cp. if cp == local then none else some (local ∷ cp ∷ [])

  abbrev track_order_chat : Dm → State → Option (List PublicKey) → Option String → State
  track_order_chat d s (some allowed) (some hex) = send_chat s (
      track_chat_key (ChatKeyId.order d.order_id) hex (some (public_key d.trade_keys)) allowed
        (order_chat_since d.order_id))
  track_order_chat d s _ _ = s

  -- chat_listener.rs `maybe_track_order_chat`
  unfoldable pub maybe_track_order_chat : Dm → State → State
  maybe_track_order_chat d s = elim (get_by_id d.order_id s.rows) [
    | none ↦ s
    | some row ↦
        track_order_chat d s
          (order_chat_allowed_signers (public_key d.trade_keys) row.counterparty_pubkey)
          (or row.order_chat_shared_key_hex
            (derive_shared_key_hex e d.trade_keys row.counterparty_pubkey))
  ]

-- `drop_pre_active_taker_take`
unfoldable pub drop_pre_active_taker_take : Uuid → State → State
drop_pre_active_taker_take i s = untrack_chats i (record s {
  rows = delete_order_by_id i s.rows;
  messages = remove_order_from_messages i s.messages;
})
