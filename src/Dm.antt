-- ===== src/Dm.antt =====
-- util/dm_utils/mod.rs: what a decoded trade DM does to the table, the Messages rows, the counters
-- and the command channels. The handler is in `Dm.Handler`, one batch in `Dm.Batch`.
pub mod Terminal
pub mod NewOrder
pub mod Effects
pub mod Judge
pub mod Handler
pub mod Batch
pub mod Rows
pub mod Tab
pub mod Table
pub mod StatusWrites
pub mod Progress
pub mod Outcome
pub mod Counters
pub mod Dedupe
pub mod Stale
pub mod Core
pub mod Ownership
use mostrix.Prelude.{
  ℕ, suc, ◌+◌, ℤ, String, Bool, true, false, not, ◌&&◌, Option, none, some, List, [], ◌∷◌, ◌++◌,
  is_some_and, ◌==◌, ltb, leb, if◌then◌else◌, retain, ℕ_discrete,
}
use mostrix.Protocol.{Uuid, PublicKey, Keys, Message}
use mostrix.Messages.{OrderMessage, MessageNotification}
use mostrix.Db.{Env, Order, get_by_id, delete_order_by_id}

-- The two parties of an admin's dispute chats.
pub data ChatParty : Type 0 where
  buyer seller : ChatParty

-- chat_listener.rs `ChatKeyId`
pub data ChatKeyId : Type 0 where
  order user_dispute : Uuid → ChatKeyId
  dispute : Uuid → ChatParty → ChatKeyId

unfoldable pub ChatKeyId-discrete : Discrete ChatKeyId
ChatKeyId-discrete = hlevel ℕ_discrete

-- chat_listener.rs `ChatRouterCmd`
pub data ChatRouterCmd : Type 0 where
  track_chat_key : ChatKeyId → String → Option PublicKey → List PublicKey → Option ℕ → ChatRouterCmd
  untrack_chat_key : ChatKeyId → ChatRouterCmd

-- The router's `TrackOrder` command, and the notice that the maker book changed.
pub data Notice : Type 0 where
  track_order : Uuid → ℤ → Notice
  maker_book_changed : Notice

-- The shared state that the handler reads and writes, with what it has sent, newest last.
pub record State : Type 0 where
  pub rows : List Order
  pub messages : List OrderMessage
  pub pending_notifications : ℕ
  pub notifications : List MessageNotification
  pub chat_cmds : List ChatRouterCmd
  pub notices : List Notice

-- One call of the handler.
pub record Dm : Type 0 where
  pub order_id : Uuid
  pub trade_index : ℤ
  pub message : Message
  pub timestamp : ℕ
  pub sender : PublicKey
  pub trade_keys : Keys
  pub notify : Bool

-- `m.order_id == Some(order_id)`
abbrev pub is_row_of : Uuid → OrderMessage → Bool
is_row_of i m = is_some_and m.order_id (λ o. o == i)

unfoldable pub remove_order_from_messages : Uuid → List OrderMessage → List OrderMessage
remove_order_from_messages i ms = retain (λ m. not (is_row_of i m)) ms

abbrev pub send_chat : State → ChatRouterCmd → State
send_chat s c = record s { chat_cmds = s.chat_cmds ++ c ∷ [] }

-- `untrack_order_chat` and `untrack_user_dispute_chat`, as they are always called together.
unfoldable pub untrack_chats : Uuid → State → State
untrack_chats i s =
    send_chat (send_chat s (untrack_chat_key (ChatKeyId.order i)))
      (untrack_chat_key (user_dispute i))

abbrev pub send_notice : State → Notice → State
send_notice s n = record s { notices = s.notices ++ n ∷ [] }

-- Rows newest first: `sort_by_key(Reverse(timestamp))` is stable.
insert_row : OrderMessage → List OrderMessage → List OrderMessage
insert_row m [] = m ∷ []
insert_row m (x ∷ xs) =
    let rest = insert_row m xs in if ltb m.timestamp x.timestamp then x ∷ rest else m ∷ x ∷ xs

unfoldable pub sort_rows : List OrderMessage → List OrderMessage
unfolding insert_row
sort_rows [] = []
sort_rows (m ∷ ms) = insert_row m (sort_rows ms)

-- `retain`, `push`, `sort_by_key`: the row of an order is replaced.
unfoldable pub replace_row : Uuid → OrderMessage → List OrderMessage → List OrderMessage
unfolding sort_rows
replace_row i m ms = sort_rows (remove_order_from_messages i ms ++ m ∷ [])

-- `filter(order_id).max_by_key(timestamp)`, which keeps the later of two equal rows.
unfoldable pub newest_row : Uuid → Option OrderMessage → List OrderMessage → Option OrderMessage
newest_row i best [] = best
newest_row i none (m ∷ ms) = newest_row i (if is_row_of i m then some m else none) ms
newest_row i (some b) (m ∷ ms) =
    newest_row i (if is_row_of i m && leb b.timestamp m.timestamp then some m else some b) ms
