-- ===== src/Ui/Sidebar.antt =====
-- ui/helpers/order_chat_projection.rs: the rows of My Trades, built from the Messages rows and the maker's
-- own listings. Ids compare as their fixed-width texts do. A `HashMap` is a list here, in the order in
-- which it is iterated.
pub mod Ids
pub mod Sorted
use mostrix.Prelude.{
  ℤ, ltz, String, Bool, true, false, not, Option, none, some, List, [], ◌∷◌, ◌++◌, any, retain,
  is_some, is_some_and, or, str_eq, ltb, ◌==◌, if◌then◌else◌,
}
use mostrix.Protocol.{Uuid, Status, Action, Payload, SmallOrder}
use mostrix.Messages.{OrderMessage}
use mostrix.Db.{Order}

-- A reputation (`UserInfo`) is its JSON text.
pub record OrderChatListItem : Type 0 where
  pub order_id : Uuid
  pub status : Option Status
  pub amount : Option ℤ
  pub fiat : Option (ℤ × String)
  pub trade_index : Option ℤ
  pub payment_method : Option String
  pub premium : Option ℤ
  pub buyer_trade_pubkey : Option String
  pub seller_trade_pubkey : Option String
  pub buyer_reputation : Option String
  pub seller_reputation : Option String
  pub solver_pubkey : Option String
  pub dispute_id : Option Uuid

abbrev listed_order : Order → OrderChatListItem
listed_order o = record {
  order_id = o.id;
  status = o.status;
  amount = some o.amount;
  fiat = some (o.fiat_amount, o.fiat_code);
  trade_index = o.trade_index;
  payment_method = some o.payment_method;
  premium = some o.premium;
  buyer_trade_pubkey = none;
  seller_trade_pubkey = none;
  buyer_reputation = none;
  seller_reputation = none;
  solver_pubkey = o.solver_pubkey;
  dispute_id = o.dispute_id;
}

abbrev if_pending : Option Status → OrderChatListItem → Option OrderChatListItem
if_pending (some Status.pending) item = some item
if_pending _ item = none

unfoldable pub order_chat_list_item_from_db_order : Order → Option OrderChatListItem
order_chat_list_item_from_db_order o =
    if o.is_mine then if_pending o.status (listed_order o) else none

abbrev first_amounts : OrderChatListItem → SmallOrder → OrderChatListItem
first_amounts entry o = if is_some entry.amount then entry else record entry {
  amount = some o.amount;
  fiat = some (o.fiat_amount, o.fiat_code);
  payment_method = some o.payment_method;
  premium = some o.premium;
}

unfoldable pub merge_order_fields :
    OrderChatListItem → SmallOrder → OrderMessage → OrderChatListItem
merge_order_fields entry o msg =
    let named = record entry {
      buyer_trade_pubkey = or o.buyer_trade_pubkey entry.buyer_trade_pubkey;
      seller_trade_pubkey = or o.seller_trade_pubkey entry.seller_trade_pubkey;
    } in
    record (first_amounts named o) { trade_index = or entry.trade_index (some msg.trade_index) }

unfoldable pub merge_peer_fields : OrderChatListItem → String → Option String → OrderChatListItem
merge_peer_fields entry pubkey none = entry
merge_peer_fields entry pubkey (some reputation) = record entry {
  buyer_reputation =
      if is_some_and entry.buyer_trade_pubkey (λ k. str_eq k pubkey)
      then some reputation
      else entry.buyer_reputation;
  seller_reputation =
      if is_some_and entry.seller_trade_pubkey (λ k. str_eq k pubkey)
      then some reputation
      else entry.seller_reputation;
}

pub merge_payload : OrderChatListItem → OrderMessage → Action → Option Payload → OrderChatListItem
unfolding merge_order_fields merge_peer_fields
merge_payload entry msg a (some (Payload.order o)) = merge_order_fields entry o msg
merge_payload entry msg Action.admin_took_dispute (some (Payload.peer pubkey reputation)) =
    record entry { solver_pubkey = some pubkey }
merge_payload entry msg a (some (Payload.peer pubkey reputation)) =
    merge_peer_fields entry pubkey reputation
merge_payload entry msg a (some (Payload.dispute dispute_id)) = record entry {
  dispute_id = some dispute_id;
}
merge_payload entry msg a _ = entry

unfoldable pub merge_message_into_entry : OrderChatListItem → OrderMessage → OrderChatListItem
unfolding merge_payload
merge_message_into_entry entry msg =
    merge_payload
      (record entry {
        trade_index = or entry.trade_index (some msg.trade_index);
        status = or msg.order_status entry.status;
      })
      msg msg.message.action msg.message.payload

abbrev pub blank_entry : Uuid → OrderMessage → OrderChatListItem
blank_entry i msg = record {
  order_id = i;
  status = msg.order_status;
  amount = none;
  fiat = none;
  trade_index = some msg.trade_index;
  payment_method = none;
  premium = none;
  buyer_trade_pubkey = none;
  seller_trade_pubkey = none;
  buyer_reputation = none;
  seller_reputation = none;
  solver_pubkey = none;
  dispute_id = none;
}

-- `entry(key).and_modify(…).or_insert_with(…)`
unfoldable pub merge_into : Uuid → OrderMessage → List OrderChatListItem → List OrderChatListItem
merge_into i msg [] = merge_message_into_entry (blank_entry i msg) msg ∷ []
merge_into i msg (x ∷ xs) =
    let rest = merge_into i msg xs in
    if x.order_id == i then merge_message_into_entry x msg ∷ xs else x ∷ rest

abbrev pub merge_row : Option Uuid → OrderMessage → List OrderChatListItem → List OrderChatListItem
merge_row none msg rows = rows
merge_row (some i) msg rows = merge_into i msg rows

unfoldable pub merge_rows : List OrderMessage → List OrderChatListItem → List OrderChatListItem
merge_rows [] rows = rows
merge_rows (m ∷ ms) rows = merge_rows ms (merge_row m.order_id m rows)

abbrev pub build_order_chat_list_from_messages : List OrderMessage → List OrderChatListItem
build_order_chat_list_from_messages messages = merge_rows messages []

abbrev pub is_listed : List OrderChatListItem → OrderChatListItem → Bool
is_listed rows item = any (λ r. r.order_id == item.order_id) rows

unfoldable pub append_maker_book_rows_without_dm :
    List OrderChatListItem → List OrderChatListItem → List OrderChatListItem
append_maker_book_rows_without_dm rows maker_book =
    rows ++ retain (λ item. not (is_listed rows item)) maker_book

-- The greater trade index first, rows without one last, then by id.
abbrev pub before : Option ℤ → Option ℤ → Bool → Bool
before (some i) (some j) tie = if ltz j i then true else if ltz i j then false else tie
before (some i) none tie = true
before none (some j) tie = false
before none none tie = tie

abbrev pub comes_before : OrderChatListItem → OrderChatListItem → Bool
comes_before a b = before a.trade_index b.trade_index (ltb a.order_id b.order_id)

unfoldable pub insert_item : OrderChatListItem → List OrderChatListItem → List OrderChatListItem
insert_item o [] = o ∷ []
insert_item o (x ∷ xs) =
    let rest = insert_item o xs in if comes_before x o then x ∷ rest else o ∷ x ∷ xs

-- A stable sort.
unfoldable pub sort_order_chat_rows : List OrderChatListItem → List OrderChatListItem
sort_order_chat_rows [] = []
sort_order_chat_rows (o ∷ os) = insert_item o (sort_order_chat_rows os)

unfoldable pub build_active_order_chat_list :
    List OrderMessage → List OrderChatListItem → List OrderChatListItem
build_active_order_chat_list messages maker_book =
    sort_order_chat_rows
      (append_maker_book_rows_without_dm (build_order_chat_list_from_messages messages) maker_book)
