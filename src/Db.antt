-- ===== src/Db.antt =====
-- models.rs (`Order`) and util/db_utils.rs: the `orders` table and its writers. A statement on the
-- table succeeds; `Err` results are those that the code itself returns.
pub mod Rows
pub mod Frame
pub mod Upsert
use mostrix.Prelude.{
  ℕ, ℤ, pos, positive, as_i64, String, Bool, true, false, not, ◌&&◌, Option, none, some, List, [],
  ◌∷◌, is_some, or, unwrap_or, and_then, str_eq, ltb, ◌==◌, if◌then◌else◌, retain,
}
use mostrix.Protocol.{Uuid, PublicKey, Keys, Kind, Status, SmallOrder}

-- What the code takes from outside the repository: keys, the clock, fresh ids, files.
pub record Env : Type 0 where
  pub public_key : Keys → PublicKey
  pub secret_hex : Keys → String
  pub parse_pubkey : String → Option PublicKey
  pub shared_hex : Keys → PublicKey → Option String
  pub now : ℕ
  pub new_uuid : Uuid
  pub order_chat_since : Uuid → Option ℕ
  pub dispute_chat_since : Uuid → Option ℕ
  pub format_local_timestamp : ℤ → Option String

-- A row; `kind` and `status` are the texts that `Display` prints and `from_str` reads back.
pub record Order : Type 0 where
  pub id : Uuid
  pub kind : Option Kind
  pub status : Option Status
  pub amount : ℤ
  pub fiat_code : String
  pub min_amount : Option ℤ
  pub max_amount : Option ℤ
  pub fiat_amount : ℤ
  pub payment_method : String
  pub premium : ℤ
  pub trade_keys : Option String
  pub counterparty_pubkey : Option String
  pub order_chat_shared_key_hex : Option String
  pub dispute_id : Option Uuid
  pub solver_pubkey : Option String
  pub dispute_chat_shared_key_hex : Option String
  pub is_mine : Bool
  pub buyer_invoice : Option String
  pub request_id : Option ℤ
  pub trade_index : Option ℤ
  pub created_at : Option ℕ
  pub expires_at : Option ℤ
  pub last_seen_dm_ts : Option ℕ

-- SELECT … WHERE id = ? LIMIT 1
unfoldable pub get_by_id : Uuid → List Order → Option Order
get_by_id i [] = none
get_by_id i (r ∷ rs) = let rest = get_by_id i rs in if r.id == i then some r else rest

-- UPDATE … WHERE id = ?
unfoldable pub update_where : Uuid → (Order → Order) → List Order → List Order
update_where i f [] = []
update_where i f (r ∷ rs) = let rest = update_where i f rs in (if r.id == i then f r else r) ∷ rest

-- Every column but the key is written.
abbrev pub update_db : Order → List Order → List Order
update_db o rows = update_where o.id (λ _. o) rows

-- INSERT, or the unique-key violation that the callers turn into an update.
unfoldable pub insert_or_update : Order → List Order → List Order
insert_or_update o rows = if is_some (get_by_id o.id rows) then update_db o rows else o ∷ rows

unfoldable pub update_status : Uuid → Status → List Order → List Order
update_status i s rows = update_where i (λ r. record r { status = some s }) rows

abbrev pub later : Option ℕ → ℕ → Option ℕ
later none ts = some ts
later (some seen) ts = if ltb seen ts then some ts else some seen

unfoldable pub update_last_seen_dm_ts : Uuid → ℕ → List Order → List Order
update_last_seen_dm_ts i ts rows =
    update_where i (λ r. record r { last_seen_dm_ts = later r.last_seen_dm_ts ts }) rows

unfoldable pub update_dispute_id : Uuid → Uuid → List Order → List Order
update_dispute_id i d rows = update_where i (λ r. record r { dispute_id = some d }) rows

unfoldable pub update_solver_chat : Uuid → String → String → List Order → List Order
update_solver_chat i solver hex rows =
    update_where i
      (λ r. record r { solver_pubkey = some solver; dispute_chat_shared_key_hex = some hex }) rows

-- DELETE … WHERE id = ?
unfoldable pub delete_order_by_id : Uuid → List Order → List Order
delete_order_by_id i rows = retain (λ r. not (r.id == i)) rows
