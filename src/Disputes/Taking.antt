-- ===== src/Disputes/Taking.antt =====
-- models.rs (`AdminDispute::new`): the row that taking a dispute stores.
use mostrix.Prelude.{
  ℤ, String, Bool, ◌&&◌, Option, none, some, List, [], ◌∷◌, is_some, str_eq, ◌==◌, if◌then◌else◌,
}
use mostrix.Protocol.{Uuid, Keys}
use mostrix.Db.{Env}
use mostrix.Db.Rows.{derive_shared_key_hex}
use mostrix.Disputes.{AdminDispute, DisputeText, is_finalized}

-- `mostro_core`'s `SolverDisputeInfo`, its `UserInfo` values as their JSON texts.
pub record SolverDisputeInfo : Type 0 where
  pub id : Uuid
  pub kind : String
  pub status : String
  pub hash : Option String
  pub preimage : Option String
  pub order_previous_status : String
  pub initiator_pubkey : String
  pub buyer_pubkey : Option String
  pub seller_pubkey : Option String
  pub initiator_full_privacy : Bool
  pub counterpart_full_privacy : Bool
  pub initiator_info : Option String
  pub counterpart_info : Option String
  pub premium : ℤ
  pub payment_method : String
  pub amount : ℤ
  pub fiat_amount : ℤ
  pub fee : ℤ
  pub routing_fee : ℤ
  pub buyer_invoice : Option String
  pub invoice_held_at : ℤ
  pub taken_at : ℤ
  pub created_at : ℤ

unfoldable pub get_dispute : Uuid → List AdminDispute → Option AdminDispute
get_dispute i [] = none
get_dispute i (r ∷ rs) = let rest = get_dispute i rs in if r.id == i then some r else rest

unfoldable pub replace_dispute : AdminDispute → List AdminDispute → List AdminDispute
replace_dispute d [] = []
replace_dispute d (r ∷ rs) =
    let rest = replace_dispute d rs in (if r.id == d.id then d else r) ∷ rest

-- `fiat_code_from_relay.filter(non-empty).unwrap_or("USD")`
abbrev fiat_or_usd : Option String → String
fiat_or_usd none = "USD"
fiat_or_usd (some s) = if str_eq s "" then "USD" else s

abbrev shared : Env → Option Keys → Option String → Option String
shared e none p = none
shared e (some keys) p = derive_shared_key_hex e keys p

-- The row that `new` builds.
unfoldable pub dispute_row :
    Env → SolverDisputeInfo → Uuid → Option String → Option Keys → AdminDispute
dispute_row e info dispute_id fiat admin_keys = record {
  id = info.id;
  dispute_id = dispute_id;
  kind = some info.kind;
  status = some info.status;
  hash = info.hash;
  preimage = info.preimage;
  order_previous_status = some info.order_previous_status;
  initiator_pubkey = info.initiator_pubkey;
  buyer_pubkey = info.buyer_pubkey;
  seller_pubkey = info.seller_pubkey;
  initiator_full_privacy = info.initiator_full_privacy;
  counterpart_full_privacy = info.counterpart_full_privacy;
  initiator_info = info.initiator_info;
  counterpart_info = info.counterpart_info;
  premium = info.premium;
  payment_method = info.payment_method;
  amount = info.amount;
  fiat_amount = info.fiat_amount;
  fiat_code = fiat_or_usd fiat;
  fee = info.fee;
  routing_fee = info.routing_fee;
  buyer_invoice = info.buyer_invoice;
  invoice_held_at = some info.invoice_held_at;
  taken_at = info.taken_at;
  created_at = info.created_at;
  buyer_chat_last_seen = none;
  seller_chat_last_seen = none;
  buyer_shared_key_hex = shared e admin_keys info.buyer_pubkey;
  seller_shared_key_hex = shared e admin_keys info.seller_pubkey;
}

module _ (x : DisputeText) where
  abbrev store : AdminDispute → Option AdminDispute → List AdminDispute → Option (List AdminDispute)
  store d none rows = some (d ∷ rows)
  store d (some old) rows = if is_finalized x old then none else some (replace_dispute d rows)

  -- `AdminDispute::new`; `none` is an `Err`, which leaves the table as it was.
  unfoldable pub new_admin_dispute :
      Env
      → SolverDisputeInfo
      → Uuid
      → Option String
      → Option Keys
      → List AdminDispute
      → Option (List AdminDispute)
  unfolding dispute_row
  new_admin_dispute e info dispute_id fiat admin_keys rows =
      if is_some info.buyer_pubkey && is_some info.seller_pubkey
      then store (dispute_row e info dispute_id fiat admin_keys) (get_dispute info.id rows) rows
      else none
