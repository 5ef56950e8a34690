-- ===== src/Protocol.antt =====
-- What the program sees of the wire types of `mostro_core` (a crate outside the repository): the
-- variants and the fields that the code names. Variants that it never names are `other`.
use mostrix.Prelude.{ℕ, ℤ, String, Bool, Option, ℕ_discrete}

-- A 128-bit identifier, compared for equality and printed as a key.
abbrev pub Uuid : Type 0
Uuid = ℕ

abbrev pub PublicKey : Type 0
PublicKey = ℕ

-- A key pair, known by its public key through `Env.public_key`.
abbrev pub Keys : Type 0
Keys = ℕ

pub data Kind : Type 0 where
  buy sell : Kind

-- `match` on a status is exhaustive in `ui/orders.rs`, so these are all of them.
pub data Status : Type 0 where
  pending waiting_taker_bond waiting_maker_bond waiting_payment waiting_buyer_invoice : Status
  settled_hold_invoice in_progress active fiat_sent success : Status
  canceled canceled_by_admin cooperatively_canceled expired dispute : Status
  settled_by_admin completed_by_admin : Status

pub data Action : Type 0 where
  new_order take_sell take_buy pay_invoice pay_bond_invoice add_invoice add_bond_invoice : Action
  waiting_seller_to_pay waiting_buyer_invoice buyer_took_order : Action
  hold_invoice_payment_accepted hold_invoice_payment_settled : Action
  fiat_sent fiat_sent_ok release released purchase_completed rate rate_received : Action
  cancel canceled admin_cancel admin_canceled admin_settle admin_settled : Action
  cooperative_cancel_initiated_by_you cooperative_cancel_initiated_by_peer : Action
  cooperative_cancel_accepted : Action
  dispute dispute_initiated_by_you dispute_initiated_by_peer admin_took_dispute cant_do : Action
  other : ℕ → Action

pub record SmallOrder : Type 0 where
  pub id : Option Uuid
  pub kind : Option Kind
  pub status : Option Status
  pub amount : ℤ
  pub fiat_code : String
  pub min_amount : Option ℤ
  pub max_amount : Option ℤ
  pub fiat_amount : ℤ
  pub payment_method : String
  pub premium : ℤ
  pub buyer_trade_pubkey : Option String
  pub seller_trade_pubkey : Option String
  pub buyer_invoice : Option String
  pub created_at : Option ℕ
  pub expires_at : Option ℤ

pub record BondResolution : Type 0 where
  pub slash_seller : Bool
  pub slash_buyer : Bool

pub data Payload : Type 0 where
  order : SmallOrder → Payload
  payment_request : Option SmallOrder → String → Option ℤ → Payload
  bond_payout_request : SmallOrder → ℤ → Payload
  dispute : Uuid → Payload
  peer : String → Option String → Payload
  bond_resolution : BondResolution → Payload
  other : ℕ → Payload

-- The inner kind of a message (`Message::get_inner_message_kind`).
pub record Message : Type 0 where
  pub action : Action
  pub payload : Option Payload
  pub request_id : Option ℕ

unfoldable pub Kind-discrete : Discrete Kind
Kind-discrete = hlevel

unfoldable pub Status-discrete : Discrete Status
Status-discrete = hlevel

unfoldable pub Action-discrete : Discrete Action
Action-discrete = hlevel ℕ_discrete
