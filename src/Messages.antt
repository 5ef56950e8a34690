-- ===== src/Messages.antt =====
-- ui/orders.rs: the rows of the Messages tab and the notifications built from them.
pub mod Popup
pub mod Notification
pub mod Timeline
pub mod Labels
pub mod Presentation
pub mod Snapshot
use mostrix.Prelude.{
  ℕ, ◌-◌, ℤ, String, Bool, true, false, not, Option, none, some, List, length, retain, leb,
  unwrap_or, if◌then◌else◌, same,
}
use mostrix.Protocol.{
  Uuid, PublicKey, Kind, Status, Action, SmallOrder, Message, Action-discrete, Status-discrete,
}

-- Timestamps are `i64` made from unsigned seconds (`created_at.as_secs() as i64`).
pub record OrderMessage : Type 0 where
  pub message : Message
  pub timestamp : ℕ
  pub sender : PublicKey
  pub order_id : Option Uuid
  pub trade_index : ℤ
  pub sat_amount : Option ℤ
  pub buyer_invoice : Option String
  pub order_kind : Option Kind
  pub is_mine : Option Bool
  pub order_status : Option Status
  pub order_snapshot : Option SmallOrder
  pub read : Bool
  pub auto_popup_shown : Bool

pub record MessageNotification : Type 0 where
  pub order_id : Option Uuid
  pub message_preview : String
  pub timestamp : ℕ
  pub action : Action
  pub sat_amount : Option ℤ
  pub invoice : Option String
  pub body : Option String
  pub maker_bond_publish : Bool
  pub solver_pubkey : Option String
  pub dispute_id : Option Uuid

-- Drops the `new-order` rows and clamps the selection.
unfoldable pub strip_new_order_messages_and_clamp_selected :
    List OrderMessage → ℕ → List OrderMessage × ℕ
strip_new_order_messages_and_clamp_selected messages selected =
    let kept =
      retain (λ m. not (same Action-discrete m.message.action Action.new_order)) messages in
    (kept, if leb (length kept) selected then length kept - 1 else selected)
