-- ===== src/Disputes.antt =====
-- models.rs (`AdminDispute`, its statuses) and util/order_utils/relay_dispute_db_reconcile.rs: the disputes that a
-- solver has taken, in the table and in memory, and the terminal statuses that relays bring.
pub mod Taking
pub mod Closing
pub mod Agreement
use mathlib.Core.Option
use mostrix.Prelude.{
  ℕ, suc, ◌+◌, ◌%◌, min, ℤ, String, Bool, true, false, not, ◌&&◌, ◌||◌, Option, none, some, List,
  [], ◌∷◌, ◌++◌, length, get_elem?, retain, any, is_some, is_some_and, and_then, unwrap_or, str_eq,
  leb, ◌==◌, if◌then◌else◌, ◌≡◌, ◌↔◌,
}
use mostrix.Protocol.{Uuid, Keys}
use mostrix.Db.{Env}
use mostrix.Db.Rows.{derive_shared_key_hex}
use mostrix.Relay.{window, targeted_relay_reconcile_max_per_tick}

-- `mostro_core`'s dispute statuses that the code names.
pub data DisputeStatus : Type 0 where
  initiated in_progress settled seller_refunded released : DisputeStatus

-- `Display` and `FromStr` of the statuses.
pub record DisputeText : Type 0 where
  pub to_text : DisputeStatus → String
  pub of_text : String → Option DisputeStatus

-- What the code relies on: a text reads as a status exactly if it is that status's text.
abbrev pub Reads : DisputeText → Type 0
Reads x = (s : String) (d : DisputeStatus) → (x.of_text s ≡ some d) ↔ (s ≡ x.to_text d)

-- A dispute event: its id (`d` tag) and its status text.
pub record Dispute : Type 0 where
  pub id : Uuid
  pub status : String

-- A row; `id` is the order's id, the primary key. The `UserInfo` values are kept as the JSON texts that
-- the table holds.
pub record AdminDispute : Type 0 where
  pub id : Uuid
  pub dispute_id : Uuid
  pub kind : Option String
  pub status : Option String
  pub hash : Option String
  pub preimage : Option String
  pub order_previous_status : Option String
  pub initiator_pubkey : String
  pub buyer_pubkey : Option String
  pub seller_pubkey : Option String
  pub initiator_full_privacy : Bool
  pub counterpart_full_privacy : Bool
  pub initiator_info : Option String
  pub counterpart_info : Option String
  pub premium : ℤ
  pub payment_method : String
  pub amount : ℤ
  pub fiat_amount : ℤ
  pub fiat_code : String
  pub fee : ℤ
  pub routing_fee : ℤ
  pub buyer_invoice : Option String
  pub invoice_held_at : Option ℤ
  pub taken_at : ℤ
  pub created_at : ℤ
  pub buyer_chat_last_seen : Option ℤ
  pub seller_chat_last_seen : Option ℤ
  pub buyer_shared_key_hex : Option String
  pub seller_shared_key_hex : Option String

-- UPDATE admin_disputes SET status = ? WHERE id = ?
unfoldable pub set_status : Uuid → String → List AdminDispute → List AdminDispute
set_status i s [] = []
set_status i s (r ∷ rs) =
    let rest = set_status i s rs in (if r.id == i then record r { status = some s } else r) ∷ rest

-- The result of a loop over relay disputes: the rows, and the ids whose chats are untracked.
abbrev pub Closed : Type 0
Closed = List AdminDispute × List Uuid

abbrev pub is_final : DisputeStatus → Bool
is_final DisputeStatus.settled = true
is_final DisputeStatus.seller_refunded = true
is_final DisputeStatus.released = true
is_final _ = false

module _ (x : DisputeText) where
  open x use {to_text, of_text}

  unfoldable pub is_terminal_status : String → Bool
  is_terminal_status s = is_some_and (of_text s) is_final

  unfoldable pub is_finalized : AdminDispute → Bool
  unfolding is_terminal_status
  is_finalized r = is_some_and r.status is_terminal_status

  abbrev pub can_settle : AdminDispute → Bool
  can_settle r = not (is_finalized r)

  abbrev pub can_cancel : AdminDispute → Bool
  can_cancel r = not (is_finalized r)

  abbrev pub set_status_settled : Uuid → List AdminDispute → List AdminDispute
  set_status_settled i rows = set_status i (to_text DisputeStatus.settled) rows

  abbrev pub set_status_seller_refunded : Uuid → List AdminDispute → List AdminDispute
  set_status_seller_refunded i rows = set_status i (to_text DisputeStatus.seller_refunded) rows

  -- status IS NULL OR status NOT IN (?, ?, ?)
  unfoldable pub is_open_row : AdminDispute → Bool
  is_open_row r = not (
      is_some_and r.status (λ s.
        str_eq s (to_text DisputeStatus.settled)
        || (str_eq s (to_text DisputeStatus.seller_refunded)
            || str_eq s (to_text DisputeStatus.released))))

  -- The rows, and whether one was affected.
  unfoldable pub set_status_by_dispute_id :
      Uuid → DisputeStatus → List AdminDispute → List AdminDispute × Bool
  set_status_by_dispute_id i st [] = ([], false)
  set_status_by_dispute_id i st (r ∷ rs) =
      let rest = set_status_by_dispute_id i st rs in
      if r.dispute_id == i && is_open_row r
      then (record r { status = some (to_text st) } ∷ rest.0, true)
      else (r ∷ rest.0, rest.1)

  abbrev untracked : Uuid → List AdminDispute × Bool → Closed
  untracked i (rows, done) = (rows, if done then i ∷ [] else [])

  unfoldable pub reconcile_one_admin_dispute_if_terminal : Dispute → List AdminDispute → Closed
  unfolding is_terminal_status
  reconcile_one_admin_dispute_if_terminal relay rows =
      if is_terminal_status relay.status
      then elim (of_text relay.status) [
        | none ↦ (rows, [])
        | some st ↦ untracked relay.id (set_status_by_dispute_id relay.id st rows)
      ]
      else (rows, [])

  unfoldable pub reconcile_terminal_admin_disputes_from_relay :
      List Dispute → List AdminDispute → Closed
  reconcile_terminal_admin_disputes_from_relay [] rows = (rows, [])
  reconcile_terminal_admin_disputes_from_relay (d ∷ ds) rows =
      let one = reconcile_one_admin_dispute_if_terminal d rows in
      let rest = reconcile_terminal_admin_disputes_from_relay ds one.0 in (rest.0, one.1 ++ rest.1)

  -- The first row in memory with the dispute's id, where it is not final and shows another status.
  unfoldable pub close_first : Dispute → List AdminDispute → List AdminDispute × Bool
  unfolding is_finalized
  close_first relay [] = ([], false)
  close_first relay (r ∷ rs) =
      let rest = close_first relay rs in
      if r.dispute_id == relay.id
      then (if is_finalized r
          then (r ∷ rs, false)
          else if is_some_and r.status (λ s. str_eq s relay.status)
          then (r ∷ rs, false)
          else (record r { status = some relay.status } ∷ rs, true))
      else (r ∷ rest.0, rest.1)

  unfoldable pub apply_terminal_relay_statuses_to_admin_disputes :
      List Dispute → List AdminDispute → Closed
  unfolding is_terminal_status
  apply_terminal_relay_statuses_to_admin_disputes [] rows = (rows, [])
  apply_terminal_relay_statuses_to_admin_disputes (d ∷ ds) rows =
      let one =
        if is_terminal_status d.status then untracked d.id (close_first d rows) else (rows, []) in
      let rest = apply_terminal_relay_statuses_to_admin_disputes ds one.0 in
      (rest.0, one.1 ++ rest.1)
