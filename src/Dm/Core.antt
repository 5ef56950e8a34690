-- ===== src/Dm/Core.antt =====
-- models.rs: the ownership columns of a row, and the writes of the trade DM handler.
use mathlib.Core.Option
use mostrix.Prelude.{String, ◌≡◌, refl, ap, ◌∙◌, some, List}
use mostrix.Protocol.{Uuid, Status}
use mostrix.Db.{
  Order, get_by_id, update_where, update_status, update_dispute_id, update_solver_chat,
}
use mostrix.Db.Frame.{get_by_id-update_self}

-- The columns that only the user's own operations and the cursor write.
pub record KeepsCore (r r' : Order) : Type 0 where
  pub trade_keys : r'.trade_keys ≡ r.trade_keys
  pub is_mine : r'.is_mine ≡ r.is_mine
  pub trade_index : r'.trade_index ≡ r.trade_index
  pub last_seen_dm_ts : r'.last_seen_dm_ts ≡ r.last_seen_dm_ts

pub core_refl : (r : Order) → KeepsCore r r
core_refl r = record {
  trade_keys = refl;
  is_mine = refl;
  trade_index = refl;
  last_seen_dm_ts = refl;
}

pub core_trans : (a b c : Order) → KeepsCore a b → KeepsCore b c → KeepsCore a c
core_trans a b c p q = record {
  trade_keys = q.trade_keys ∙ p.trade_keys;
  is_mine = q.is_mine ∙ p.is_mine;
  trade_index = q.trade_index ∙ p.trade_index;
  last_seen_dm_ts = q.last_seen_dm_ts ∙ p.last_seen_dm_ts;
}

-- The row is still there with its core.
abbrev pub Kept : Uuid → Order → List Order → Type 0
Kept i r rows = (r' : Order) × (get_by_id i rows ≡ some r') × KeepsCore r r'

module _ (i : Uuid) (f : Order → Order) (key : (r : Order) → (f r).id ≡ r.id)
    (core : (r : Order) → KeepsCore r (f r)) where
  update-Kept : (r : Order) (rows : List Order) → Kept i r rows → Kept i r (update_where i f rows)
  update-Kept r rows (r', q, k) = (
    f r',
    get_by_id-update_self i f (λ r k. key r ∙ k) rows ∙ ap (Option.map f) q,
    core_trans r r' (f r') k (core r'),
  )

module _ (i : Uuid) (r : Order) (rows : List Order) (w : Kept i r rows) where
  pub status-Kept : (s : Status) → Kept i r (update_status i s rows)
  unfolding update_status
  status-Kept s =
      update-Kept i (λ r. record r { status = some s }) (λ r. refl)
        (λ r. record {
          trade_keys = refl;
          is_mine = refl;
          trade_index = refl;
          last_seen_dm_ts = refl;
        })
        r rows w

  pub dispute-Kept : (x : Uuid) → Kept i r (update_dispute_id i x rows)
  unfolding update_dispute_id
  dispute-Kept x =
      update-Kept i (λ r. record r { dispute_id = some x }) (λ r. refl)
        (λ r. record {
          trade_keys = refl;
          is_mine = refl;
          trade_index = refl;
          last_seen_dm_ts = refl;
        })
        r rows w

  pub solver-Kept : (x y : String) → Kept i r (update_solver_chat i x y rows)
  unfolding update_solver_chat
  solver-Kept x y =
      update-Kept i (λ r. record r { solver_pubkey = some x; dispute_chat_shared_key_hex = some y })
        (λ r. refl)
        (λ r. record {
          trade_keys = refl;
          is_mine = refl;
          trade_index = refl;
          last_seen_dm_ts = refl;
        })
        r rows w
