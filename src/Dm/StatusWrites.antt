-- ===== src/Dm/StatusWrites.antt =====
-- util/dm_utils/mod.rs: the single writes of the handler and the status of the row that they touch.
use mostrix.Prelude.{
  ℤ, String, ◌≡◌, refl, ◌∙◌, Bool, true, not, ◌&&◌, ◌||◌, Option, none, some, List, arith,
  Option-cases, inl, inr, same, is_some,
}
use mostrix.Protocol.{Uuid, Keys, Action, Action-discrete, Status, SmallOrder, Message}
use mostrix.OrderStatus.{map_action_to_status}
use mostrix.Db.{
  Env, Order, get_by_id, update_where, update_status, update_dispute_id, update_solver_chat,
}
use mostrix.Db.Rows.{build_order_from_small_order}
use mostrix.Db.Frame.{get_by_id-update_self}
use mostrix.Db.Upsert.{row_status, built}
use mostrix.Dm.Terminal.{resolved_status_candidate, small_order_ref_from_payload}
use mostrix.Dm.Effects.{order_to_persist}
use mostrix.Dm.Judge.{status_candidate, is_pay, is_actionable_notification}

module _ (i : Uuid) (f : Order → Order) (key : (r : Order) → (f r).id ≡ r.id)
    (st : (r : Order) → (f r).status ≡ r.status) where
  update-keeps_status :
      (rows : List Order) → row_status i (update_where i f rows) ≡ row_status i rows
  update-keeps_status rows =
      rw (get_by_id-update_self i f (λ r k. key r ∙ k) rows)
        (elim (Option-cases (get_by_id i rows)) [ inl q ↦ rw q refl | inr (r, q) ↦ rw q (st r) ])

module _ (i : Uuid) (rows : List Order) where
  pub dispute-status : (x : Uuid) → row_status i (update_dispute_id i x rows) ≡ row_status i rows
  unfolding update_dispute_id
  dispute-status x =
      update-keeps_status i (λ r. record r { dispute_id = some x }) (λ r. refl) (λ r. refl) rows

  pub solver-status :
      (x y : String) → row_status i (update_solver_chat i x y rows) ≡ row_status i rows
  unfolding update_solver_chat
  solver-status x y =
      update-keeps_status i
        (λ r. record r { solver_pubkey = some x; dispute_chat_shared_key_hex = some y }) (λ r. refl)
        (λ r. refl) rows

  pub status-written :
      (s t : Status) → row_status i rows ≡ some t → row_status i (update_status i s rows) ≡ some s
  unfolding update_status
  status-written s t k = elim (Option-cases (get_by_id i rows)) [
    | inr (r, q) ↦
        rw (get_by_id-update_self i (λ r. record r { status = some s }) (λ r k. k) rows, q) refl
    | inl q ↦ ground (arith, q, k)
  ]

-- The payloads that the status guard sees whole: the upsert writes no status, or the one that the
-- guard then judges, and the call does not end before the judgement.
unfoldable pub is_guarded : Message → Bool
is_guarded m = elim (order_to_persist m.action m.payload) [
  | none ↦ true
  | some o ↦
      is_some o.status
      && (not (same Action-discrete m.action Action.add_bond_invoice)
          && (not (is_pay m.action) || is_actionable_notification m))
]

pub candidate_persisted :
    (m : Message) (o : SmallOrder) (c : Status)
    → order_to_persist m.action m.payload ≡ some o
    → is_guarded m ≡ true
    → o.status ≡ some c
    → status_candidate m ≡ some c
unfolding is_guarded status_candidate resolved_status_candidate map_action_to_status
    small_order_ref_from_payload
candidate_persisted m o c p g q = ground arith

pub built-status :
    (e : Env) (i : Uuid) (o : SmallOrder) (keys : Keys) (rid : Option ℤ) (x : Option Order)
    → (built e i o keys rid x).status ≡ o.status
unfolding build_order_from_small_order
built-status e i o keys rid x = refl
