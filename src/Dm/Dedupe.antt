-- ===== src/Dm/Dedupe.antt =====
-- util/dm_utils/mod.rs: which rows of the Messages tab a late or repeated DM may replace.
use mostrix.Prelude.{
  ◌≤◌, ◌≡◌, ◌≢◌, ap, ◌∙◌, true, false, not, ◌&&◌, Option, none, some, arith, Bool-cases, inl, inr,
  ◌⊎◌, ◌<◌, dec_lt, Option-cases,
}
use mostrix.Protocol.{Status, Action}
use mostrix.OrderStatus.{should_strictly_advance_status}
use mostrix.Messages.{OrderMessage}
use mostrix.Db.{Env, Order, get_by_id}
use mostrix.Dm.{State, Dm, newest_row}
use mostrix.Dm.Handler.{prepare, deliver, hydrate, handle_trade_dm_for_order}
use mostrix.Dm.Judge.{
  should_replace_row, status_candidate, effective_order_kind, is_pay, is_actionable_notification,
}
use mostrix.Dm.Tab.{prepare-messages, deliver-messages}

-- What a message no newer than the order's row must be to replace it: another action at the same
-- time, or a status strictly ahead of the row's.
abbrev pub Supersedes : Dm → OrderMessage → Option Order → Type 0
Supersedes d p row =
    ((d.timestamp ≡ p.timestamp) × (d.message.action ≢ p.message.action))
    ⊎ ((d.timestamp < p.timestamp)
        × ((c : Status) × (status_candidate d.message ≡ some c)
            × (should_strictly_advance_status p.order_status c (effective_order_kind d (some p) row)
                ≡ true)))

module _ (d : Dm) (p : OrderMessage) (row : Option Order) where
  strictly :
      d.timestamp < p.timestamp
      → should_replace_row d (some p) row ≡ true
      → (c : Status) × (status_candidate d.message ≡ some c)
        × (should_strictly_advance_status p.order_status c (effective_order_kind d (some p) row)
            ≡ true)
  unfolding should_replace_row
  strictly t h = elim (Option-cases (status_candidate d.message)) [
    | inl n ↦ ground (arith, h, t, n)
    | inr (c, n) ↦ (c, n, ground (arith, h, t, n))
  ]

  replaces-Supersedes :
      d.timestamp ≤ p.timestamp → should_replace_row d (some p) row ≡ true → Supersedes d p row
  replaces-Supersedes t h = elim (dec_lt d.timestamp p.timestamp) [
    | yes u ↦ inr (u, strictly u h)
    | no u ↦ inl (omega (arith, t, u), unfold should_replace_row in ground (arith, h, t, u))
  ]

module _ (e : Env) (d : Dm) (s : State) (p : OrderMessage)
    (h : newest_row d.order_id none s.messages ≡ some p) where
  abbrev row : Option Order
  row = get_by_id d.order_id s.rows

  kept-unless :
      should_replace_row d (some p) row ≡ false
      → (deliver e d row (prepare e d s)).messages ≡ s.messages
  kept-unless q =
      let k : newest_row d.order_id none (prepare e d s).messages ≡ some p =
        ap (newest_row d.order_id none) (prepare-messages e d s) ∙ h in
      rw (deliver-messages e d row (prepare e d s), k, q) (prepare-messages e d s)

  not_canceled :
      d.message.action ≢ Action.canceled
      → ((hydrate e d s).messages ≡ s.messages) ⊎ (hydrate e d s ≡ deliver e d row (prepare e d s))
  unfolding hydrate
  not_canceled a =
      elim (Bool-cases (is_pay d.message.action && not (is_actionable_notification d.message))) [
        | inl q ↦ inl (ground (arith, a, q, prepare-messages e d s))
        | inr q ↦ inr (ground (arith, a, q))
      ]

  hydrate-keeps :
      d.message.action ≢ Action.canceled
      → should_replace_row d (some p) row ≡ false
      → (hydrate e d s).messages ≡ s.messages
  hydrate-keeps a q = elim (not_canceled a) [
    | inl k ↦ k
    | inr k ↦ ap (λ t. t.messages) k ∙ kept-unless q
  ]

  handle-hydrates :
      d.message.action ≢ Action.new_order → handle_trade_dm_for_order e d s ≡ hydrate e d s
  unfolding handle_trade_dm_for_order
  handle-hydrates a = ground (arith, a)

  -- A message no newer than the newest row of its order leaves the Messages tab as it is, unless it
  -- changes the action at the same time or moves the status strictly forward. A take-away
  -- (`Canceled`) and a `NewOrder` have their own rules.
  pub late_message :
      d.message.action ≢ Action.canceled
      → d.message.action ≢ Action.new_order
      → d.timestamp ≤ p.timestamp
      → ((handle_trade_dm_for_order e d s).messages ≡ s.messages) ⊎ Supersedes d p row
  late_message a b t = elim (Bool-cases (should_replace_row d (some p) row)) [
    | inl q ↦ inr (replaces-Supersedes d p row t q)
    | inr q ↦ inl (ap (λ x. x.messages) (handle-hydrates b) ∙ hydrate-keeps a q)
  ]
