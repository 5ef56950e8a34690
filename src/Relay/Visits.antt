-- ===== src/Relay/Visits.antt =====
-- util/order_utils/relay_order_db_reconcile.rs: the fetches of one targeted tick, and the row of one order.
use mostrix.Prelude.{
  ℕ, ◌≡◌, ◌≢◌, refl, ap, sym, ◌∙◌, true, Option, some, List, [], ◌∷◌, any, ◌==◌, arith, get_elem?,
  Bool-cases, Option-cases, inl, inr, ◌⊎◌, ℕ_discrete,
}
use mostrix.Protocol.{Uuid, Status, SmallOrder}
use mostrix.OrderStatus.{is_terminal_trade_status}
use mostrix.Db.{Order, get_by_id}
use mostrix.Db.Upsert.{row_status}
use mostrix.Relay.{visit, visit_all, is_reconcilable}
use mostrix.Relay.Reconcile.{settled_by, reconcile_settles, reconcile_frame}

-- The row of the order shows the status.
abbrev pub Settled : Uuid → Status → List Order → Type 0
Settled i st rows = row_status i rows ≡ some st

-- The row of the order is one of those to check.
abbrev pub Open : Uuid → List Order → Type 0
Open i rows = (r : Order) × (get_by_id i rows ≡ some r) × (is_reconcilable r ≡ true)

open_gives_way : (r : Order) (st : Status) → is_reconcilable r ≡ true → settled_by r.status st ≡ st
open_gives_way r st h = elim (Option-cases r.status) [
  | inl n ↦ rw n refl
  | inr (c, n) ↦ ground (arith, n, h)
]

-- The relay answers for an order with that order, and for one order with a terminal status.
module _ (fetch : Uuid → Option SmallOrder)
    (named : (a : Uuid) (x : SmallOrder) → fetch a ≡ some x → x.id ≡ some a) (i : Uuid)
    (o : SmallOrder) (st : Status) (got : fetch i ≡ some o) (shown : o.status ≡ some st)
    (t : is_terminal_trade_status st ≡ true) (ids : List Uuid) where
  visit_self :
      (k : ℕ) (rows : List Order) (r : Order)
      → get_by_id i rows ≡ some r
      → settled_by r.status st ≡ st
      → get_elem? ids k ≡ some i
      → Settled i st (visit fetch ids k rows)
  visit_self k rows r h q e =
      rw (visit, e, got) (reconcile_settles o i st rows r (named i o got) shown t h ∙ ap some q)

  visit_other :
      (k : ℕ) (rows : List Order)
      → get_elem? ids k ≢ some i
      → get_by_id i (visit fetch ids k rows) ≡ get_by_id i rows
  visit_other k rows h = elim (Option-cases (get_elem? ids k)) [
    | inl n ↦ rw (visit, n) refl
    | inr (a, n) ↦ elim (Option-cases (fetch a)) [
      | inl m ↦ rw (visit, n, m) refl
      | inr (x, m) ↦
          rw (visit, n, m) (reconcile_frame x i rows (λ e. h (n ∙ (sym (named a x m) ∙ e))))
    ]
  ]

  visited : (k : ℕ) → (get_elem? ids k ≡ some i) ⊎ (get_elem? ids k ≢ some i)
  visited k = elim (Option-cases (get_elem? ids k)) [
    | inl n ↦ inr (λ e. ground (arith, n, e))
    | inr (a, n) ↦ elim (ℕ_discrete a i) [
      | yes e ↦ inl (n ∙ ap some e)
      | no e ↦ inr (λ h. e (ground (arith, n, h)))
    ]
  ]

  visit_keeps :
      (k : ℕ) (rows : List Order) → Settled i st rows → Settled i st (visit fetch ids k rows)
  visit_keeps k rows h = elim (visited k) [
    | inr e ↦ rw (visit_other k rows e) h
    | inl e ↦ elim (Option-cases (get_by_id i rows)) [
      | inl n ↦ ground (arith, n, h)
      | inr (r, n) ↦
          let s : r.status ≡ some st = ground (arith, n, h) in
          visit_self k rows r n (rw s (ground arith)) e
    ]
  ]

  pub visit_all_keeps :
      (ks : List ℕ) (rows : List Order)
      → Settled i st rows
      → Settled i st (visit_all fetch ids ks rows)
  unfolding visit_all
  visit_all_keeps [] rows h = h
  visit_all_keeps (k ∷ ks) rows h =
      visit_all_keeps ks (visit fetch ids k rows) (visit_keeps k rows h)

  visit_cases :
      (k : ℕ) (rows : List Order)
      → Open i rows
      → Open i (visit fetch ids k rows) ⊎ Settled i st (visit fetch ids k rows)
  visit_cases k rows (r, h, q) = elim (visited k) [
    | inl e ↦ inr (visit_self k rows r h (open_gives_way r st q) e)
    | inr e ↦ inl (r, visit_other k rows e ∙ h, q)
  ]

  pub visit_all_cases :
      (ks : List ℕ) (rows : List Order)
      → Open i rows
      → Open i (visit_all fetch ids ks rows) ⊎ Settled i st (visit_all fetch ids ks rows)
  unfolding visit_all
  visit_all_cases [] rows w = inl w
  visit_all_cases (k ∷ ks) rows w = elim (visit_cases k rows w) [
    | inl v ↦ visit_all_cases ks (visit fetch ids k rows) v
    | inr h ↦ inr (visit_all_keeps ks (visit fetch ids k rows) h)
  ]

  pub visit_all_settles :
      (j : ℕ) (ks : List ℕ) (rows : List Order)
      → Open i rows
      → get_elem? ids j ≡ some i
      → any (λ k. k == j) ks ≡ true
      → Settled i st (visit_all fetch ids ks rows)
  unfolding visit_all
  visit_all_settles j [] rows w p h = cc
  visit_all_settles j (k ∷ ks) rows (r, g, o) p h = elim (Bool-cases (k == j)) [
    | inl q ↦
        let e : k ≡ j = ground (arith, q) in
        visit_all_keeps ks (visit fetch ids k rows)
          (visit_self k rows r g (open_gives_way r st o) (rw e p))
    | inr q ↦ elim (visit_cases k rows (r, g, o)) [
      | inl v ↦ visit_all_settles j ks (visit fetch ids k rows) v p (ground (arith, q, h))
      | inr s ↦ visit_all_keeps ks (visit fetch ids k rows) s
    ]
  ]
