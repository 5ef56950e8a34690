-- ===== src/Relay/Reconcile.antt =====
-- util/order_utils/relay_order_db_reconcile.rs: what a relay order does to the local table.
use mostrix.Prelude.{
  ◌≡◌, ◌≢◌, refl, ap, subst, ◌∙◌, true, false, Option, none, some, List, [], ◌∷◌, ◌++◌, arith,
  Bool-cases, Option-cases, inl, inr, ◌⊎◌, or, if◌then◌else◌, and_then,
}
use mostrix.Protocol.{Uuid, Kind, Status, SmallOrder}
use mostrix.OrderStatus.{is_terminal_trade_status, should_apply_status_transition}
use mostrix.OrderStatus.Guard.{should_apply_terminal}
use mostrix.Db.{Order, get_by_id, update_status}
use mostrix.Db.Frame.{get_by_id-update_ne, get_by_id-update_self}
use mostrix.Db.Upsert.{row_status}
use mostrix.Relay.{reconcile_one_order_if_terminal, reconcile_terminal_order_statuses_from_relay}

-- A status that is terminal stays; any other, or none, gives way to the relay's terminal status.
abbrev pub settled_by : Option Status → Status → Status
settled_by none c = c
settled_by (some st) c = if is_terminal_trade_status st then st else c

module _ (o : SmallOrder) (i : Uuid) (c : Status) (rows : List Order) (r : Order)
    (named : o.id ≡ some i) (shown : o.status ≡ some c) (t : is_terminal_trade_status c ≡ true)
    (h : get_by_id i rows ≡ some r) where
  updated : row_status i (update_status i c rows) ≡ some c
  unfolding update_status
  updated = rw (get_by_id-update_self i (λ r. record r { status = some c }) (λ r k. k) rows, h) refl

  accepts-terminal :
      (k : Option Kind)
      → (should_apply_status_transition r.status c k ≡ true)
        ⊎ ((should_apply_status_transition r.status c k ≡ false)
            × ((st : Status) × (r.status ≡ some st) × (is_terminal_trade_status st ≡ true)))
  accepts-terminal k = elim (Bool-cases (should_apply_status_transition r.status c k)) [
    | inl a ↦ inl a
    | inr a ↦ elim (Option-cases r.status) [
      | inl n ↦ unfold should_apply_status_transition in ground (arith, n, a)
      | inr (st, n) ↦ elim (Bool-cases (is_terminal_trade_status st)) [
        | inl u ↦ inr (a, (st, n, u))
        | inr u ↦ ground (arith, (should_apply_terminal st c k).1 u t, a, n)
      ]
    ]
  ]

  keeps-terminal :
      (k : Option Kind) (st : Status)
      → r.status ≡ some st
      → is_terminal_trade_status st ≡ true
      → should_apply_status_transition r.status c k ≡ true
      → st ≡ c
  keeps-terminal k st n u a =
      ((should_apply_terminal st c k).0 u).0
        (subst (λ x. should_apply_status_transition x c k ≡ true) n a)

  -- An accepted candidate is what the row settles at.
  settles :
      (k : Option Kind)
      → should_apply_status_transition r.status c k ≡ true
      → settled_by r.status c ≡ c
  settles k a = elim (Option-cases r.status) [
    | inl n ↦ ground (arith, n)
    | inr (st, n) ↦ elim (Bool-cases (is_terminal_trade_status st)) [
      | inl u ↦ ground (arith, n, u, keeps-terminal k st n u a)
      | inr u ↦ ground (arith, n, u)
    ]
  ]

  same-status : row_status i rows ≡ r.status
  same-status = rw h refl

  -- A terminal relay order settles the row of its order: a status that is terminal stays, and any
  -- other, or none, becomes the relay's.
  pub reconcile_settles :
      row_status i (reconcile_one_order_if_terminal o rows) ≡ some (settled_by r.status c)
  unfolding reconcile_one_order_if_terminal
  reconcile_settles = elim (accepts-terminal (or o.kind r.kind)) [
    | inl a ↦
        let p : row_status i (reconcile_one_order_if_terminal o rows) ≡ some c =
          ground (arith, named, shown, t, h, a, updated) in
        p ∙ ground (arith, settles (or o.kind r.kind) a)
    | inr (a, (st, n, u)) ↦
        let p : row_status i (reconcile_one_order_if_terminal o rows) ≡ some st =
          ground (arith, named, shown, t, h, a, same-status, n) in
        p ∙ ground (arith, n, u)
  ]

-- The rows of other orders stay as they are.
pub reconcile_frame :
    (o : SmallOrder) (j : Uuid) (rows : List Order)
    → o.id ≢ some j
    → get_by_id j (reconcile_one_order_if_terminal o rows) ≡ get_by_id j rows
unfolding reconcile_one_order_if_terminal update_status
reconcile_frame o j rows h = elim (Option-cases o.id) [
  | inl n ↦ ground (arith, n)
  | inr (i, n) ↦ elim (Option-cases o.status) [
    | inl m ↦ ground (arith, m)
    | inr (c, m) ↦
        let other : i ≢ j = λ e. h (n ∙ ap some e) in
        ground (
          arith,
          n,
          m,
          get_by_id-update_ne i (λ r. record r { status = some c }) (λ r k. k) j rows other,
        )
  ]
]

-- The relay orders that a row's order is not among.
abbrev pub NoneFor : Uuid → List SmallOrder → Type 0
NoneFor j [] = Unit
NoneFor j (o ∷ os) = (o.id ≢ some j) × NoneFor j os

others_frame :
    (os : List SmallOrder) (j : Uuid) (rows : List Order)
    → NoneFor j os
    → get_by_id j (reconcile_terminal_order_statuses_from_relay os rows) ≡ get_by_id j rows
unfolding reconcile_terminal_order_statuses_from_relay
others_frame [] j rows h = refl
others_frame (o ∷ os) j rows (h, k) =
    others_frame os j (reconcile_one_order_if_terminal o rows) k ∙ reconcile_frame o j rows h

frames :
    (os : List SmallOrder) (i : Uuid) (rows : List Order)
    → NoneFor i os
    → row_status i (reconcile_terminal_order_statuses_from_relay os rows) ≡ row_status i rows
frames os i rows h = ap (λ x. and_then x (λ (r : Order). r.status)) (others_frame os i rows h)

-- Wherever the order of a row stands among the relay's orders, each order once, the row settles at the
-- same status: the iteration order of the map does not matter.
pub reconcile_any_position :
    (pre post : List SmallOrder) (o : SmallOrder) (i : Uuid) (c : Status) (rows : List Order)
    (r : Order)
    → o.id ≡ some i
    → o.status ≡ some c
    → is_terminal_trade_status c ≡ true
    → get_by_id i rows ≡ some r
    → NoneFor i pre
    → NoneFor i post
    → row_status i (reconcile_terminal_order_statuses_from_relay (pre ++ o ∷ post) rows)
      ≡ some (settled_by r.status c)
unfolding reconcile_terminal_order_statuses_from_relay
reconcile_any_position [] post o i c rows r n m t h a b =
    frames post i (reconcile_one_order_if_terminal o rows) b
    ∙ reconcile_settles o i c rows r n m t h
reconcile_any_position (x ∷ xs) post o i c rows r n m t h (a, as_) b =
    reconcile_any_position xs post o i c (reconcile_one_order_if_terminal x rows) r n m t
      (reconcile_frame x i rows a ∙ h) as_ b
