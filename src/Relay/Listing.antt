-- ===== src/Relay/Listing.antt =====
-- models.rs (`list_ids_for_targeted_relay_reconcile`): the orders to check, before and after a tick.
use mostrix.Prelude.{
  ℕ, suc, zero, ◌<◌, ◌≤◌, ◌≡◌, refl, sym, ◌∙◌, true, Option, some, List, [], ◌∷◌, ◌==◌, arith,
  length, get_elem?, leb, Bool-cases, Option-cases, inl, inr, ◌⊎◌, subst, or,
}
use mostrix.Protocol.{Uuid, Status, SmallOrder}
use mostrix.OrderStatus.{is_terminal_trade_status, should_apply_status_transition}
use mostrix.Db.{Order, get_by_id, update_status, update_where}
use mostrix.Relay.{
  insert_id, is_reconcilable, list_ids_for_targeted_relay_reconcile, visit, visit_all,
  reconcile_one_order_if_terminal,
}

-- Where an id stands in a list.
abbrev pub At : Uuid → List Uuid → Type 0
At i ids = (j : ℕ) × (j < length ids) × (get_elem? ids j ≡ some i)

At-cons : (i k : Uuid) (ids : List Uuid) → At i ids → At i (k ∷ ids)
At-cons i k ids (j, h, e) = (suc j, omega (arith, h), e)

At-insert_self : (i : Uuid) (ids : List Uuid) → At i (insert_id i ids)
At-insert_self i [] = (0, omega arith, refl)
At-insert_self i (j ∷ js) = elim (Bool-cases (leb i j)) [
  | inl q ↦ rw q (0, omega arith, refl)
  | inr q ↦ rw q (At-cons i j (insert_id i js) (At-insert_self i js))
]

At-insert : (i k : Uuid) (ids : List Uuid) → At i ids → At i (insert_id k ids)
At-insert i k [] (j, h, e) = absurd (omega (arith, h))
At-insert i k (x ∷ xs) (zero, h, e) = elim (Bool-cases (leb k x)) [
  | inl q ↦ rw q (At-cons i k (x ∷ xs) (0, h, e))
  | inr q ↦ rw q (0, omega arith, e)
]
At-insert i k (x ∷ xs) (suc j, h, e) =
    let a = At-insert i k xs (j, omega (arith, h), e) in
    elim (Bool-cases (leb k x)) [
      | inl q ↦ rw q (At-cons i k (x ∷ xs) (suc j, h, e))
      | inr q ↦ rw q (At-cons i x (insert_id k xs) a)
    ]

-- A row that is to be checked has its id in the list.
pub listed :
    (i : Uuid) (r : Order) (rows : List Order)
    → get_by_id i rows ≡ some r
    → is_reconcilable r ≡ true
    → At i (list_ids_for_targeted_relay_reconcile rows)
unfolding get_by_id list_ids_for_targeted_relay_reconcile
listed i r [] h q = cc
listed i r (x ∷ xs) h q = elim (Bool-cases (x.id == i)) [
  | inl e ↦
      let same_row : x ≡ r = ground (arith, e, h) in
      let same_id : x.id ≡ i = ground (arith, e) in
      let rest = list_ids_for_targeted_relay_reconcile xs in
      rw (subst (λ y. is_reconcilable y ≡ true) (sym same_row) q)
        (rw same_id (At-insert_self i rest))
  | inr e ↦
      let a = listed i r xs (ground (arith, e, h)) q in
      elim (Bool-cases (is_reconcilable x)) [
        | inl k ↦ rw k (At-insert i x.id (list_ids_for_targeted_relay_reconcile xs) a)
        | inr k ↦ rw k a
      ]
]

-- The list stays as it is, or has fewer orders.
abbrev pub Shrinks : List Order → List Order → Type 0
Shrinks rows rows' =
    let before = list_ids_for_targeted_relay_reconcile rows in
    let after = list_ids_for_targeted_relay_reconcile rows' in
    (after ≡ before) ⊎ (length after < length before)

Shrinks-trans : (xs ys zs : List Order) → Shrinks xs ys → Shrinks ys zs → Shrinks xs zs
Shrinks-trans xs ys zs (inl e) (inl k) = inl (k ∙ e)
Shrinks-trans xs ys zs (inl e) (inr l) = inr (rw (← e) l)
Shrinks-trans xs ys zs (inr h) (inl k) = inr (rw k h)
Shrinks-trans xs ys zs (inr h) (inr l) = inr (omega (arith, h, l))

length-insert_id : (i : Uuid) (ids : List Uuid) → length (insert_id i ids) ≡ suc (length ids)
length-insert_id i [] = refl
length-insert_id i (j ∷ js) = ground (arith, length-insert_id i js)

-- A terminal status takes the rows of its order from the list.
closing-Shrinks :
    (k : Uuid) (c : Status) (rows : List Order)
    → is_terminal_trade_status c ≡ true
    → Shrinks rows (update_where k (λ r. record r { status = some c }) rows)
unfolding list_ids_for_targeted_relay_reconcile update_where
closing-Shrinks k c [] t = inl refl
closing-Shrinks k c (x ∷ xs) t =
    let rest = list_ids_for_targeted_relay_reconcile xs in
    let rest' =
      list_ids_for_targeted_relay_reconcile
        (update_where k (λ r. record r { status = some c }) xs) in
    let n = length-insert_id x.id rest in
    let m = length-insert_id x.id rest' in
    let le : length rest' ≤ length rest = elim (closing-Shrinks k c xs t) [
      | inl e ↦ rw e (omega arith)
      | inr h ↦ omega (arith, h)
    ] in
    elim (Bool-cases (x.id == k)) [
      | inl q ↦ elim (Bool-cases (is_reconcilable x)) [
        | inl w ↦ inr (ground (arith, q, w, t, n, le))
        | inr w ↦ ground (arith, q, w, t, closing-Shrinks k c xs t)
      ]
      | inr q ↦ elim (Bool-cases (is_reconcilable x)) [
        | inl w ↦ elim (closing-Shrinks k c xs t) [
          | inl e ↦ inl (ground (arith, q, w, e))
          | inr h ↦ inr (ground (arith, q, w, h, n, m))
        ]
        | inr w ↦ ground (arith, q, w, closing-Shrinks k c xs t)
      ]
    ]

reconcile-Shrinks :
    (o : SmallOrder) (rows : List Order) → Shrinks rows (reconcile_one_order_if_terminal o rows)
unfolding reconcile_one_order_if_terminal update_status
reconcile-Shrinks o rows = elim (Option-cases o.status) [
  | inl n ↦ inl (ground (arith, n))
  | inr (c, n) ↦ elim (Bool-cases (is_terminal_trade_status c)) [
    | inr q ↦ inl (ground (arith, n, q))
    | inl q ↦ elim (Option-cases o.id) [
      | inl m ↦ inl (ground (arith, n, m, q))
      | inr (k, m) ↦ elim (Option-cases (get_by_id k rows)) [
        | inl e ↦ inl (ground (arith, n, m, q, e))
        | inr (r, e) ↦
            elim (Bool-cases (should_apply_status_transition r.status c (or o.kind r.kind))) [
              | inr a ↦ inl (ground (arith, n, m, q, e, a))
              | inl a ↦ rw (n, q, m, e, a) (closing-Shrinks k c rows q)
            ]
      ]
    ]
  ]
]

module _ (fetch : Uuid → Option SmallOrder) (ids : List Uuid) where
  visit-Shrinks : (k : ℕ) (rows : List Order) → Shrinks rows (visit fetch ids k rows)
  visit-Shrinks k rows = elim (Option-cases (get_elem? ids k)) [
    | inl n ↦ rw (visit, n) (inl refl)
    | inr (a, n) ↦ elim (Option-cases (fetch a)) [
      | inl m ↦ rw (visit, n, m) (inl refl)
      | inr (x, m) ↦ rw (visit, n, m) (reconcile-Shrinks x rows)
    ]
  ]

  pub visit_all-Shrinks :
      (ks : List ℕ) (rows : List Order) → Shrinks rows (visit_all fetch ids ks rows)
  unfolding visit_all
  visit_all-Shrinks [] rows = inl refl
  visit_all-Shrinks (k ∷ ks) rows =
      Shrinks-trans rows (visit fetch ids k rows) (visit_all fetch ids (k ∷ ks) rows)
        (visit-Shrinks k rows) (visit_all-Shrinks ks (visit fetch ids k rows))
