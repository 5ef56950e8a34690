-- ===== src/Relay/Fairness.antt =====
-- util/order_utils/relay_order_db_reconcile.rs: targeted ticks, one after the other, and one order.
use mostrix.Prelude.{
  ℕ, suc, zero, ◌+◌, ◌%◌, ◌≤◌, ◌<◌, ◌≡◌, refl, true, Option, some, List, arith, length, get_elem?,
  inl, inr, subst, dec_lt,
}
use mostrix.Protocol.{Uuid, Status, SmallOrder}
use mostrix.OrderStatus.{is_terminal_trade_status}
use mostrix.Db.{Order, get_by_id}
use mostrix.Db.Upsert.{row_status}
use mostrix.Relay.{
  is_reconcilable, list_ids_for_targeted_relay_reconcile, window, visit_all,
  run_targeted_relay_order_db_reconcile_tick,
}
use mostrix.Relay.Cursor.{take_of, visits, next_cursor, cursor_after, cursor_reaches}
use mostrix.Relay.Listing.{listed, visit_all-Shrinks}
use mostrix.Relay.Visits.{Settled, Open, visit_all_keeps, visit_all_cases, visit_all_settles}

abbrev to_check : List Order → List Uuid
to_check = list_ids_for_targeted_relay_reconcile

-- The positions that a tick on `len` orders fetches.
abbrev tick_window : ℕ → ℕ → List ℕ
tick_window cursor len = window (cursor % len) len 0 (take_of len)

-- Enough ticks for a list of that length, which may lose its orders one by one: 1 + 2 + … + len.
abbrev pub enough_ticks : ℕ → ℕ
enough_ticks zero = 0
enough_ticks (suc len) = suc len + enough_ticks len

-- Ticks one after the other, each on the table and at the cursor that the one before it left.
module _ (fetch : Uuid → Option SmallOrder) where
  abbrev pub run_ticks : ℕ → ℕ → List Order → List Order
  run_ticks zero cursor rows = rows
  run_ticks (suc n) cursor rows =
      let t = run_targeted_relay_order_db_reconcile_tick fetch cursor rows in run_ticks n t.1 t.0

  tick-visits :
      (cursor : ℕ) (rows : List Order)
      → 0 < length (to_check rows)
      → run_targeted_relay_order_db_reconcile_tick fetch cursor rows ≡ (
        visit_all fetch (to_check rows) (tick_window cursor (length (to_check rows))) rows,
        next_cursor (length (to_check rows)) cursor,
      )
  unfolding run_targeted_relay_order_db_reconcile_tick
  tick-visits cursor rows h = ground (arith, h)

  tick-empty :
      (cursor : ℕ) (rows : List Order)
      → length (to_check rows) ≡ 0
      → run_targeted_relay_order_db_reconcile_tick fetch cursor rows ≡ (rows, cursor)
  unfolding run_targeted_relay_order_db_reconcile_tick
  tick-empty cursor rows h = ground (arith, h)

module _ (fetch : Uuid → Option SmallOrder)
    (named : (a : Uuid) (x : SmallOrder) → fetch a ≡ some x → x.id ≡ some a) (i : Uuid)
    (o : SmallOrder) (st : Status) (got : fetch i ≡ some o) (shown : o.status ≡ some st)
    (t : is_terminal_trade_status st ≡ true) where
  tick_keeps :
      (c : ℕ) (rows : List Order)
      → Settled i st rows
      → Settled i st (run_targeted_relay_order_db_reconcile_tick fetch c rows).0
  tick_keeps c rows h = elim (dec_lt 0 (length (to_check rows))) [
    | no l ↦ rw (tick-empty fetch c rows (omega (arith, l))) h
    | yes l ↦ rw (tick-visits fetch c rows l) (
        visit_all_keeps fetch named i o st got shown t (to_check rows)
          (tick_window c (length (to_check rows))) rows h)
  ]

  run_keeps :
      (n c : ℕ) (rows : List Order) → Settled i st rows → Settled i st (run_ticks fetch n c rows)
  run_keeps zero c rows h = h
  run_keeps (suc n) c rows h =
      let x = run_targeted_relay_order_db_reconcile_tick fetch c rows in
      run_keeps n x.1 x.0 (tick_keeps c rows h)

  -- Every longer run on a shorter list settles the row.
  abbrev SettlesBelow : ℕ → ℕ → Type 0
  SettlesBelow len least =
      (n c : ℕ) (rows : List Order)
      → least ≤ n
      → Open i rows
      → length (to_check rows) < len
      → Settled i st (run_ticks fetch n c rows)

  -- Until the cursor reaches the order, each tick keeps the list or makes it shorter.
  module _ (ids : List Uuid) (j least : ℕ) (h : j < length ids) (p : get_elem? ids j ≡ some i)
      (shorter : SettlesBelow (length ids) least) where
    run_reaches :
        (k n c : ℕ) (rows : List Order)
        → suc k + least ≤ n
        → to_check rows ≡ ids
        → Open i rows
        → visits j (cursor_after (length ids) k c) (length ids) ≡ true
        → Settled i st (run_ticks fetch n c rows)
    run_reaches k zero c rows l e w v = absurd (omega (arith, l))
    run_reaches zero (suc n) c rows l e w v =
        let f : 0 < length (to_check rows) = rw e (omega (arith, h)) in
        rw (tick-visits fetch c rows f, e)
          (run_keeps n (next_cursor (length ids) c)
            (visit_all fetch ids (tick_window c (length ids)) rows)
            (visit_all_settles fetch named i o st got shown t ids j (tick_window c (length ids))
              rows w p v))
    run_reaches (suc k) (suc n) c rows l e w v =
        let f : 0 < length (to_check rows) = rw e (omega (arith, h)) in
        let ks = tick_window c (length ids) in
        let next = next_cursor (length ids) c in
        let rows' = visit_all fetch ids ks rows in
        rw (tick-visits fetch c rows f, e)
          (elim (visit_all_cases fetch named i o st got shown t ids ks rows w) [
            | inr s ↦ run_keeps n next rows' s
            | inl u ↦ elim (visit_all-Shrinks fetch ids ks rows) [
              | inl q ↦ run_reaches k n next rows' (omega (arith, l)) (rw q e) u v
              | inr q ↦
                  shorter n next rows' (omega (arith, l)) u
                    (subst (λ x. length (to_check rows') < length x) e q)
            ]
          ])

  settles_below : (len : ℕ) → SettlesBelow (suc len) (enough_ticks len)
  settles_below zero n c rows l (r, g, q) k =
      let x = listed i r rows g q in absurd (omega (arith, x.1, k))
  settles_below (suc len) n c rows l (r, g, q) k =
      let (j, h, p) = listed i r rows g q in
      let x = cursor_reaches (length (to_check rows)) j h c in
      run_reaches (to_check rows) j (enough_ticks len) h p
        (λ m d rs b u v. settles_below len m d rs b u (omega (arith, v, k))) x.0 n c rows
        (omega (arith, x.1, k, l)) refl (r, g, q) x.2

  -- If what the relay answers for an order has that order's id, and it answers for one order with a
  -- terminal status, the same at every tick, then a run of 1 + 2 + … + len or more targeted ticks, from
  -- any cursor and on any table with len orders to check, that one among them, with no other write in
  -- between, ends with that status in the order's row, whatever is answered for the others.
  pub round_robin :
      (n c : ℕ) (rows : List Order) (r : Order)
      → get_by_id i rows ≡ some r
      → is_reconcilable r ≡ true
      → enough_ticks (length (list_ids_for_targeted_relay_reconcile rows)) ≤ n
      → row_status i (run_ticks fetch n c rows) ≡ some st
  round_robin n c rows r g q l =
      settles_below (length (to_check rows)) n c rows l (r, g, q) (omega arith)
