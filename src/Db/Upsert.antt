-- ===== src/Db/Upsert.antt =====
-- The upsert of models.rs against the rules that its comments give.
use mathlib.Core.Option
use mostrix.Prelude.{
  ℤ, true, false, ◌≡◌, ◌≢◌, refl, ap, sym, ◌∙◌, Option, none, some, List, arith, and_then, ◌⊎◌,
  Bool-cases, inl, inr, Option-cases,
}
use mostrix.Protocol.{Uuid, Keys, Status, SmallOrder}
use mostrix.Db.{Env, Order, get_by_id}
use mostrix.Db.Rows.{upsert_from_small_order_dm, build_order_from_small_order, id_matches}
use mostrix.Db.Frame.{get_by_id-update_db_self, get_by_id-update_db_ne}

-- The status of the row of an order, if there is one.
abbrev pub row_status : Uuid → List Order → Option Status
row_status i rows = and_then (get_by_id i rows) (λ r. r.status)

-- What a DM may not change of a row.
pub record KeepsOwnership (r r' : Order) : Type 0 where
  pub trade_keys : r'.trade_keys ≡ r.trade_keys
  pub is_mine : r'.is_mine ≡ r.is_mine
  pub trade_index : r'.trade_index ≡ r.trade_index
  pub dispute_id : r'.dispute_id ≡ r.dispute_id
  pub solver_pubkey : r'.solver_pubkey ≡ r.solver_pubkey
  pub last_seen_dm_ts : r'.last_seen_dm_ts ≡ r.last_seen_dm_ts

some_eq : {a b : Order} → some a ≡ some b → a ≡ b
some_eq h = cc

own_refl : (r : Order) → KeepsOwnership r r
own_refl r = ground arith

module _ (e : Env) (i : Uuid) (o : SmallOrder) (keys : Keys) (rid : Option ℤ) where
  abbrev upsert : List Order → List Order
  upsert rows = upsert_from_small_order_dm e i o keys rid rows

  abbrev pub built : Option Order → Order
  built existing = build_order_from_small_order e i (record o { id = some i }) keys existing rid

  built-id : (x : Option Order) → (built x).id ≡ i
  unfolding build_order_from_small_order
  built-id x = refl

  -- Without a local row a DM inserts nothing: an insertion needs a trade index.
  pub upsert_missing : (rows : List Order) → get_by_id i rows ≡ none → upsert rows ≡ rows
  unfolding upsert_from_small_order_dm build_order_from_small_order
  upsert_missing rows h = ground arith

  pub upsert_existing :
      (rows : List Order) (r : Order)
      → get_by_id i rows ≡ some r
      → id_matches o.id i ≡ true
      → get_by_id i (upsert rows) ≡ some (built (some r))
  unfolding upsert_from_small_order_dm
  upsert_existing rows r h m =
      rw (h, m)
        (get_by_id-update_db_self i (built (some r)) rows (built-id (some r))
          ∙ ap (Option.map (λ _. built (some r))) h)

  pub upsert_mismatch : (rows : List Order) → id_matches o.id i ≡ false → upsert rows ≡ rows
  unfolding upsert_from_small_order_dm
  upsert_mismatch rows m = rw m

  upsert-cases :
      (rows : List Order)
      → (upsert rows ≡ rows)
        ⊎ ((r : Order) × (get_by_id i rows ≡ some r)
            × (id_matches o.id i ≡ true)
            × (get_by_id i (upsert rows) ≡ some (built (some r))))
  upsert-cases rows = elim (Bool-cases (id_matches o.id i)) [
    | inr m ↦ inl (upsert_mismatch rows m)
    | inl m ↦ elim (Option-cases (get_by_id i rows)) [
      | inl h ↦ inl (upsert_missing rows h)
      | inr (r, h) ↦ inr (r, h, m, upsert_existing rows r h m)
    ]
  ]

  built-ownership : (x r : Order) → x ≡ r → KeepsOwnership r (built (some x))
  unfolding build_order_from_small_order
  built-ownership x r q = ground arith

  -- A DM upsert keeps the row of the order, with its trade keys, role, trade index, dispute, solver
  -- and cursor, whatever its payload says.
  pub upsert-ownership :
      (rows : List Order) (r : Order)
      → get_by_id i rows ≡ some r
      → (r' : Order) × (get_by_id i (upsert rows) ≡ some r') × KeepsOwnership r r'
  upsert-ownership rows r h = elim (upsert-cases rows) [
    | inl same_rows ↦ (r, rw same_rows h, own_refl r)
    | inr (x, hx, m, u) ↦ (built (some x), u, built-ownership x r (some_eq (sym hx ∙ h)))
  ]

  -- Rows of other orders stay as they are.
  pub upsert-frame :
      (j : Uuid) (rows : List Order) → i ≢ j → get_by_id j (upsert rows) ≡ get_by_id j rows
  unfolding upsert_from_small_order_dm
  upsert-frame j rows h = elim (Bool-cases (id_matches o.id i)) [
    | inr m ↦ rw m
    | inl m ↦ elim (Option-cases (get_by_id i rows)) [
      | inl n ↦ ap (get_by_id j) (upsert_missing rows n)
      | inr (r, n) ↦
          rw (m, n) (get_by_id-update_db_ne i j (built (some r)) rows (built-id (some r)) h)
    ]
  ]
