-- ===== src/Db/Frame.antt =====
-- The table of models.rs: its writers, and the rows of other keys.
use mathlib.Core.Option
use mostrix.Prelude.{◌≡◌, ◌≢◌, refl, sym, ◌∙◌, none, List, [], ◌∷◌, arith, inl, inr, Option-cases}
use mostrix.Protocol.{Uuid}
use mostrix.Db.{Order, get_by_id, update_where, update_db, insert_or_update, delete_order_by_id}

-- An update that keeps the key of the rows that it rewrites.
abbrev pub KeepsKey : Uuid → (Order → Order) → Type 0
KeepsKey i f = (r : Order) → r.id ≡ i → (f r).id ≡ i

module _ (i : Uuid) (f : Order → Order) (keep : KeepsKey i f) where
  pub get_by_id-update_self :
      (rows : List Order) → get_by_id i (update_where i f rows) ≡ Option.map f (get_by_id i rows)
  unfolding get_by_id update_where
  get_by_id-update_self [] = refl
  get_by_id-update_self (r ∷ rs) = ground (arith, keep r, get_by_id-update_self rs)

  pub get_by_id-update_ne :
      (j : Uuid) (rows : List Order)
      → i ≢ j
      → get_by_id j (update_where i f rows) ≡ get_by_id j rows
  unfolding get_by_id update_where
  get_by_id-update_ne j [] h = refl
  get_by_id-update_ne j (r ∷ rs) h = ground (arith, keep r, get_by_id-update_ne j rs h)

pub get_by_id-update_db_self :
    (i : Uuid) (o : Order) (rows : List Order)
    → o.id ≡ i
    → get_by_id i (update_db o rows) ≡ Option.map (λ _. o) (get_by_id i rows)
get_by_id-update_db_self i o rows e =
    rw (← e) (get_by_id-update_self o.id (λ _. o) (λ r h. refl) rows)

pub get_by_id-update_db_ne :
    (i j : Uuid) (o : Order) (rows : List Order)
    → o.id ≡ i
    → i ≢ j
    → get_by_id j (update_db o rows) ≡ get_by_id j rows
get_by_id-update_db_ne i j o rows e h =
    get_by_id-update_ne o.id (λ _. o) (λ r k. refl) j rows (λ k. h (sym e ∙ k))

pub get_by_id-delete_self :
    (i : Uuid) (rows : List Order) → get_by_id i (delete_order_by_id i rows) ≡ none
unfolding get_by_id delete_order_by_id
get_by_id-delete_self i [] = refl
get_by_id-delete_self i (r ∷ rs) = ground (arith, get_by_id-delete_self i rs)

pub get_by_id-delete_ne :
    (i j : Uuid) (rows : List Order)
    → i ≢ j
    → get_by_id j (delete_order_by_id i rows) ≡ get_by_id j rows
unfolding get_by_id delete_order_by_id
get_by_id-delete_ne i j [] h = refl
get_by_id-delete_ne i j (r ∷ rs) h = ground (arith, get_by_id-delete_ne i j rs h)

pub get_by_id-insert_ne :
    (o : Order) (j : Uuid) (rows : List Order)
    → o.id ≢ j
    → get_by_id j (insert_or_update o rows) ≡ get_by_id j rows
unfolding insert_or_update
get_by_id-insert_ne o j rows h = elim (Option-cases (get_by_id o.id rows)) [
  | inl e ↦ rw e (unfold get_by_id in ground arith)
  | inr (r, e) ↦ rw e (get_by_id-update_ne o.id (λ _. o) (λ r h. refl) j rows h)
]
