-- ===== src/Relay/Book.antt =====
-- util/order_utils/helper.rs: the lists of orders that the order book shows, filtered and newest
-- first. The `HashMap` of the aggregate is a list here, in the order in which it is iterated.
pub mod Sorting
use mostrix.Prelude.{
  ℕ, String, Bool, true, false, Option, none, some, List, [], ◌∷◌, map, retain, any, is_some_and,
  str_eq, leb, same, if◌then◌else◌,
}
use mostrix.Protocol.{Uuid, Kind, Kind-discrete, Status, Status-discrete, SmallOrder}
use mostrix.Relay.{OrderEvent, aggregate_latest_orders_by_id}

-- `status.map(|s| o.status == Some(s)).unwrap_or(true)`
abbrev pub has_status : Option Status → SmallOrder → Bool
has_status none o = true
has_status (some s) o = is_some_and o.status (λ t. same Status-discrete t s)

-- An empty list of currencies is no filter.
abbrev pub has_currency : Option (List String) → SmallOrder → Bool
has_currency none o = true
has_currency (some []) o = true
has_currency (some (c ∷ cs)) o = any (λ x. str_eq x o.fiat_code) (c ∷ cs)

-- `kind.map(|k| o.kind == Some(k)).unwrap_or(true)`
abbrev pub has_kind : Option Kind → SmallOrder → Bool
has_kind none o = true
has_kind (some k) o = is_some_and o.kind (λ l. same Kind-discrete l k)

-- The order of `Option<i64>`: `None` is before every time.
abbrev pub not_later : Option ℕ → Option ℕ → Bool
not_later none y = true
not_later (some a) none = false
not_later (some a) (some b) = leb a b

-- `sort_by_key(|b| Reverse(b.created_at))`, a stable sort: an order goes before those that are not later.
unfoldable pub insert_newest : SmallOrder → List SmallOrder → List SmallOrder
insert_newest o [] = o ∷ []
insert_newest o (x ∷ xs) =
    let rest = insert_newest o xs in
    if not_later x.created_at o.created_at then o ∷ x ∷ xs else x ∷ rest

unfoldable pub sort_newest : List SmallOrder → List SmallOrder
sort_newest [] = []
sort_newest (o ∷ os) = insert_newest o (sort_newest os)

abbrev pub values : List (Uuid × SmallOrder) → List SmallOrder
values latest = map (λ x. x.1) latest

unfoldable pub parse_orders_events :
    List OrderEvent → Option (List String) → Option Status → Option Kind → List SmallOrder
parse_orders_events evs currencies status kind = sort_newest (
    retain (has_kind kind) (
      retain (has_currency currencies)
        (retain (has_status status) (values (aggregate_latest_orders_by_id evs)))))

abbrev is_pending_in : Option (List String) → SmallOrder → Bool
is_pending_in currencies o =
    if is_some_and o.status (λ t. same Status-discrete t Status.pending)
    then has_currency currencies o
    else false

unfoldable pub pending_orders_for_book :
    List (Uuid × SmallOrder) → Option (List String) → List SmallOrder
pending_orders_for_book latest currencies =
    sort_newest (retain (is_pending_in currencies) (values latest))
