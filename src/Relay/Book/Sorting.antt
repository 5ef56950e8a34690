-- ===== src/Relay/Book/Sorting.antt =====
-- util/order_utils/helper.rs: what `parse_orders_events` and `pending_orders_for_book` show, in which order.
use mostrix.Prelude.{
  ℕ, String, Bool, true, false, not, ◌&&◌, ◌≡◌, refl, ap, ◌∙◌, Option, none, some, List, [], ◌∷◌,
  retain, count, arith, Bool-cases, inl, inr, if◌then◌else◌, is_some_and, same,
}
use mostrix.Protocol.{Kind, Status, Status-discrete, SmallOrder}
use mostrix.Relay.{OrderEvent, aggregate_latest_orders_by_id}
use mostrix.Relay.Book.{
  has_status, has_currency, has_kind, not_later, insert_newest, sort_newest, values,
  parse_orders_events, pending_orders_for_book,
}

abbrev pub is_later : SmallOrder → SmallOrder → Bool
is_later x y = not (not_later y.created_at x.created_at)

-- No order stands after one that is older.
unfoldable pub NewestFirst : List SmallOrder → Type 0
NewestFirst [] = Unit
NewestFirst (x ∷ xs) = (count (is_later x) xs ≡ 0) × NewestFirst xs

abbrev pub is_shown : Option (List String) → Option Status → Option Kind → SmallOrder → Bool
is_shown currencies status kind o =
    has_status status o && has_currency currencies o && has_kind kind o

not_later_trans :
    (a b c : Option ℕ) → not_later a b ≡ true → not_later b c ≡ true → not_later a c ≡ true
not_later_trans none b c h k = refl
not_later_trans (some a) none c h k = cc
not_later_trans (some a) (some b) none h k = cc
not_later_trans (some a) (some b) (some c) h k = ground (arith, h, k)

not_later_total : (a b : Option ℕ) → not_later a b ≡ false → not_later b a ≡ true
not_later_total none b h = cc
not_later_total (some a) none h = refl
not_later_total (some a) (some b) h = ground (arith, h)

count-insert :
    (p : SmallOrder → Bool) (o : SmallOrder) (xs : List SmallOrder)
    → count p (insert_newest o xs) ≡ count p (o ∷ xs)
unfolding insert_newest
count-insert p o [] = refl
count-insert p o (x ∷ xs) = ground (arith, count-insert p o xs)

pub count-sort :
    (p : SmallOrder → Bool) (xs : List SmallOrder) → count p (sort_newest xs) ≡ count p xs
unfolding sort_newest
count-sort p [] = refl
count-sort p (x ∷ xs) = ground (arith, count-insert p x (sort_newest xs), count-sort p xs)

none_later :
    (x o : SmallOrder) (xs : List SmallOrder)
    → not_later x.created_at o.created_at ≡ true
    → count (is_later x) xs ≡ 0
    → count (is_later o) xs ≡ 0
none_later x o [] h k = refl
none_later x o (y ∷ ys) h k =
    ground
      (arith, h, k, none_later x o ys h, not_later_trans y.created_at x.created_at o.created_at)

NewestFirst-insert :
    (o : SmallOrder) (xs : List SmallOrder) → NewestFirst xs → NewestFirst (insert_newest o xs)
unfolding NewestFirst insert_newest
NewestFirst-insert o [] h = (refl, tt)
NewestFirst-insert o (x ∷ xs) (a, h) = elim (Bool-cases (not_later x.created_at o.created_at)) [
  | inl q ↦ rw q (ground (arith, q, none_later x o xs q a), (a, h))
  | inr q ↦
      let t = not_later_total x.created_at o.created_at q in
      let c : count (is_later x) (insert_newest o xs) ≡ 0 =
        count-insert (is_later x) o xs ∙ ground (arith, t, a) in
      rw q (c, NewestFirst-insert o xs h)
]

NewestFirst-sort : (xs : List SmallOrder) → NewestFirst (sort_newest xs)
unfolding NewestFirst sort_newest
NewestFirst-sort [] = tt
NewestFirst-sort (x ∷ xs) = NewestFirst-insert x (sort_newest xs) (NewestFirst-sort xs)

retain_thrice :
    (p a b c : SmallOrder → Bool) (xs : List SmallOrder)
    → count p (retain c (retain b (retain a xs))) ≡ count (λ o. (a o && b o && c o) && p o) xs
retain_thrice p a b c [] = refl
retain_thrice p a b c (x ∷ xs) = ground (arith, retain_thrice p a b c xs)

-- The list is newest first, and it shows each order of the aggregate that passes the three filters,
-- as often as it is there, and nothing else: whatever is counted in it, the numbers are the same.
pub parse_orders_events-shows :
    (evs : List OrderEvent) (currencies : Option (List String)) (status : Option Status)
    (kind : Option Kind) (p : SmallOrder → Bool)
    → NewestFirst (parse_orders_events evs currencies status kind)
      × (count p (parse_orders_events evs currencies status kind)
          ≡ count
              (λ o. is_shown currencies status kind o && p o)
              (values (aggregate_latest_orders_by_id evs)))
unfolding parse_orders_events
parse_orders_events-shows evs currencies status kind p =
    let all = values (aggregate_latest_orders_by_id evs) in
    let kept =
      retain (has_kind kind) (retain (has_currency currencies) (retain (has_status status) all)) in
    (
      NewestFirst-sort kept,
      count-sort p kept
          ∙ retain_thrice p (has_status status) (has_currency currencies) (has_kind kind) all,
    )

retain_pending :
    (currencies : Option (List String)) (xs : List SmallOrder)
    → retain
        (λ o.
          if is_some_and o.status (λ t. same Status-discrete t Status.pending)
          then has_currency currencies o
          else false)
        xs
      ≡ retain
          (has_kind none)
          (retain (has_currency currencies) (retain (has_status (some Status.pending)) xs))
retain_pending currencies [] = refl
retain_pending currencies (x ∷ xs) = ground (arith, retain_pending currencies xs)

-- The order book that is drawn from an aggregate is the list that `parse_orders_events` makes of the
-- same events for pending orders of every kind, if both iterate the aggregate in the same order.
pub book_agrees :
    (evs : List OrderEvent) (currencies : Option (List String))
    → pending_orders_for_book (aggregate_latest_orders_by_id evs) currencies
      ≡ parse_orders_events evs currencies (some Status.pending) none
unfolding parse_orders_events pending_orders_for_book
book_agrees evs currencies =
    ap sort_newest (retain_pending currencies (values (aggregate_latest_orders_by_id evs)))
