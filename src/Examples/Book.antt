-- ===== src/Examples/Book.antt =====
-- util/order_utils/helper.rs on concrete events: what the order book shows.
use mostrix.Prelude.{Bool, ◌&&◌, ◌≡◌, refl, none, is_some_and, ◌==◌, some, List, [], ◌∷◌, count}
use mostrix.Protocol.{Uuid, Status, Status-discrete, SmallOrder}
use mostrix.Relay.{OrderEvent, aggregate_from, add_event, put_latest, aggregate_latest_orders_by_id}
use mostrix.Relay.Book.{
  values, parse_orders_events, pending_orders_for_book, sort_newest, insert_newest,
}
use mostrix.Relay.Book.Sorting.{NewestFirst, is_shown, parse_orders_events-shows, book_agrees}
use mostrix.Samples.{sample_order}

abbrev has_id : Uuid → SmallOrder → Bool
has_id i o = is_some_and o.id (λ j. j == i)

abbrev first_revision : OrderEvent
first_revision = record { parsed = some (sample_order Status.pending); created_at = 4 }

abbrev second_revision : OrderEvent
second_revision = record { parsed = some (sample_order Status.pending); created_at = 9 }

abbrev other_listing : OrderEvent
other_listing = record {
  parsed = some (record (sample_order Status.pending) { id = some 2 });
  created_at = 7;
}

abbrev gone_listing : OrderEvent
gone_listing = record {
  parsed = some (record (sample_order Status.canceled) { id = some 3 });
  created_at = 8;
}

abbrev listings : List OrderEvent
listings = second_revision ∷ other_listing ∷ first_revision ∷ gone_listing ∷ []

parse_orders_events-shows_example :
    NewestFirst (parse_orders_events listings (some ("EUR" ∷ [])) (some Status.pending) none)
    × (count
          (has_id 2)
          (parse_orders_events listings (some ("EUR" ∷ [])) (some Status.pending) none)
        ≡ count
            (λ o. is_shown (some ("EUR" ∷ [])) (some Status.pending) none o && has_id 2 o)
            (values (aggregate_latest_orders_by_id listings)))
parse_orders_events-shows_example =
    parse_orders_events-shows listings (some ("EUR" ∷ [])) (some Status.pending) none (has_id 2)

book_agrees_example :
    pending_orders_for_book (aggregate_latest_orders_by_id listings) (some [])
    ≡ parse_orders_events listings (some []) (some Status.pending) none
book_agrees_example = book_agrees listings (some [])

-- The newer revision of order 1 comes first, then order 2; order 3 is not pending.
book_run :
    pending_orders_for_book (aggregate_latest_orders_by_id listings) none
    ≡ record (sample_order Status.pending) { created_at = some 9 }
      ∷ record (sample_order Status.pending) { id = some 2; created_at = some 7 }
      ∷ []
unfolding pending_orders_for_book sort_newest insert_newest aggregate_from add_event put_latest
    Status-discrete
book_run = refl
