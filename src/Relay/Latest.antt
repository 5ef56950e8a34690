-- ===== src/Relay/Latest.antt =====
-- util/order_utils/helper.rs: the stamps of `aggregate_latest_orders_by_id`.
use mostrix.Prelude.{
  ℕ, ◌≤◌, ◌≡◌, ◌≢◌, sym, ap, subst, ◌∙◌, Option, none, some, List, [], ◌∷◌, arith, Bool-cases,
  Option-cases, inl, inr, ◌==◌, if◌then◌else◌, ltb,
}
use mathlib.Core.List.{Memᴰ, Memᴰ.head, Memᴰ.tail, Memᴰ.not-nil}
use mostrix.Protocol.{Uuid, SmallOrder}
use mostrix.Relay.{
  OrderEvent, stamped, stamp, put_latest, add_event, aggregate_from, aggregate_latest_orders_by_id,
}

-- `latest.get(&id)`
unfoldable pub find_latest : Uuid → List (Uuid × SmallOrder) → Option SmallOrder
find_latest i [] = none
find_latest i (x ∷ xs) = let rest = find_latest i xs in if x.0 == i then some x.1 else rest

-- An entry is there and at least as new as `ts`.
abbrev pub AtLeast : Uuid → ℕ → List (Uuid × SmallOrder) → Type 0
AtLeast i ts latest = (o : SmallOrder) × (find_latest i latest ≡ some o) × (ts ≤ stamp o)

newer : SmallOrder → Option SmallOrder → SmallOrder
newer o none = o
newer o (some x) = if ltb (stamp x) (stamp o) then o else x

find-put_self :
    (i : Uuid) (o : SmallOrder) (latest : List (Uuid × SmallOrder))
    → find_latest i (put_latest i o latest) ≡ some (newer o (find_latest i latest))
unfolding find_latest put_latest newer
find-put_self i o [] = ground arith
find-put_self i o (x ∷ xs) = ground (arith, find-put_self i o xs)

find-put_ne :
    (i j : Uuid) (o : SmallOrder) (latest : List (Uuid × SmallOrder))
    → i ≢ j
    → find_latest j (put_latest i o latest) ≡ find_latest j latest
unfolding find_latest put_latest
find-put_ne i j o [] h = ground (arith, h)
find-put_ne i j o (x ∷ xs) h = ground (arith, h, find-put_ne i j o xs h)

AtLeast-put :
    (i j : Uuid) (o : SmallOrder) (ts : ℕ) (latest : List (Uuid × SmallOrder))
    → AtLeast j ts latest
    → AtLeast j ts (put_latest i o latest)
AtLeast-put i j o ts latest (x, q, k) = elim (Bool-cases (i == j)) [
  | inr n ↦ (x, find-put_ne i j o latest (ground (arith, n)) ∙ q, k)
  | inl n ↦
      let e : i ≡ j = ground (arith, n) in
      subst (λ y. AtLeast y ts (put_latest i o latest)) e
        (
          newer o (find_latest i latest),
          find-put_self i o latest,
          rw (ap (λ y. find_latest y latest) e ∙ q) (unfold newer in ground (arith, k)),
        )
]

AtLeast-put_self :
    (i : Uuid) (o : SmallOrder) (latest : List (Uuid × SmallOrder))
    → AtLeast i (stamp o) (put_latest i o latest)
unfolding newer
AtLeast-put_self i o latest =
    (newer o (find_latest i latest), find-put_self i o latest, ground arith)

stamped-stamp :
    (ev : OrderEvent) (i : Uuid) (o : SmallOrder)
    → stamped ev ≡ some (i, o)
    → stamp o ≡ ev.created_at
stamped-stamp ev i o h = ground (arith, h)

AtLeast-add :
    (ev : OrderEvent) (i : Uuid) (ts : ℕ) (latest : List (Uuid × SmallOrder))
    → AtLeast i ts latest
    → AtLeast i ts (add_event ev latest)
unfolding add_event
AtLeast-add ev i ts latest w = elim (Option-cases (stamped ev)) [
  | inl n ↦ subst (AtLeast i ts) (sym (ground (arith, n))) w
  | inr (x, n) ↦ subst (AtLeast i ts) (sym (ground (arith, n))) (AtLeast-put x.0 i x.1 ts latest w)
]

AtLeast-aggregate :
    (evs : List OrderEvent) (i : Uuid) (ts : ℕ) (latest : List (Uuid × SmallOrder))
    → AtLeast i ts latest
    → AtLeast i ts (aggregate_from evs latest)
unfolding aggregate_from
AtLeast-aggregate [] i ts latest w = w
AtLeast-aggregate (ev ∷ evs) i ts latest w =
    AtLeast-aggregate evs i ts (add_event ev latest) (AtLeast-add ev i ts latest w)

newest_kept :
    (evs : List OrderEvent) (latest : List (Uuid × SmallOrder)) (ev : OrderEvent) (i : Uuid)
    (o : SmallOrder)
    → Memᴰ ev evs
    → stamped ev ≡ some (i, o)
    → AtLeast i ev.created_at (aggregate_from evs latest)
unfolding aggregate_from add_event
newest_kept [] latest ev i o m h = absurd (not-nil m)
newest_kept (x ∷ xs) latest ev i o (tail m) h = newest_kept xs (add_event x latest) ev i o m h
newest_kept (x ∷ xs) latest ev i o (head e) h =
    let s : stamped x ≡ some (i, o) = subst (λ y. stamped y ≡ some (i, o)) e h in
    let p : add_event x latest ≡ put_latest i o latest = ground (arith, s) in
    AtLeast-aggregate xs i ev.created_at (add_event x latest) (
      subst (AtLeast i ev.created_at) (sym p) (
        subst (λ t. AtLeast i t (put_latest i o latest)) (stamped-stamp ev i o h)
          (AtLeast-put_self i o latest)))

-- The aggregate holds, for the id of any event that has an id and a kind, an order at least as new as
-- that event: no event is lost to an older one.
pub latest_wins :
    (evs : List OrderEvent) (ev : OrderEvent) (i : Uuid) (o : SmallOrder)
    → Memᴰ ev evs
    → stamped ev ≡ some (i, o)
    → AtLeast i ev.created_at (aggregate_latest_orders_by_id evs)
latest_wins evs ev i o m h = newest_kept evs [] ev i o m h
