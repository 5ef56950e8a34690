-- ===== src/Dm/Rows.antt =====
-- util/dm_utils/mod.rs: the rows of the Messages tab under the handler: their order and their orders.
use mostrix.Prelude.{
  ℕ, ◌+◌, ◌≤◌, ◌≡◌, refl, ◌∙◌, Bool, true, false, not, some, List, [], ◌∷◌, ◌++◌, arith, ltb,
  if◌then◌else◌, retain, count, find, Bool-cases, inl, inr,
}
use mostrix.Protocol.{Uuid}
use mostrix.Messages.{OrderMessage}
use mostrix.Dm.{is_row_of, remove_order_from_messages, insert_row, sort_rows, replace_row}

-- No row is newer than `t`.
unfoldable Below : ℕ → List OrderMessage → Type 0
Below t [] = Unit
Below t (m ∷ ms) = (m.timestamp ≤ t) × Below t ms

unfoldable pub Sorted : List OrderMessage → Type 0
unfolding Below
Sorted [] = Unit
Sorted (m ∷ ms) = Below m.timestamp ms × Sorted ms

-- The Messages tab: newest first, with at most one row for each order.
pub record WellFormed (ms : List OrderMessage) : Type 0 where
  pub sorted : Sorted ms
  pub unique : (i : Uuid) → count (is_row_of i) ms ≤ 1

module _ (p : OrderMessage → Bool) where
  abbrev one : OrderMessage → ℕ
  one m = if p m then 1 else 0

  count-insert :
      (m : OrderMessage) (ms : List OrderMessage) → count p (insert_row m ms) ≡ one m + count p ms
  unfolding insert_row
  count-insert m [] = ground arith
  count-insert m (x ∷ xs) = ground (arith, count-insert m xs)

  count-sort : (ms : List OrderMessage) → count p (sort_rows ms) ≡ count p ms
  unfolding sort_rows
  count-sort [] = refl
  count-sort (m ∷ ms) = ground (arith, count-insert m (sort_rows ms), count-sort ms)

  count-append : (ms ns : List OrderMessage) → count p (ms ++ ns) ≡ count p ms + count p ns
  count-append [] ns = omega arith
  count-append (m ∷ ms) ns = ground (arith, count-append ms ns)

Below-weaken : (t u : ℕ) (ms : List OrderMessage) → t ≤ u → Below t ms → Below u ms
unfolding Below
Below-weaken t u [] h b = tt
Below-weaken t u (m ∷ ms) h (k, b) = (omega (arith, h, k), Below-weaken t u ms h b)

Below-insert :
    (t : ℕ) (m : OrderMessage) (ms : List OrderMessage)
    → m.timestamp ≤ t
    → Below t ms
    → Below t (insert_row m ms)
unfolding Below insert_row
Below-insert t m [] h b = (h, tt)
Below-insert t m (x ∷ xs) h (k, b) = elim (Bool-cases (ltb m.timestamp x.timestamp)) [
  | inl q ↦ rw q (k, Below-insert t m xs h b)
  | inr q ↦ rw q (h, (k, b))
]

ltb_lem : (a b : ℕ) → ltb a b ≡ true → a ≤ b
ltb_lem a b h = ground arith

ltb-false : (a b : ℕ) → ltb a b ≡ false → b ≤ a
ltb-false a b h = ground arith

Sorted-insert : (m : OrderMessage) (ms : List OrderMessage) → Sorted ms → Sorted (insert_row m ms)
unfolding Sorted Below insert_row
Sorted-insert m [] s = (tt, tt)
Sorted-insert m (x ∷ xs) (b, s) = elim (Bool-cases (ltb m.timestamp x.timestamp)) [
  | inl q ↦
      rw q
        (Below-insert x.timestamp m xs (ltb_lem m.timestamp x.timestamp q) b, Sorted-insert m xs s)
  | inr q ↦
      let k = ltb-false m.timestamp x.timestamp q in
      rw q ((k, Below-weaken x.timestamp m.timestamp xs k b), (b, s))
]

Sorted-sort : (ms : List OrderMessage) → Sorted (sort_rows ms)
unfolding Sorted sort_rows
Sorted-sort [] = tt
Sorted-sort (m ∷ ms) = Sorted-insert m (sort_rows ms) (Sorted-sort ms)

module _ (p : OrderMessage → Bool) where
  Below-retain : (t : ℕ) (ms : List OrderMessage) → Below t ms → Below t (retain p ms)
  unfolding Below
  Below-retain t [] b = tt
  Below-retain t (m ∷ ms) (k, b) = elim (Bool-cases (p m)) [
    | inl q ↦ rw q (k, Below-retain t ms b)
    | inr q ↦ rw q (Below-retain t ms b)
  ]

  Sorted-retain : (ms : List OrderMessage) → Sorted ms → Sorted (retain p ms)
  unfolding Sorted
  Sorted-retain [] s = tt
  Sorted-retain (m ∷ ms) (b, s) = elim (Bool-cases (p m)) [
    | inl q ↦ rw q (Below-retain m.timestamp ms b, Sorted-retain ms s)
    | inr q ↦ rw q (Sorted-retain ms s)
  ]

module _ (i : Uuid) where
  count-remove_self :
      (ms : List OrderMessage) → count (is_row_of i) (remove_order_from_messages i ms) ≡ 0
  unfolding remove_order_from_messages
  count-remove_self [] = refl
  count-remove_self (m ∷ ms) = ground (arith, count-remove_self ms)

  module _ (p : OrderMessage → Bool) where
    count-remove_le :
        (ms : List OrderMessage) → count p (remove_order_from_messages i ms) ≤ count p ms
    unfolding remove_order_from_messages
    count-remove_le [] = omega arith
    count-remove_le (m ∷ ms) = ground (arith, count-remove_le ms)

    -- Rows that no test of the order can see.
    pub count-remove_ne :
        (ms : List OrderMessage)
        → ((m : OrderMessage) → is_row_of i m ≡ true → p m ≡ false)
        → count p (remove_order_from_messages i ms) ≡ count p ms
    unfolding remove_order_from_messages
    count-remove_ne [] h = refl
    count-remove_ne (m ∷ ms) h = elim (Bool-cases (is_row_of i m)) [
      | inl q ↦ rw (q, h m q) (count-remove_ne ms h)
      | inr q ↦ ground (arith, q, count-remove_ne ms h)
    ]

-- The handler's two writes to the tab.
pub WellFormed-remove :
    (i : Uuid) (ms : List OrderMessage)
    → WellFormed ms
    → WellFormed (remove_order_from_messages i ms)
WellFormed-remove i ms w = record {
  sorted =
      unfold remove_order_from_messages in Sorted-retain (λ m. not (is_row_of i m)) ms w.sorted;
  unique = λ j. omega (arith, count-remove_le i (is_row_of j) ms, w.unique j);
}

count-replace :
    (p : OrderMessage → Bool) (i : Uuid) (m : OrderMessage) (ms : List OrderMessage)
    → count p (replace_row i m ms) ≡ count p (remove_order_from_messages i ms) + one p m
unfolding replace_row
count-replace p i m ms =
    count-sort p (remove_order_from_messages i ms ++ m ∷ [])
    ∙ (count-append p (remove_order_from_messages i ms) (m ∷ []) ∙ ground arith)

replace_unique :
    (i : Uuid) (m : OrderMessage) (ms : List OrderMessage)
    → m.order_id ≡ some i
    → ((j : Uuid) → count (is_row_of j) ms ≤ 1)
    → (j : Uuid) → count (is_row_of j) (replace_row i m ms) ≤ 1
replace_unique i m ms k u j = elim (Bool-cases (is_row_of j m)) [
  | inr q ↦
      rw (count-replace (is_row_of j) i m ms, q)
        (omega (arith, count-remove_le i (is_row_of j) ms, u j))
  | inl q ↦
      let same_id : i ≡ j = ground arith in
      rw (count-replace (is_row_of j) i m ms, q, ← same_id, count-remove_self i ms) (omega arith)
]

pub WellFormed-replace :
    (i : Uuid) (m : OrderMessage) (ms : List OrderMessage)
    → m.order_id ≡ some i
    → WellFormed ms
    → WellFormed (replace_row i m ms)
WellFormed-replace i m ms k w = record {
  sorted = unfold replace_row in Sorted-sort (remove_order_from_messages i ms ++ m ∷ []);
  unique = replace_unique i m ms k w.unique;
}

-- The row that takes the place of an order's rows, in the sorted tab.
module _ (p : OrderMessage → Bool) where
  find-insert :
      (m : OrderMessage) (ms : List OrderMessage)
      → p m ≡ false
      → find p (insert_row m ms) ≡ find p ms
  unfolding insert_row
  find-insert m [] q = ground (arith, q)
  find-insert m (x ∷ xs) q = ground (arith, q, find-insert m xs q)

  find-sort_last :
      (m : OrderMessage) (ms : List OrderMessage)
      → p m ≡ true
      → find p (sort_rows (retain (λ x. not (p x)) ms ++ m ∷ [])) ≡ some m
  unfolding sort_rows insert_row
  find-sort_last m [] q = ground (arith, q)
  find-sort_last m (x ∷ xs) q = elim (Bool-cases (p x)) [
    | inl e ↦ rw e (find-sort_last m xs q)
    | inr e ↦
        let rest = sort_rows (retain (λ x. not (p x)) xs ++ m ∷ []) in
        rw e (find-insert x rest e ∙ find-sort_last m xs q)
  ]

pub find-replace_row :
    (i : Uuid) (m : OrderMessage) (ms : List OrderMessage)
    → m.order_id ≡ some i
    → find (is_row_of i) (replace_row i m ms) ≡ some m
unfolding replace_row remove_order_from_messages
find-replace_row i m ms h = find-sort_last (is_row_of i) m ms (ground (arith, h))
