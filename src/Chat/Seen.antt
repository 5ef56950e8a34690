-- ===== src/Chat/Seen.antt =====
-- util/chat_security.rs: the bounded set of outer event ids and its queue.
use mostrix.Prelude.{
  ℕ, ◌+◌, ◌≤◌, ◌≡◌, ◌≢◌, refl, ◌∙◌, subst, false, not, List, [], ◌∷◌, ◌++◌, length, retain, count,
  arith, Bool-cases, inl, inr, ltb, ◌==◌,
}
use mostrix.Chat.{EventId, OuterIdLru, contains, evict, insert_outer_id}

abbrev pub occurrences : EventId → List EventId → ℕ
occurrences i s = count (λ x. x == i) s

-- The queue fits the capacity, lists every id once, and lists the members of the set.
pub record Valid (l : OuterIdLru) : Type 0 where
  pub positive_cap : 1 ≤ l.cap
  pub bounded : length l.order ≤ l.cap
  pub once : (i : EventId) → occurrences i l.order ≤ 1
  pub once_set : (i : EventId) → occurrences i l.set ≡ occurrences i l.order

contains_count : (i : EventId) (s : List EventId) → contains i s ≡ ltb 0 (occurrences i s)
contains_count i [] = refl
contains_count i (x ∷ xs) = ground (arith, contains_count i xs)

occurrences-append :
    (i : EventId) (s t : List EventId) → occurrences i (s ++ t) ≡ occurrences i s + occurrences i t
occurrences-append i [] t = omega arith
occurrences-append i (x ∷ xs) t = ground (arith, occurrences-append i xs t)

occurrences-retain_self :
    (x : EventId) (s : List EventId) → occurrences x (retain (λ y. not (y == x)) s) ≡ 0
occurrences-retain_self x [] = refl
occurrences-retain_self x (y ∷ ys) = ground (arith, occurrences-retain_self x ys)

occurrences-retain_ne :
    (x i : EventId) (s : List EventId)
    → x ≢ i
    → occurrences i (retain (λ y. not (y == x)) s) ≡ occurrences i s
occurrences-retain_ne x i [] h = refl
occurrences-retain_ne x i (y ∷ ys) h = ground (arith, h, occurrences-retain_ne x i ys h)

module _ (cap : ℕ) where
  evict-bounded : (order set : List EventId) → length (evict cap order set).0 ≤ cap
  unfolding evict
  evict-bounded [] set = omega arith
  evict-bounded (x ∷ xs) set = ground (arith, evict-bounded xs (retain (λ y. not (y == x)) set))

  evict-once :
      (order set : List EventId) (i : EventId)
      → occurrences i (evict cap order set).0 ≤ occurrences i order
  unfolding evict
  evict-once [] set i = omega arith
  evict-once (x ∷ xs) set i = ground (arith, evict-once xs (retain (λ y. not (y == x)) set) i)

  -- The set follows the queue.
  evict-same :
      (order set : List EventId)
      → ((i : EventId) → occurrences i order ≤ 1)
      → ((i : EventId) → occurrences i set ≡ occurrences i order)
      → (i : EventId)
      → occurrences i (evict cap order set).1 ≡ occurrences i (evict cap order set).0
  unfolding evict
  evict-same [] set u s i = s i
  evict-same (x ∷ xs) set u s i =
      let rest_once : (j : EventId) → occurrences j xs ≤ 1 = λ j. ground (arith, u j) in
      let rest_set : (j : EventId)
          → occurrences j (retain (λ y. not (y == x)) set) ≡ occurrences j xs =
        λ j. elim (Bool-cases (x == j)) [
          | inl q ↦
              let e : x ≡ j = ground (arith, q) in
              subst (λ k. occurrences k (retain (λ y. not (y == x)) set) ≡ occurrences k xs) e
                (occurrences-retain_self x set ∙ ground (arith, u x))
          | inr q ↦ occurrences-retain_ne x j set (ground (arith, q)) ∙ ground (arith, s j, q)
        ] in
      elim (Bool-cases (ltb cap (length (x ∷ xs)))) [
        | inl q ↦ rw q (evict-same xs (retain (λ y. not (y == x)) set) rest_once rest_set i)
        | inr q ↦ rw q (s i)
      ]

abbrev pub without_oldest : List EventId → List EventId
without_oldest [] = []
without_oldest (x ∷ xs) = xs

module _ (i : EventId) (l : OuterIdLru) (w : Valid l) where
  absent : contains i l.set ≡ false → occurrences i l.order ≡ 0
  absent n = ground (arith, n, contains_count i l.set, w.once_set i)

  grown-once : contains i l.set ≡ false → (j : EventId) → occurrences j (l.order ++ i ∷ []) ≤ 1
  grown-once n j = elim (Bool-cases (i == j)) [
    | inl q ↦
        let e : i ≡ j = ground (arith, q) in
        subst (λ k. occurrences k (l.order ++ i ∷ []) ≤ 1) e
          (rw (occurrences-append i l.order (i ∷ [])) (ground (arith, absent n)))
    | inr q ↦ rw (occurrences-append j l.order (i ∷ []), q) (omega (arith, w.once j))
  ]

  grown-set : (j : EventId) → occurrences j (i ∷ l.set) ≡ occurrences j (l.order ++ i ∷ [])
  grown-set j = rw (occurrences-append j l.order (i ∷ []), w.once_set j) (ground arith)

  -- An insertion keeps the set and its queue in step, without repetition and within the capacity.
  pub insert-Valid : Valid (insert_outer_id i l).0
  unfolding insert_outer_id
  insert-Valid = elim (Bool-cases (contains i l.set)) [
    | inl q ↦ rw q w
    | inr q ↦ rw q (record {
      positive_cap = w.positive_cap;
      bounded = evict-bounded l.cap (l.order ++ i ∷ []) (i ∷ l.set);
      once = λ j. omega (arith, evict-once l.cap (l.order ++ i ∷ []) (i ∷ l.set) j, grown-once q j);
      once_set = evict-same l.cap (l.order ++ i ∷ []) (i ∷ l.set) (grown-once q) grown-set;
    })
  ]
