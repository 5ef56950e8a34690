-- ===== src/Ui/Sidebar/Sorted.antt =====
-- ui/helpers/order_chat_projection.rs: the order of the rows, and the iteration of their `HashMap`.
use mathlib.Core.List.{Permᴰ}
use mathlib.Core.List.Permᴰ
use mostrix.Prelude.{
  ℕ, ℤ, pos, negsuc, ◌≡◌, ap, subst, refl, ◌∙◌, sym, Bool, true, false, not, Option, none, some,
  List, [], ◌∷◌, ◌++◌, retain, ltb, ◌==◌, arith,
}
use mostrix.Messages.{OrderMessage}
use mostrix.Ui.Sidebar.Ids.{
  DistinctIds, is_listed-perm, DistinctIds-perm, merge_rows-DistinctIds, append-DistinctIds,
}
use mostrix.Ui.Sidebar.{
  OrderChatListItem, before, comes_before, insert_item, sort_order_chat_rows, is_listed,
  append_maker_book_rows_without_dm, build_order_chat_list_from_messages,
  build_active_order_chat_list,
}

-- Whatever comes before the third but not before the second: the second comes before the third.
before_cotrans :
    (i j k : Option ℤ) (x a b : ℕ)
    → before i k (ltb x b) ≡ true
    → before i j (ltb x a) ≡ false
    → before j k (ltb a b) ≡ true
before_cotrans none none none x a b p q = ground (arith, p, q)
before_cotrans none none (some k) x a b p q = ground (arith, p, q)
before_cotrans none (some j) none x a b p q = ground (arith, p, q)
before_cotrans none (some j) (some k) x a b p q = ground (arith, p, q)
before_cotrans (some i) none k x a b p q = ground (arith, p, q)
before_cotrans (some i) (some j) none x a b p q = ground (arith, p, q)
before_cotrans (some (pos i)) (some (pos j)) (some (pos k)) x a b p q = ground (arith, p, q)
before_cotrans (some (pos i)) (some (pos j)) (some (negsuc k)) x a b p q = ground (arith, p, q)
before_cotrans (some (pos i)) (some (negsuc j)) (some k) x a b p q = ground (arith, p, q)
before_cotrans (some (negsuc i)) (some (pos j)) (some (pos k)) x a b p q = ground (arith, p, q)
before_cotrans (some (negsuc i)) (some (pos j)) (some (negsuc k)) x a b p q = ground (arith, p, q)
before_cotrans (some (negsuc i)) (some (negsuc j)) (some (pos k)) x a b p q = ground (arith, p, q)
before_cotrans (some (negsuc i)) (some (negsuc j)) (some (negsuc k)) x a b p q =
    ground (arith, p, q)

before_total :
    (i j : Option ℤ) (a b : ℕ)
    → (a == b) ≡ false
    → before i j (ltb a b) ≡ not (before j i (ltb b a))
before_total none none a b p = ground (arith, p)
before_total none (some j) a b p = refl
before_total (some i) none a b p = refl
before_total (some (pos i)) (some (pos j)) a b p = ground (arith, p)
before_total (some (pos i)) (some (negsuc j)) a b p = ground (arith, p)
before_total (some (negsuc i)) (some (pos j)) a b p = ground (arith, p)
before_total (some (negsuc i)) (some (negsuc j)) a b p = ground (arith, p)

module _ (a b : OrderChatListItem) (n : (a.order_id == b.order_id) ≡ false) where
  flip : comes_before a b ≡ not (comes_before b a)
  flip = before_total a.trade_index b.trade_index a.order_id b.order_id n

  insert_comm :
      (rows : List OrderChatListItem)
      → insert_item a (insert_item b rows) ≡ insert_item b (insert_item a rows)
  unfolding insert_item
  insert_comm [] = ground (arith, flip)
  insert_comm (x ∷ xs) = ground (
    arith,
    flip,
    insert_comm xs,
    before_cotrans x.trade_index a.trade_index b.trade_index x.order_id a.order_id b.order_id,
    before_cotrans x.trade_index b.trade_index a.trade_index x.order_id b.order_id a.order_id,
  )

sort-perm :
    {l l' : List OrderChatListItem}
    → Permᴰ l l'
    → DistinctIds l
    → sort_order_chat_rows l ≡ sort_order_chat_rows l'
unfolding sort_order_chat_rows
sort-perm Permᴰ.nil u = refl
sort-perm (Permᴰ.cons {a} {b} {l₁} {l₂} e d) u =
    ap (insert_item a) (sort-perm d u.1) ∙ ap (λ z. insert_item z (sort_order_chat_rows l₂)) e
sort-perm (Permᴰ.swap {a} {b} {a'} {b'} {l} e e') u =
    subst
      (λ z.
        insert_item a (insert_item b (sort_order_chat_rows l))
        ≡ insert_item z (insert_item b' (sort_order_chat_rows l)))
      e'
      (subst
        (λ z.
          insert_item a (insert_item b (sort_order_chat_rows l))
          ≡ insert_item b (insert_item z (sort_order_chat_rows l)))
        e (insert_comm a b (ground (arith, u.0)) (sort_order_chat_rows l)))
sort-perm (Permᴰ.trans d d') u = sort-perm d u ∙ sort-perm d' (DistinctIds-perm d u)

retain-agree :
    (p q : OrderChatListItem → Bool) (book : List OrderChatListItem)
    → ((y : OrderChatListItem) → p y ≡ q y)
    → retain p book ≡ retain q book
retain-agree p q [] h = refl
retain-agree p q (y ∷ ys) h = ground (arith, h y, retain-agree p q ys h)

-- Whatever order the map of the rows is iterated in: where the maker's listings have different ids, the
-- sidebar shows the same rows in the same order.
pub iteration_free :
    (messages : List OrderMessage) (maker_book iterated : List OrderChatListItem)
    → DistinctIds maker_book
    → Permᴰ (build_order_chat_list_from_messages messages) iterated
    → sort_order_chat_rows (append_maker_book_rows_without_dm iterated maker_book)
      ≡ build_active_order_chat_list messages maker_book
unfolding append_maker_book_rows_without_dm build_active_order_chat_list
iteration_free messages maker_book iterated v d =
    let built = build_order_chat_list_from_messages messages in
    let unlisted : OrderChatListItem → Bool = λ x. not (is_listed built x) in
    ap (λ rest. sort_order_chat_rows (iterated ++ rest))
      (retain-agree (λ x. not (is_listed iterated x)) unlisted maker_book
        (λ y. ap not (sym (is_listed-perm y d))))
    ∙ sym (
        sort-perm (Permᴰ.append_right (retain unlisted maker_book) d) (
          append-DistinctIds unlisted built maker_book (λ y e. ap not e)
            (merge_rows-DistinctIds messages [] tt) v))
