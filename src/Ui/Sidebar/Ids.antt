-- ===== src/Ui/Sidebar/Ids.antt =====
-- ui/helpers/order_chat_projection.rs: the ids of the rows.
use mathlib.Core.List.{Permᴰ}
use mostrix.Prelude.{
  ◌≡◌, subst, refl, ◌∙◌, sym, Bool, true, false, Option, none, some, List, [], ◌∷◌, ◌++◌, any,
  retain, ◌==◌, if_lem, is_some, arith,
}
use mostrix.Protocol.{Uuid, Action, Payload}
use mostrix.Messages.{OrderMessage}
use mostrix.Ui.Sidebar.{
  OrderChatListItem, is_listed, merge_payload, merge_message_into_entry, merge_into, merge_rows,
  merge_order_fields, merge_peer_fields, blank_entry, merge_row,
}

-- No two rows have the same order.
abbrev pub DistinctIds : List OrderChatListItem → Type 0
DistinctIds [] = Unit
DistinctIds (x ∷ xs) = (is_listed xs x ≡ false) × DistinctIds xs

pub is_listed-perm :
    {l l' : List OrderChatListItem} (x : OrderChatListItem)
    → Permᴰ l l'
    → is_listed l x ≡ is_listed l' x
is_listed-perm x Permᴰ.nil = refl
is_listed-perm x (Permᴰ.cons {a} {b} {l₁} {l₂} e d) =
    subst (λ z. is_listed (a ∷ l₁) x ≡ is_listed (z ∷ l₂) x) e (ground (arith, is_listed-perm x d))
is_listed-perm x (Permᴰ.swap {a} {b} {a'} {b'} {l} e e') =
    subst (λ z. is_listed (a ∷ b ∷ l) x ≡ is_listed (z ∷ b' ∷ l) x) e'
      (subst (λ z. is_listed (a ∷ b ∷ l) x ≡ is_listed (b ∷ z ∷ l) x) e (ground arith))
is_listed-perm x (Permᴰ.trans d d') = is_listed-perm x d ∙ is_listed-perm x d'

pub DistinctIds-perm : {l l' : List OrderChatListItem} → Permᴰ l l' → DistinctIds l → DistinctIds l'
DistinctIds-perm Permᴰ.nil u = u
DistinctIds-perm (Permᴰ.cons {a} {b} {l₁} {l₂} e d) u =
    subst (λ z. DistinctIds (z ∷ l₂)) e (sym (is_listed-perm a d) ∙ u.0, DistinctIds-perm d u.1)
DistinctIds-perm (Permᴰ.swap {a} {b} {a'} {b'} {l} e e') u =
    subst (λ z. DistinctIds (z ∷ b' ∷ l)) e'
      (subst (λ z. DistinctIds (b ∷ z ∷ l)) e
        (ground (arith, u.0, u.1.0), (ground (arith, u.0), u.1.1)))
DistinctIds-perm (Permᴰ.trans d d') u = DistinctIds-perm d' (DistinctIds-perm d u)

merge_payload-id :
    (entry : OrderChatListItem) (msg : OrderMessage) (a : Action) (p : Option Payload)
    → (merge_payload entry msg a p).order_id ≡ entry.order_id
unfolding merge_payload merge_order_fields merge_peer_fields
merge_payload-id entry msg a none = refl
merge_payload-id entry msg a (some (Payload.order o)) =
    if_lem (λ (r : OrderChatListItem). r.order_id ≡ entry.order_id) (is_some entry.amount)
      (λ h. refl) (λ h. refl)
merge_payload-id entry msg a (some (Payload.payment_request o s n)) = refl
merge_payload-id entry msg a (some (Payload.bond_payout_request o n)) = refl
merge_payload-id entry msg a (some (Payload.dispute i)) = refl
merge_payload-id entry msg a (some (Payload.peer pubkey none)) = ground arith
merge_payload-id entry msg a (some (Payload.peer pubkey (some r))) = ground arith
merge_payload-id entry msg a (some (Payload.bond_resolution b)) = refl
merge_payload-id entry msg a (some (Payload.other n)) = refl

merge_message-id :
    (entry : OrderChatListItem) (msg : OrderMessage)
    → (merge_message_into_entry entry msg).order_id ≡ entry.order_id
unfolding merge_message_into_entry
merge_message-id entry msg = merge_payload-id _ msg _ _

merge_into-other :
    (i : Uuid) (msg : OrderMessage) (x : OrderChatListItem) (rows : List OrderChatListItem)
    → (i == x.order_id) ≡ false
    → is_listed (merge_into i msg rows) x ≡ is_listed rows x
unfolding merge_into
merge_into-other i msg x [] n = ground (arith, merge_message-id (blank_entry i msg) msg)
merge_into-other i msg x (y ∷ ys) n =
    ground (arith, merge_message-id y msg, merge_into-other i msg x ys n)

merge_into-DistinctIds :
    (i : Uuid) (msg : OrderMessage) (rows : List OrderChatListItem)
    → DistinctIds rows
    → DistinctIds (merge_into i msg rows)
unfolding merge_into
merge_into-DistinctIds i msg [] u = (refl, tt)
merge_into-DistinctIds i msg (y ∷ ys) u =
    if_lem DistinctIds (y.order_id == i)
      (λ h. (
        subst (λ k. any (λ r. r.order_id == k) ys ≡ false) (sym (merge_message-id y msg)) u.0,
        u.1,
      ))
      (λ h. (
        merge_into-other i msg y ys (ground (arith, h)) ∙ u.0,
        merge_into-DistinctIds i msg ys u.1,
      ))

pub merge_rows-DistinctIds :
    (ms : List OrderMessage) (rows : List OrderChatListItem)
    → DistinctIds rows
    → DistinctIds (merge_rows ms rows)
unfolding merge_rows
merge_rows-DistinctIds [] rows u = u
merge_rows-DistinctIds (m ∷ ms) rows u =
    merge_rows-DistinctIds ms (merge_row m.order_id m rows) (row m.order_id)
  where
    row : (i : Option Uuid) → DistinctIds (merge_row i m rows)
    row none = u
    row (some i) = merge_into-DistinctIds i m rows u

listed_append :
    (xs ys : List OrderChatListItem) (x : OrderChatListItem)
    → is_listed xs x ≡ false
    → is_listed ys x ≡ false
    → is_listed (xs ++ ys) x ≡ false
listed_append [] ys x p q = q
listed_append (z ∷ zs) ys x p q = ground (arith, p, listed_append zs ys x (ground (arith, p)) q)

module _ (p : OrderChatListItem → Bool) where
  retain-unlisted :
      (book : List OrderChatListItem) (x : OrderChatListItem)
      → is_listed book x ≡ false
      → is_listed (retain p book) x ≡ false
  retain-unlisted [] x h = refl
  retain-unlisted (y ∷ ys) x h = ground (arith, h, retain-unlisted ys x (ground (arith, h)))

  retain-dropped :
      (book : List OrderChatListItem) (x : OrderChatListItem)
      → ((y : OrderChatListItem) → (y.order_id == x.order_id) ≡ true → p y ≡ false)
      → is_listed (retain p book) x ≡ false
  retain-dropped [] x h = refl
  retain-dropped (y ∷ ys) x h = ground (arith, h y, retain-dropped ys x h)

  retain-DistinctIds :
      (book : List OrderChatListItem) → DistinctIds book → DistinctIds (retain p book)
  retain-DistinctIds [] v = v
  retain-DistinctIds (y ∷ ys) v =
      if_lem DistinctIds (p y) (λ h. (retain-unlisted ys y v.0, retain-DistinctIds ys v.1))
        (λ h. retain-DistinctIds ys v.1)

  pub append-DistinctIds :
      (rows book : List OrderChatListItem)
      → ((y : OrderChatListItem) → is_listed rows y ≡ true → p y ≡ false)
      → DistinctIds rows
      → DistinctIds book
      → DistinctIds (rows ++ retain p book)
  append-DistinctIds [] book h u v = retain-DistinctIds book v
  append-DistinctIds (x ∷ xs) book h u v = (
    listed_append xs (retain p book) x u.0 (retain-dropped book x (λ y e. h y (ground (arith, e)))),
    append-DistinctIds xs book (λ y e. h y (ground (arith, e))) u.1 v,
  )
