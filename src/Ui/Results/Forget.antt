-- ===== src/Ui/Results/Forget.antt =====
-- util/dm_utils/order_ch_mng.rs: what deleting the history of orders removes.
use mathlib.Core.Bool.{true≢false}
use mostrix.Prelude.{
  ℕ, ◌<◌, ◌≡◌, ◌⊎◌, inl, inr, refl, sym, ap, ◌∙◌, Bool, true, false, not, Option, none, some, List,
  [], ◌∷◌, length, any, retain, is_some_and, lookup, remove, lookup-remove, ◌==◌, ==_iff,
  Bool-cases, if◌then◌else◌, if_lem, same, arith,
}
use mostrix.Protocol.{Uuid, Action, Action-discrete}
use mostrix.Messages.{strip_new_order_messages_and_clamp_selected}
use mostrix.Dm.{is_row_of}
use mostrix.Ui.App.{App}
use mostrix.Ui.Sidebar.{build_active_order_chat_list}
use mostrix.Ui.Results.{is_one_of, remove_all, clamped, remove_many_orders_from_messages_tab}

module _ {ℓ} {A : Type ℓ} where
  any-retain :
      (p q : A → Bool) (xs : List A)
      → ((x : A) → q x ≡ true → p x ≡ false)
      → any p (retain q xs) ≡ false
  any-retain p q [] h = refl
  any-retain p q (x ∷ xs) h = elim (Bool-cases (q x)) [
    | inl e ↦ ground (arith, e, h x e, any-retain p q xs h)
    | inr e ↦ ground (arith, e, any-retain p q xs h)
  ]

  none_retained : (p q : A → Bool) (xs : List A) → any p xs ≡ false → any p (retain q xs) ≡ false
  none_retained p q [] h = refl
  none_retained p q (x ∷ xs) h = elim (Bool-cases (p x)) [
    | inl e ↦ absurd (true≢false (sym (ap (λ b. if b then true else any p xs) e) ∙ h))
    | inr e ↦
        let t : any p xs ≡ false = sym (ap (λ b. if b then true else any p xs) e) ∙ h in
        if_lem (λ ys. any p ys ≡ false) (q x) (λ q'. rw e (none_retained p q xs t))
          (λ q'. none_retained p q xs t)
  ]

lookup-remove_all {ℓ} :
    {V : Type ℓ} (ids : List Uuid) (i : Uuid) (m : List (Uuid × V))
    → lookup i (remove_all ids m) ≡ (if is_one_of ids i then none else lookup i m)
unfolding remove_all
lookup-remove_all [] i m = refl
lookup-remove_all (j ∷ ids) i m =
    ground (arith, lookup-remove_all ids i (remove j m), lookup-remove j i m)

not_theirs :
    (ids : List Uuid) (i : Uuid) (o : Option Uuid)
    → is_one_of ids i ≡ true
    → not (is_some_and o (is_one_of ids)) ≡ true
    → is_some_and o (λ j. j == i) ≡ false
not_theirs ids i none h k = refl
not_theirs ids i (some j) h k = elim (Bool-cases (j == i)) [
  | inl e ↦ absurd (true≢false (sym k ∙ ap not (ap (is_one_of ids) ((==_iff j i).0 e) ∙ h)))
  | inr e ↦ e
]

clamped_bound : (n i : ℕ) → (n ≡ 0) ⊎ (clamped n i < n)
clamped_bound n i = ground arith

-- After the history of some orders is deleted, an order has exactly the trade index, invoice preference,
-- chat, chat position and header that it had before, or none if it is one of them; none of the rows is
-- one of theirs; and the highlighted trade is a row of the new sidebar, if that has any.
pub deleted_forgotten :
    (ids : List Uuid) (i : Uuid) (app : App)
    → let after = remove_many_orders_from_messages_tab ids app in
      let rows = build_active_order_chat_list after.messages after.my_trades_maker_book in
      let gone = is_one_of ids i in
      (lookup i after.active_order_trade_indices
        ≡ (if gone then none else lookup i app.active_order_trade_indices))
      × (lookup i after.buyer_invoice_preference
          ≡ (if gone then none else lookup i app.buyer_invoice_preference))
      × (lookup i after.order_chats ≡ (if gone then none else lookup i app.order_chats))
      × (lookup i after.order_chat_last_seen
          ≡ (if gone then none else lookup i app.order_chat_last_seen))
      × (lookup i after.order_chat_static ≡ (if gone then none else lookup i app.order_chat_static))
      × (gone ≡ true → any (is_row_of i) after.messages ≡ false)
      × ((length rows ≡ 0) ⊎ (after.selected_order_chat_idx < length rows))
unfolding remove_many_orders_from_messages_tab strip_new_order_messages_and_clamp_selected
deleted_forgotten ids i app =
    let after = remove_many_orders_from_messages_tab ids app in
    let rows = build_active_order_chat_list after.messages after.my_trades_maker_book in
    (
      lookup-remove_all ids i app.active_order_trade_indices,
      lookup-remove_all ids i app.buyer_invoice_preference,
      lookup-remove_all ids i app.order_chats,
      lookup-remove_all ids i app.order_chat_last_seen,
      lookup-remove_all ids i app.order_chat_static,
      λ g.
          none_retained (is_row_of i)
            (λ m. not (same Action-discrete m.message.action Action.new_order))
            (retain (λ m. not (is_some_and m.order_id (is_one_of ids))) app.messages)
            (any-retain (is_row_of i) (λ m. not (is_some_and m.order_id (is_one_of ids)))
              app.messages (λ m k. not_theirs ids i m.order_id g k)),
      clamped_bound (length rows) app.selected_order_chat_idx,
    )
