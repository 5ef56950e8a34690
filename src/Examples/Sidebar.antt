-- ===== src/Examples/Sidebar.antt =====
-- ui/helpers/order_chat_projection.rs on concrete inputs.
use mathlib.Core.List.{Permᴰ}
use mostrix.Prelude.{◌≡◌, refl, some, none, List, [], ◌∷◌, map}
use mostrix.Protocol.{Status, Action}
use mostrix.Messages.{OrderMessage}
use mostrix.Ui.Sidebar.{
  OrderChatListItem, blank_entry, sort_order_chat_rows, append_maker_book_rows_without_dm,
  build_active_order_chat_list, merge_rows, merge_into, merge_message_into_entry, insert_item,
}
use mostrix.Ui.Sidebar.Sorted.{iteration_free}
use mostrix.Samples.{sample_order_message}

-- Two trades with the same index.
abbrev messages : List OrderMessage
messages =
    record (sample_order_message Action.rate 20 (some Status.success)) { order_id = some 2 }
    ∷ sample_order_message Action.add_invoice 30 (some Status.waiting_buyer_invoice)
    ∷ []

-- The maker's listings: one of its own, and one that has messages.
abbrev maker_book : List OrderChatListItem
maker_book =
    record (blank_entry 3 (sample_order_message Action.rate 20 none)) { trade_index = none }
    ∷ blank_entry 2 (sample_order_message Action.rate 20 none)
    ∷ []

-- The two trades in the other order.
abbrev iterated : List OrderChatListItem
iterated =
    blank_entry 1 (sample_order_message Action.add_invoice 30 (some Status.waiting_buyer_invoice))
    ∷ blank_entry 2 (sample_order_message Action.rate 20 (some Status.success))
    ∷ []

sidebar_test :
    map (λ (r : OrderChatListItem). r.order_id) (build_active_order_chat_list messages maker_book)
    ≡ 1 ∷ 2 ∷ 3 ∷ []
unfolding build_active_order_chat_list sort_order_chat_rows append_maker_book_rows_without_dm
    merge_rows merge_into merge_message_into_entry insert_item
sidebar_test = refl

iteration_free_example :
    sort_order_chat_rows (append_maker_book_rows_without_dm iterated maker_book)
    ≡ build_active_order_chat_list messages maker_book
unfolding merge_rows merge_into merge_message_into_entry
iteration_free_example =
    iteration_free messages maker_book iterated (refl, (refl, tt)) (Permᴰ.swap refl refl)
