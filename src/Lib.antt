-- ===== src/Lib.antt =====
-- Mostrix, a terminal client of the Mostro peer-to-peer exchange: the parts that decide what a trade
-- message does to the user's orders, and what keys and results do to the interface.
--
-- A message reaches the client as an encrypted direct message (DM) for one order. The listener of
-- src/util/dm_utils/mod.rs decodes it and calls `handle_trade_dm_for_order`, which writes the local
-- `orders` table (src/models.rs, src/util/db_utils.rs), the rows of the Messages tab
-- (src/ui/orders.rs), the unread counter, the notifications and the chat router's commands. The
-- guard of src/util/order_utils/helper.rs says which candidate status may follow which.
--
-- The interface is one state (`AppState` of src/ui/app_state.rs) with a mode. The main loop
-- (src/main.rs) changes it by keys (src/ui/key_handler), by the results of background tasks
-- (src/util/dm_utils/order_ch_mng.rs) and by the notifications of the listener
-- (src/util/dm_utils/notifications_ch_mng.rs). A key may set off tasks, whose results come back later.
--
-- Files:
-- - Prelude: the vocabulary of the libraries, Boolean tests, lists over native numbers, `i64` values.
-- - Protocol: the wire types of the crate `mostro_core`, as far as the code names them. They are not
--   code of this repository: the variants and fields are those that the program matches on.
-- - OrderStatus: `should_apply_status_transition` and the functions around it
--   (src/util/order_utils/helper.rs); OrderStatus/Guard has the guard as an order.
-- - Messages: the rows of the Messages tab and all that is decided on one row: popups, notifications,
--   the stepper (Timeline), labels, the status banner (Presentation), the receipt (Snapshot)
--   (src/ui/orders.rs).
-- - Db: the `orders` table as a list of rows, and its writers; Db/Rows builds rows from wire orders.
-- - Dm: the handler. Dm/Terminal classifies messages and statuses, Dm/Effects has the writes before
--   the status guard, Dm/NewOrder the `NewOrder` special cases, Dm/Judge what a message is compared
--   with, Dm/Handler the handler itself and Dm/Batch the loop `dispatch_giftwrap_batch`. The other children hold theorems.
-- - Relay: order events of the relays (`aggregate_latest_orders_by_id` of
--   src/util/order_utils/helper.rs), the terminal reconcile and the round-robin tick
--   (src/util/order_utils/relay_order_db_reconcile.rs). An event comes with the order that
--   `order_from_tags` reads from it; the map is an association list. Relay/Book has the lists that are
--   shown of it (`parse_orders_events`, `pending_orders_for_book`); Relay/Cursor, Relay/Visits and
--   Relay/Listing have the lemmas on a targeted tick that Relay/Fairness uses for a run of ticks.
-- - Disputes: a solver's taken disputes, in the table and in memory (`AdminDispute` of src/models.rs,
--   src/util/order_utils/relay_dispute_db_reconcile.rs); Disputes/Taking has `AdminDispute::new`.
-- - Chat: the bounded set of seen event ids (`OuterIdLru` of src/util/chat_security.rs) and the chat
--   listener's tracked keys (`apply_chat_router_cmd` of src/util/chat_listener.rs).
-- - TradeIndex: the counter that trade keys are derived from (`User::reserve_next_trade_index` of
--   src/models.rs). Bond: the bond choices (src/util/order_utils/bond_resolution.rs).
-- - Attachment: the image header reader of src/util/file_validation.rs; bytes are numbers, and an index
--   out of range is an outcome.
-- - Ui: the interface. Ui/UserTab, Ui/AdminTab and Ui/Tabs (src/ui/navigation.rs), Ui/Form and Ui/Mode
--   (the form, the modes and the results: src/ui/orders.rs, user_state.rs, admin_state.rs, chat.rs),
--   Ui/App (`AppState`), Ui/Sidebar (src/ui/helpers/order_chat_projection.rs; its `HashMap` is a list in
--   the order of iteration, which Ids and Sorted are about), Ui/Selection
--   (order_selection.rs, dispute_selection.rs), Ui/SettingsMenu (src/ui/tabs/settings_tab.rs).
--   The keys are src/ui/key_handler: Ui/TabSwitch and Ui/Arrows (navigation.rs), Ui/PopupKeys and
--   Ui/TradeKeys (mod.rs), Ui/Esc (esc_handlers.rs), Ui/Enter (enter_handlers.rs, with Message,
--   Dispute, Chat, Settings, Opening and Normal for the parts that Enter dispatches to),
--   Ui/Validation (validation.rs). Ui/Key has the key events of the terminal library and Ui/Keyboard
--   `handle_key_event` (mod.rs): the handlers that come before the last match are functions to
--   `Keyboard.Flow.KeyFlow`, in Overlays, Attachments and Typing. Ui/TextInput is input_helpers.rs and
--   Ui/FormInput form_input.rs; Ui/Currencies is src/ui/currencies.rs, Ui/Paste
--   `apply_pasted_text_to_active_input` of src/main.rs, and Ui/Take `validate_range_amount`
--   (src/util/order_utils/helper.rs) and the life of a take popup. Ui/Results is `handle_operation_result`, Ui/Placeholder the row it
--   may insert, Ui/Invoice `handle_message_notification` and the invoice popups. Ui/Session has the
--   turns of the main loop as a step relation. Modules called Placed show, handler by handler, what
--   Ui/Placed states of a state; the other children hold theorems.
-- - Samples, Examples: concrete inputs, and the theorems applied to them.
--
-- State: `Dm.State` has the table, the Messages rows, the counter, and what was sent so far
-- (notifications, chat commands, router notices), newest last. A function from state to state stands
-- for an async function; one call runs to its end before the next one starts.
--
-- A handler of the interface is a function from state to state; a key also gives the tasks that it sets
-- off (`Ui.Task`) and whether the program goes on. What a handler reads from outside (the order book,
-- the settings file, the clock, parsers of other crates) is in `Ui.Host`. Ids that the code keeps as
-- texts of uuids are uuids; hash maps are association lists.
--
-- Bounds: timestamps are `i64` values that the code makes from unsigned seconds, so they are natural
-- numbers here; other `i64` values keep their sign (`ℤ`) and are compared with zero, never added.
-- Loops are structural recursion on lists, so no fuel is needed but for the JPEG loop, where one pass
-- for each byte is enough.
--
-- Parameters (`Db.Env`): key parsing and ECDH of nostr_sdk, the clock, fresh ids, chat cursors on disk
-- and the printing of local time. Nothing is assumed about them. The texts of the dispute statuses are
-- `Disputes.DisputeText`; `Disputes.Reads` says that a text reads as a status exactly if it is that
-- status's text. `Chat.ChatKeys` has the key derivations of the chat, and `Ui.Take.Float64` the floating
-- point numbers.
--
-- Not modelled: relay sockets and decryption, SQL errors, poisoned locks (the program then asks for a
-- restart), logging and drawing, scroll positions and the attachment toast among it; what other tasks do
-- between two locks of one call; the file explorer and the clipboard, which are other crates'; the bodies
-- of the tasks that a key sets off.
pub mod Prelude
pub mod Protocol
pub mod OrderStatus
pub mod Messages
pub mod Db
pub mod Dm
pub mod Relay
pub mod Disputes
pub mod Chat
pub mod TradeIndex
pub mod Bond
pub mod Attachment
pub mod Ui
pub mod Samples
pub mod Examples
