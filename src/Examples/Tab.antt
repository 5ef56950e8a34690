-- ===== src/Examples/Tab.antt =====
-- util/dm_utils/mod.rs on concrete inputs: the Messages tab and the counters.
use mostrix.Prelude.{◌≤◌, ◌≡◌, refl, true, none, some, List, [], ◌∷◌, ◌⊎◌, count, arith}
use mostrix.Protocol.{Uuid, Status, Action}
use mostrix.Messages.{OrderMessage}
use mostrix.Db.{get_by_id}
use mostrix.Dm.{State, Dm, newest_row, is_row_of}
use mostrix.Dm.Handler.{handle_trade_dm_for_order}
use mostrix.Dm.Rows.{WellFormed, Sorted}
use mostrix.Dm.Tab.{handle-WellFormed}
use mostrix.Dm.Dedupe.{Supersedes, late_message}
use mostrix.Dm.Counters.{Ring, bell, handle-Ring}
use mostrix.Samples.{sample_env, sample_row, sample_order_message, sample_dm, sample_state}

abbrev other_message : OrderMessage
other_message = record (sample_order_message Action.rate 20 (some Status.success)) {
  order_id = some 2;
}

-- The tab shows order 1 above order 2.
abbrev tab : List OrderMessage
tab =
    sample_order_message Action.add_invoice 30 (some Status.waiting_buyer_invoice)
    ∷ other_message
    ∷ []

abbrev trade : State
trade = sample_state (sample_row true Status.waiting_buyer_invoice ∷ []) tab

abbrev fiat_sent_dm : Dm
fiat_sent_dm = sample_dm Action.fiat_sent_ok none 50

tab_unique : (i : Uuid) → count (is_row_of i) tab ≤ 1
tab_unique i = ground arith

tab-WellFormed : WellFormed tab
unfolding Sorted
tab-WellFormed = record { sorted = ((omega arith, tt), (tt, tt)); unique = tab_unique }

handle-WellFormed_example :
    WellFormed (handle_trade_dm_for_order sample_env fiat_sent_dm trade).messages
handle-WellFormed_example = handle-WellFormed sample_env fiat_sent_dm trade tab-WellFormed

abbrev late_dm : Dm
late_dm = sample_dm Action.waiting_seller_to_pay none 10

late_message_example :
    ((handle_trade_dm_for_order sample_env late_dm trade).messages ≡ tab)
    ⊎ Supersedes late_dm
        (sample_order_message Action.add_invoice 30 (some Status.waiting_buyer_invoice))
        (get_by_id 1 trade.rows)
unfolding newest_row
late_message_example =
    late_message sample_env late_dm trade
      (sample_order_message Action.add_invoice 30 (some Status.waiting_buyer_invoice)) refl
      (λ h. cc) (λ h. cc) (omega arith)

handle-Ring_example :
    Ring (bell trade) (bell (handle_trade_dm_for_order sample_env fiat_sent_dm trade))
handle-Ring_example = handle-Ring sample_env fiat_sent_dm trade
