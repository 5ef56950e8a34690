-- ===== src/Examples/Listener.antt =====
-- util/dm_utils/mod.rs on concrete inputs: batches.
use mostrix.Prelude.{pos, ◌≡◌, refl, true, false, none, some, [], ◌∷◌, ◌⊎◌}
use mostrix.Protocol.{Status, Action}
use mostrix.Db.{Order, get_by_id, later}
use mostrix.Dm.Terminal.{trade_message_is_terminal}
use mostrix.Dm.Batch.{
  Listener, Batch, Parsed, tracked_subscription, untracked_fallback, handle_parsed, run_batch,
}
use mostrix.Dm.Batch.Laws.{knows, terminal_forgets, handle_parsed-cursor}
use mostrix.Samples.{sample_env, sample_row, sample_message, sample_state}

abbrev listener : Listener
listener = record {
  state = sample_state (sample_row true Status.active ∷ []) [];
  active_order_trade_indices = (1, pos 3) ∷ (2, pos 4) ∷ [];
  subscribed_pubkeys = 6 ∷ [];
  subscription_to_order = (11, (1, pos 3)) ∷ [];
  registered = 11 ∷ [];
  unsubscribed = [];
}

abbrev tracked : Batch
tracked = record {
  order_id = 1;
  trade_index = pos 3;
  trade_keys = 8;
  trade_pubkey = some 6;
  notify = true;
  terminal_policy = tracked_subscription 11;
}

abbrev fallback : Batch
fallback = record tracked { terminal_policy = untracked_fallback }

abbrev fiat_sent : Parsed
fiat_sent = (sample_message Action.fiat_sent_ok none, 50, 5)

abbrev canceled : Parsed
canceled = (sample_message Action.admin_canceled none, 51, 5)

abbrev rated : Parsed
rated = (sample_message Action.rate none, 52, 5)

terminal_forgets_example :
    knows 1 (run_batch sample_env tracked (fiat_sent ∷ canceled ∷ []) listener) ≡ false
unfolding trade_message_is_terminal
terminal_forgets_example =
    terminal_forgets sample_env tracked (fiat_sent ∷ canceled ∷ []) listener refl

handle_parsed-cursor_example :
    (get_by_id 1 (handle_parsed sample_env tracked fiat_sent listener.state).rows ≡ none)
    ⊎ ((r : Order) × (get_by_id 1 (handle_parsed sample_env tracked fiat_sent listener.state).rows
          ≡ some r)
        × (r.last_seen_dm_ts ≡ later (some 40) 50)
        × (r.trade_keys ≡ some "secret")
        × (r.is_mine ≡ true)
        × (r.trade_index ≡ some (pos 3)))
unfolding get_by_id
handle_parsed-cursor_example =
    handle_parsed-cursor sample_env tracked fiat_sent listener.state (sample_row true Status.active)
      refl
