-- ===== src/Ui/Session/Observer.antt =====
-- app_state.rs and order_ch_mng.rs: what an observer fetches for a key that was left behind.
use mostrix.Prelude.{ℕ, ◌-◌, ◌^◌, ◌<◌, ◌≡◌, refl, String, false, List, ◌==◌, arith}
use mostrix.Ui.Mode.{DisputeChatMessage, OperationResult}
use mostrix.Ui.App.{App, next_generation, begin_observer_fetch, clear_observer_secrets}
use mostrix.Ui.Host.{Host}
use mostrix.Ui.Results.{handle_operation_result}

later_generation : (g : ℕ) → g < 2 ^ 64 - 1 → (g == next_generation g) ≡ false
later_generation g l = ground arith

-- While the generations have not run out, the messages or the failure of a fetch that come in after the
-- secrets were wiped, or after another fetch began, change nothing.
pub stale_fetch_ignored :
    (h : Host) (app : App) (messages : List DisputeChatMessage) (message : String)
    → next_generation app.observer_fetch_generation < 2 ^ 64 - 1
    → let fetching = begin_observer_fetch app in
      let g = fetching.observer_fetch_generation in
      let cleared = clear_observer_secrets fetching in
      let again = begin_observer_fetch fetching in
      let loaded = OperationResult.observer_chat_loaded g messages in
      let failed = OperationResult.observer_chat_error g message in
      (handle_operation_result h loaded cleared ≡ cleared)
      × (handle_operation_result h failed cleared ≡ cleared)
      × (handle_operation_result h loaded again ≡ again)
      × (handle_operation_result h failed again ≡ again)
unfolding handle_operation_result begin_observer_fetch clear_observer_secrets
stale_fetch_ignored h app messages message l =
    let q = later_generation (next_generation app.observer_fetch_generation) l in
    (rw q refl, rw q refl, rw q refl, rw q refl)
