-- ===== src/Ui/Paste.antt =====
-- main.rs (`apply_pasted_text_to_active_input`): a paste that the terminal brackets, or the right button.
pub mod Placed
use Prim.Native.Char.{Char, code}
use Prim.Native.String.{[] as empty, ◌∷◌ as cons, ◌++◌}
use mostrix.Prelude.{ℕ, String, Bool, true, not, ◌&&◌, ◌||◌, ◌==◌, if◌then◌else◌}
use mostrix.Protocol.{Action}
use mostrix.Ui.Mode.{UiMode, AdminMode, AddSolverState, InvoiceInputState, KeyInputState}
use mostrix.Ui.App.{App, set_mode}
use mostrix.Ui.TextInput.{is_control, paste_invoice, without_control}
use mostrix.Ui.Keyboard.Overlays.{observer_inputs_editable, append_observer}

-- Tabs are kept.
without_control_but_tab : String → String
without_control_but_tab empty = ""
without_control_but_tab (cons c s) =
    let rest = without_control_but_tab s in
    if is_control (code c) && not (code c == 9) then rest else cons c rest

abbrev paste_key : String → KeyInputState → KeyInputState
paste_key text st =
    if st.focused then record st { key_input = st.key_input ++ text; just_pasted = true } else st

-- Into an invoice, a new solver, an admin key or an address; no other popup takes it.
unfoldable pub paste_mode : String → UiMode → UiMode
unfolding paste_invoice
paste_mode text (UiMode.new_message_notification n Action.add_invoice st) =
    UiMode.new_message_notification n Action.add_invoice
      (if st.focused then paste_invoice text st else st)
paste_mode text (UiMode.admin_mode (AdminMode.add_solver st)) =
    UiMode.admin_mode (AdminMode.add_solver (record st { key_input = paste_key text st.key_input }))
paste_mode text (UiMode.admin_mode (AdminMode.setup_admin_key st)) =
    UiMode.admin_mode (AdminMode.setup_admin_key (paste_key text st))
paste_mode text (UiMode.add_ln_address st) = UiMode.add_ln_address (paste_key text st)
paste_mode text mode = mode

unfoldable pub apply_pasted_text_to_active_input : String → App → App
unfolding paste_mode without_control_but_tab without_control
apply_pasted_text_to_active_input text app =
    let app' = set_mode (paste_mode (without_control_but_tab text) app.mode) app in
    if observer_inputs_editable app' then append_observer app' (without_control text) else app'
