-- ===== src/Ui/Paste/Placed.antt =====
-- main.rs: the role, the tab and the mode under a paste.
use mostrix.Prelude.{String, if_lem}
use mostrix.Protocol.{Action}
use mostrix.Ui.Tabs.{UserRole}
use mostrix.Ui.Mode.{UiMode, AdminMode}
use mostrix.Ui.App.{App, set_mode}
use mostrix.Ui.Placed.{IsPlaced}
use mostrix.Ui.Keyboard.Overlays.{observer_inputs_editable}
use mostrix.Ui.Keyboard.Keeping.{Fit}
use mostrix.Ui.Paste.{without_control_but_tab, paste_mode, apply_pasted_text_to_active_input}

paste_mode-Fit : (r : UserRole) (text : String) (m : UiMode) → Fit r m → Fit r (paste_mode text m)
unfolding paste_mode
paste_mode-Fit r text (UiMode.new_message_notification n Action.add_invoice st) q = q
paste_mode-Fit r text (UiMode.admin_mode (AdminMode.add_solver st)) q = q
paste_mode-Fit r text (UiMode.admin_mode (AdminMode.setup_admin_key st)) q = q
paste_mode-Fit r text (UiMode.add_ln_address st) q = q
paste_mode-Fit r text m q = q

pub pasted-IsPlaced :
    (text : String) (app : App)
    → IsPlaced app
    → IsPlaced (apply_pasted_text_to_active_input text app)
unfolding apply_pasted_text_to_active_input
pasted-IsPlaced text app p =
    let mode = paste_mode (without_control_but_tab text) app.mode in
    let fits = paste_mode-Fit app.user_role (without_control_but_tab text) app.mode p.1 in
    if_lem {A = App} IsPlaced (observer_inputs_editable (set_mode mode app)) (λ w. (p.0, fits, p.2))
      (λ w. (p.0, fits, p.2))
