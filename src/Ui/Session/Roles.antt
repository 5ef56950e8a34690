-- ===== src/Ui/Session/Roles.antt =====
-- main.rs: the turns of the loop from the start.
use mostrix.Prelude.{refl, subst, OnSome}
use mostrix.Ui.Tabs.{UserRole}
use mostrix.Ui.App.{App, new_app}
use mostrix.Ui.Placed.{IsPlaced, default-fits, first-IsTabOf}
use mostrix.Ui.Paste.Placed.{pasted-IsPlaced}
use mostrix.Ui.Keyboard.Placed.{handle_key_event-LeadsToPlaced}
use mostrix.Ui.Enter.Normal.Placed.{some_row}
use mostrix.Ui.Invoice.Placed.{handle_message_notification-IsPlaced}
use mostrix.Ui.Results.Placed.{handle_operation_result-IsPlaced}
use mostrix.Ui.Session.{Turn, Reaches}

Turn-IsPlaced : {app app' : App} → Turn app app' → IsPlaced app → IsPlaced app'
Turn-IsPlaced (Turn.key h validate app e q) p = handle_key_event-LeadsToPlaced h validate e app p
Turn-IsPlaced (Turn.paste app text) p = pasted-IsPlaced text app p
Turn-IsPlaced (Turn.result h app r) p = handle_operation_result-IsPlaced h r app p
Turn-IsPlaced (Turn.notified h app app' n q) p =
    subst (OnSome IsPlaced) q (handle_message_notification-IsPlaced h n app p)
Turn-IsPlaced (Turn.seed_words app are_new words) p = (p.0, refl, p.2)

-- From the start in either role, whatever turns of the loop (as modelled by `Turn`) follow each other:
-- the active tab is one of the role's, the mode is one of the role's or comes back to one, and the
-- highlighted row of Settings is one of the role's menu.
pub reached-IsPlaced : (r : UserRole) {app : App} → Reaches (new_app r) app → IsPlaced app
reached-IsPlaced r Reaches.here = (first-IsTabOf r, default-fits r, some_row r)
reached-IsPlaced r (Reaches.next s t) = Turn-IsPlaced t (reached-IsPlaced r s)
