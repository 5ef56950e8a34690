-- ===== src/Ui/Session/Draft.antt =====
-- key_handler/navigation.rs, enter_handlers.rs and order_ch_mng.rs: the draft of the new-order form.
use mostrix.Prelude.{ℤ, ◌≡◌, refl, String, Bool, true, false, not, Option, none, some, [], ◌∷◌}
use mostrix.Protocol.{Uuid, SmallOrder, Action}
use mostrix.Ui.UserTab.{UserTab}
use mostrix.Ui.Tabs
use mostrix.Ui.Tabs.{UserRole, Tab}
use mostrix.Ui.Form.{FormState}
use mostrix.Ui.Mode.{UiMode, UserMode, OperationResult, OrderSuccess, OrderChatStaticHeader}
use mostrix.Ui.App.{App}
use mostrix.Ui.Host.{Host}
use mostrix.Ui.Task.{Task}
use mostrix.Ui.TabSwitch.{
  handle_tab_switch, leave_creating_order_to_adjacent_tab, save_and_leave_creating_order,
  switch_tab, restore_or_new_form,
}
use mostrix.Ui.Arrows.{handle_horizontal_key}
use mostrix.Ui.PopupKeys.{press_horizontal}
use mostrix.Ui.Enter.{handle_enter_key}
use mostrix.Ui.Results.{handle_operation_result, track, put_header}

-- A state in which a user edits a form.
abbrev pub editing : FormState → App → App
editing form app = record app {
  user_role = UserRole.user;
  active_tab = Tab.user UserTab.create_new_order;
  mode = UiMode.user_mode (UserMode.creating_order form);
}

-- Leaving the form for a neighbouring tab keeps it as the draft, and the way back opens it again, as it
-- was, and empties the draft; either neighbour.
pub draft_roundtrip :
    (h : Host) (left : Bool) (form : FormState) (app : App)
    → let away = press_horizontal h left (editing form app) in
      let back = press_horizontal h (not left) away in
      (away.order_form_draft ≡ some form)
      × (away.mode ≡ UiMode.user_mode UserMode.normal)
      × (back.active_tab ≡ Tab.user UserTab.create_new_order)
      × (back.mode ≡ UiMode.user_mode (UserMode.creating_order form))
      × (back.order_form_draft ≡ none)
unfolding press_horizontal handle_horizontal_key save_and_leave_creating_order
    leave_creating_order_to_adjacent_tab handle_tab_switch switch_tab restore_or_new_form Tabs.next
    Tabs.prev
draft_roundtrip h true form app = (refl, refl, refl, refl, refl)
draft_roundtrip h false form app = (refl, refl, refl, refl, refl)

-- A state in which YES is highlighted to send the form.
abbrev pub sending : FormState → App → App
sending form app = record app {
  user_role = UserRole.user;
  active_tab = Tab.user UserTab.create_new_order;
  mode = UiMode.user_mode (UserMode.confirming_order form true);
}

track_draft :
    (i : Option Uuid) (k : Option ℤ) (app : App)
    → (track i k app).order_form_draft ≡ app.order_form_draft
track_draft (some i) (some k) app = refl
track_draft (some i) none app = refl
track_draft none k app = refl

-- Confirming a form sends exactly it and keeps it as the draft; a failure leaves the draft, while success
-- or a request to pay a bond first empties it.
pub submission_keeps_draft :
    (h : Host) (form : FormState) (app : App) (message invoice : String) (os : OrderSuccess)
    (o : SmallOrder) (sats : Option ℤ) (index : ℤ) (header : OrderChatStaticHeader) (a : Action)
    → let sent = handle_enter_key h (sending form app) in
      let asked = OperationResult.payment_request_required o invoice sats index header a in
      (sent.tasks ≡ Task.send_new_order form ∷ [])
      × (sent.app.order_form_draft ≡ some form)
      × ((handle_operation_result h (OperationResult.error message) sent.app).order_form_draft
          ≡ some form)
      × ((handle_operation_result h (OperationResult.success os) sent.app).order_form_draft ≡ none)
      × ((handle_operation_result h asked sent.app).order_form_draft ≡ none)
unfolding handle_enter_key handle_operation_result
submission_keeps_draft h form app message invoice os o sats index header a =
    let sent = (handle_enter_key h (sending form app)).app in
    (
      refl,
      refl,
      refl,
      refl,
      track_draft o.id (some index) (record (put_header header sent) { order_form_draft = none }),
    )
