-- ===== src/Ui/TabSwitch.antt =====
-- key_handler/navigation.rs: leaving one tab for another, and the draft of the new-order form.
pub mod Placed
use mostrix.Prelude.{
  ℕ, Bool, true, false, Option, none, some, List, [], ◌∷◌, map, unwrap_or, if◌then◌else◌,
}
use mostrix.Messages.{OrderMessage, strip_new_order_messages_and_clamp_selected}
use mostrix.Ui.UserTab.{UserTab}
use mostrix.Ui.AdminTab.{AdminTab}
use mostrix.Ui.Tabs.{UserRole, Tab, prev, next}
use mostrix.Ui.Form.{FormState, new_default_form}
use mostrix.Ui.Mode.{UiMode, UserMode, AdminMode}
use mostrix.Ui.App.{App, set_mode, clear_observer_secrets}

abbrev pub is_messages : Tab → Bool
is_messages (Tab.user UserTab.messages) = true
is_messages _ = false

abbrev pub is_disputes_in_progress : Tab → Bool
is_disputes_in_progress (Tab.admin AdminTab.disputes_in_progress) = true
is_disputes_in_progress _ = false

abbrev pub is_observer : Tab → Bool
is_observer (Tab.admin AdminTab.observer) = true
is_observer _ = false

abbrev pub is_create_new_order : Tab → Bool
is_create_new_order (Tab.user UserTab.create_new_order) = true
is_create_new_order _ = false

abbrev pub is_managing_dispute : UiMode → Bool
is_managing_dispute (UiMode.admin_mode AdminMode.managing_dispute) = true
is_managing_dispute _ = false

abbrev pub mark_read : OrderMessage → OrderMessage
mark_read m = record m { read = true }

-- Entering Messages: no notification is pending and every row is read.
unfoldable pub enter_messages : App → App
enter_messages app =
    let kept = strip_new_order_messages_and_clamp_selected app.messages app.selected_message_idx in
    record app {
      pending_notifications = 0;
      messages = map mark_read kept.0;
      selected_message_idx = kept.1;
    }

abbrev read_on_enter : Tab → App → App
read_on_enter prev_tab app =
    if is_messages app.active_tab
    then (if is_messages prev_tab then app else enter_messages app)
    else app

abbrev manage_on_enter : Tab → App → App
manage_on_enter prev_tab app =
    if is_disputes_in_progress app.active_tab
    then (if is_disputes_in_progress prev_tab then app else record app {
      mode = UiMode.admin_mode AdminMode.managing_dispute;
      admin_chat_scroll_tracker = none;
    })
    else if is_disputes_in_progress prev_tab
    then (if is_managing_dispute app.mode
        then set_mode (UiMode.admin_mode AdminMode.normal) app
        else app)
    else app

abbrev clear_on_leave : Tab → App → App
clear_on_leave prev_tab app = if is_observer prev_tab then clear_observer_secrets app else app

unfoldable pub handle_tab_switch : Tab → App → App
unfolding enter_messages clear_observer_secrets
handle_tab_switch prev_tab app =
    clear_on_leave prev_tab (manage_on_enter prev_tab (read_on_enter prev_tab app))

-- The draft, or a fresh form; the draft is consumed.
unfoldable pub restore_or_new_form : App → FormState
restore_or_new_form app = unwrap_or app.order_form_draft new_default_form

abbrev pub moved_tab : Bool → App → App
moved_tab to_prev app = record app {
  active_tab =
      if to_prev then prev app.active_tab app.user_role else next app.active_tab app.user_role;
}

unfoldable pub leave_creating_order_to_adjacent_tab : Bool → App → App
unfolding handle_tab_switch
leave_creating_order_to_adjacent_tab to_prev app =
    set_mode (UiMode.user_mode UserMode.normal)
      (handle_tab_switch app.active_tab (moved_tab to_prev app))

unfoldable pub save_and_leave_creating_order : FormState → Bool → App → App
unfolding leave_creating_order_to_adjacent_tab
save_and_leave_creating_order form to_prev app =
    leave_creating_order_to_adjacent_tab to_prev (record app { order_form_draft = some form })

-- Left and Right in a normal mode: the next tab, and the form where that is New Order.
unfoldable pub switch_tab : Bool → App → App
unfolding handle_tab_switch restore_or_new_form
switch_tab to_prev app =
    let there = handle_tab_switch app.active_tab (moved_tab to_prev app) in
    if is_create_new_order there.active_tab
    then record there {
      mode = UiMode.user_mode (UserMode.creating_order (restore_or_new_form there));
      order_form_draft = none;
    }
    else there
