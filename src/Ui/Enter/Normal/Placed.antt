-- ===== src/Ui/Enter/Normal/Placed.antt =====
-- key_handler/enter_handlers.rs: the role, the tab and the mode under Enter on a tab.
use mostrix.Prelude.{
  ◌<◌, ◌≡◌, refl, true, not, Option, none, some, OnSome, is_empty, trim, arith, if_lem, option_lem,
}
use mostrix.Protocol.{SmallOrder}
use mostrix.Disputes.{Dispute}
use mostrix.Ui.UserTab.{UserTab}
use mostrix.Ui.AdminTab.{AdminTab}
use mostrix.Ui.Tabs.{UserRole, Tab}
use mostrix.Ui.App.{
  App, switch_role, handle_mode_switch, begin_observer_fetch, clear_observer_secrets,
}
use mostrix.Ui.Host.{Host}
use mostrix.Ui.SettingsMenu.{SettingsMenuAction, settings_action_for_index, options_count}
use mostrix.Ui.SettingsMenu.Rows.{allowed, settings_action_for_index-Allowed}
use mostrix.Ui.Selection.{selected_filtered_book_order, selected_pending_dispute}
use mostrix.Ui.Placed.{
  IsTabOf, IsPlaced, LeadsToPlaced, is_user, is_admin, first-IsTabOf, default-fits, role_lem,
}
use mostrix.Ui.Enter.Chat.Placed.{handle_enter_user_order_chat-LeadsToPlaced}
use mostrix.Ui.Enter.Opening.Placed.{open_selected_message-IsPlaced}
use mostrix.Ui.Enter.Normal.{
  own_listing, cancelling, open_order, open_dispute, observer_failed, fetch_observer_chat,
  open_setting, settings_step, user_tab, admin_tab, on_tab, handle_enter_normal_mode,
}

pub some_row : (r : UserRole) → 0 < options_count r
some_row UserRole.user = omega arith
some_row UserRole.admin = omega arith

switch_role-IsPlaced : (r : UserRole) (app : App) → IsPlaced (switch_role r app)
unfolding switch_role clear_observer_secrets
switch_role-IsPlaced r app = (first-IsTabOf r, default-fits r, some_row r)

mode_switch-IsPlaced : (app : App) → IsPlaced (handle_mode_switch app)
unfolding handle_mode_switch
mode_switch-IsPlaced app =
    role_lem IsPlaced app.user_role (λ q. switch_role-IsPlaced UserRole.admin app)
      (λ q. switch_role-IsPlaced UserRole.user app)

open_order-IsPlaced :
    (o : Option SmallOrder) (app : App)
    → IsPlaced app
    → is_user app.user_role ≡ true
    → IsPlaced (open_order o app)
unfolding open_order cancelling
open_order-IsPlaced none app p u = p
open_order-IsPlaced (some o) app p u =
    option_lem IsPlaced (own_listing app o) (λ q. (p.0, u, p.2)) (λ i q. (p.0, refl, p.2))

open_dispute-IsPlaced :
    (o : Option Dispute) (app : App)
    → IsPlaced app
    → is_admin app.user_role ≡ true
    → IsPlaced (open_dispute o app)
unfolding open_dispute
open_dispute-IsPlaced none app p a = p
open_dispute-IsPlaced (some d) app p a = (p.0, a, p.2)

fetch_observer_chat-LeadsToPlaced :
    (h : Host) (app : App) → IsPlaced app → LeadsToPlaced (fetch_observer_chat h app)
unfolding fetch_observer_chat observer_failed begin_observer_fetch
fetch_observer_chat-LeadsToPlaced h app p =
    let key = trim app.observer_shared_key_input in
    if_lem LeadsToPlaced (is_empty key) (λ q. (p.0, refl, p.2))
      (λ q. if_lem LeadsToPlaced (not (h.is_shared_hex key)) (λ q'. (p.0, refl, p.2)) (λ q'. p))

open_setting-LeadsToPlaced :
    (o : Option SettingsMenuAction) (app : App)
    → IsPlaced app
    → OnSome (λ a. allowed app.user_role a ≡ true) o
    → LeadsToPlaced (open_setting o app)
unfolding open_setting
open_setting-LeadsToPlaced none app p a = p
open_setting-LeadsToPlaced (some SettingsMenuAction.switch_mode) app p a = mode_switch-IsPlaced app
open_setting-LeadsToPlaced (some SettingsMenuAction.add_dispute_solver) app p a = (p.0, a, p.2)
open_setting-LeadsToPlaced (some SettingsMenuAction.change_admin_key) app p a = (p.0, a, p.2)
open_setting-LeadsToPlaced (some x) app p a = (p.0, refl, p.2)

settings_step-LeadsToPlaced : (app : App) → IsPlaced app → LeadsToPlaced (settings_step app)
unfolding settings_step
settings_step-LeadsToPlaced app p =
    open_setting-LeadsToPlaced
      (settings_action_for_index app.user_role app.selected_settings_option) app p
      (settings_action_for_index-Allowed app.user_role app.selected_settings_option)

user_of : (r : UserRole) (t : UserTab) → IsTabOf r (Tab.user t) → is_user r ≡ true
user_of UserRole.user t h = refl
user_of UserRole.admin t h = absurd h

admin_of : (r : UserRole) (t : AdminTab) → IsTabOf r (Tab.admin t) → is_admin r ≡ true
admin_of UserRole.admin t h = refl
admin_of UserRole.user t h = absurd h

user_tab-LeadsToPlaced :
    (h : Host) (t : UserTab) (app : App)
    → IsPlaced app
    → IsTabOf app.user_role (Tab.user t)
    → LeadsToPlaced (user_tab h t app)
unfolding user_tab
user_tab-LeadsToPlaced h UserTab.mostro_info app p f = (p.0, refl, p.2)
user_tab-LeadsToPlaced h UserTab.my_trades app p f =
    handle_enter_user_order_chat-LeadsToPlaced h app p
user_tab-LeadsToPlaced h UserTab.orders app p f =
    open_order-IsPlaced (selected_filtered_book_order h.to_uppercase app h.orders) app p
      (user_of app.user_role UserTab.orders f)
user_tab-LeadsToPlaced h UserTab.messages app p f = open_selected_message-IsPlaced h app p
user_tab-LeadsToPlaced h UserTab.exit app p f = (p.0, refl, p.2)
user_tab-LeadsToPlaced h UserTab.settings app p f = settings_step-LeadsToPlaced app p
user_tab-LeadsToPlaced h UserTab.create_new_order app p f = p

admin_tab-LeadsToPlaced :
    (h : Host) (t : AdminTab) (app : App)
    → IsPlaced app
    → IsTabOf app.user_role (Tab.admin t)
    → LeadsToPlaced (admin_tab h t app)
unfolding admin_tab
admin_tab-LeadsToPlaced h AdminTab.mostro_info app p f = (p.0, refl, p.2)
admin_tab-LeadsToPlaced h AdminTab.disputes_pending app p f =
    open_dispute-IsPlaced (selected_pending_dispute h.dispute_text app h.disputes) app p
      (admin_of app.user_role AdminTab.disputes_pending f)
admin_tab-LeadsToPlaced h AdminTab.disputes_in_progress app p f = p
admin_tab-LeadsToPlaced h AdminTab.observer app p f = fetch_observer_chat-LeadsToPlaced h app p
admin_tab-LeadsToPlaced h AdminTab.exit app p f = (p.0, refl, p.2)
admin_tab-LeadsToPlaced h AdminTab.settings app p f = settings_step-LeadsToPlaced app p

on_tab-LeadsToPlaced :
    (h : Host) (t : Tab) (app : App)
    → IsPlaced app
    → IsTabOf app.user_role t
    → LeadsToPlaced (on_tab h t app)
unfolding on_tab
on_tab-LeadsToPlaced h (Tab.user t) app p f = user_tab-LeadsToPlaced h t app p f
on_tab-LeadsToPlaced h (Tab.admin t) app p f = admin_tab-LeadsToPlaced h t app p f

pub handle_enter_normal_mode-LeadsToPlaced :
    (h : Host) (app : App) → IsPlaced app → LeadsToPlaced (handle_enter_normal_mode h app)
unfolding handle_enter_normal_mode
handle_enter_normal_mode-LeadsToPlaced h app p = on_tab-LeadsToPlaced h app.active_tab app p p.0
