-- ===== src/Ui/Arrows/Placed.antt =====
-- key_handler/navigation.rs: the role, the tab and the mode under the arrow and tab keys.
use mostrix.Prelude.{
  ℕ, ◌+◌, ◌-◌, ◌<◌, ◌≡◌, ◌∙◌, refl, String, Bool, true, false, Option, none, some, List, ltb, arith,
  if◌then◌else◌, if_lem, option_lem,
}
use mostrix.Protocol.{SmallOrder}
use mostrix.Disputes.{DisputeText, Dispute}
use mostrix.Ui.Tabs.{UserRole, Tab}
use mostrix.Ui.UserTab.{UserTab}
use mostrix.Ui.AdminTab.{AdminTab}
use mostrix.Ui.Form.{FormState}
use mostrix.Ui.Mode.{UiMode, UserMode, AdminMode}
use mostrix.Ui.App.{App}
use mostrix.Ui.SettingsMenu.{options_count}
use mostrix.Ui.Selection.{
  move_book_order_selection, move_pending_dispute_selection, move_dispute_selection,
}
use mostrix.Ui.TabSwitch.{is_create_new_order, is_disputes_in_progress}
use mostrix.Ui.TabSwitch.Placed.{leaving_form-IsPlaced, switch_tab-IsPlaced}
use mostrix.Ui.Placed.{IsPlaced, mode_fits, is_user}
use mostrix.Ui.Arrows.{
  select_button, form_of, is_browsing, leave_form, handle_horizontal_key, move_message, move_trade,
  move_setting, browse, vertical, solver_available, switch_channel, tab_in_form, tab_key,
}

select_button_fits :
    (b : Bool) (r : UserRole) (m : UiMode) → mode_fits r (select_button b m) ≡ mode_fits r m
unfolding select_button
select_button_fits b r (UiMode.user_mode (UserMode.confirming_order f c)) = refl
select_button_fits b r (UiMode.user_mode (UserMode.taking_order t)) = refl
select_button_fits b r (UiMode.admin_mode (AdminMode.confirm_add_solver k p c)) = refl
select_button_fits b r (UiMode.admin_mode (AdminMode.confirm_admin_key k c)) = refl
select_button_fits b r (UiMode.admin_mode (AdminMode.confirm_finalize_dispute i s o c)) = refl
select_button_fits b r m = refl

form-is_user :
    (r : UserRole) (m : UiMode) (f : FormState)
    → mode_fits r m ≡ true
    → form_of m ≡ some f
    → is_user r ≡ true
form-is_user r (UiMode.user_mode (UserMode.creating_order form)) f a q = a
form-is_user r m f a q = cc

leave_form-IsPlaced :
    (b : Bool) (f : FormState) (app : App)
    → IsPlaced app
    → is_user app.user_role ≡ true
    → IsPlaced (leave_form b f app)
leave_form-IsPlaced b f app p u =
    if_lem IsPlaced (is_create_new_order app.active_tab) (λ q. leaving_form-IsPlaced f b app p u)
      (λ q. p)

pub handle_horizontal_key-IsPlaced :
    (b : Bool) (app : App) → IsPlaced app → IsPlaced (handle_horizontal_key b app)
unfolding handle_horizontal_key
handle_horizontal_key-IsPlaced b app p =
    option_lem IsPlaced (form_of app.mode)
      (λ q.
        if_lem IsPlaced (is_browsing app.mode) (λ q'. switch_tab-IsPlaced b app p)
          (λ q'. (p.0, select_button_fits b app.user_role app.mode ∙ p.1, p.2)))
      (λ f q. leave_form-IsPlaced b f app p (form-is_user app.user_role app.mode f p.1 q))

-- The settings row after a move is one of the menu's.
setting_bound :
    (up : Bool) (i n : ℕ) → i < n → (if up then i - 1 else if ltb i (n - 1) then i + 1 else i) < n
setting_bound true i n h = omega arith
setting_bound false i n h = ground arith

move_setting-IsPlaced : (up : Bool) (app : App) → IsPlaced app → IsPlaced (move_setting up app)
unfolding move_setting
move_setting-IsPlaced up app p =
    (p.0, p.1, setting_bound up app.selected_settings_option (options_count app.user_role) p.2)

module _ (up : String → String) (x : DisputeText) (orders : List SmallOrder)
    (disputes : List Dispute) where
  browse-IsPlaced :
      (b : Bool) (t : Tab) (app : App)
      → IsPlaced app
      → IsPlaced (browse up x orders disputes b t app)
  unfolding browse move_book_order_selection move_pending_dispute_selection move_dispute_selection
      move_message move_trade
  browse-IsPlaced b (Tab.user UserTab.orders) app p = p
  browse-IsPlaced b (Tab.admin AdminTab.disputes_pending) app p = p
  browse-IsPlaced b (Tab.admin AdminTab.disputes_in_progress) app p = p
  browse-IsPlaced b (Tab.user UserTab.messages) app p = p
  browse-IsPlaced b (Tab.user UserTab.my_trades) app p = p
  browse-IsPlaced b (Tab.admin AdminTab.settings) app p = move_setting-IsPlaced b app p
  browse-IsPlaced b (Tab.user UserTab.settings) app p = move_setting-IsPlaced b app p
  browse-IsPlaced b t app p = p

  browse_if-IsPlaced :
      (b c : Bool) (app : App)
      → IsPlaced app
      → IsPlaced (if c then browse up x orders disputes b app.active_tab app else app)
  browse_if-IsPlaced b c app p =
      if_lem IsPlaced c (λ q. browse-IsPlaced b app.active_tab app p) (λ q. p)

  pub vertical-IsPlaced :
      (b : Bool) (m : UiMode) (app : App)
      → IsPlaced app
      → mode_fits app.user_role m ≡ true
      → IsPlaced (vertical up x orders disputes b m app)
  unfolding vertical move_dispute_selection
  vertical-IsPlaced b (UiMode.user_mode (UserMode.creating_order f)) app p a = (p.0, a, p.2)
  vertical-IsPlaced true (UiMode.admin_mode AdminMode.managing_dispute) app p a =
      browse-IsPlaced true app.active_tab app p
  vertical-IsPlaced false (UiMode.admin_mode AdminMode.managing_dispute) app p a =
      if_lem IsPlaced (is_disputes_in_progress app.active_tab) (λ q. p) (λ q. p)
  vertical-IsPlaced b m app p a = browse_if-IsPlaced b (is_browsing m) app p

switch_channel-IsPlaced : (app : App) → IsPlaced app → IsPlaced (switch_channel app)
switch_channel-IsPlaced app p = if_lem IsPlaced (solver_available app) (λ q. p) (λ q. p)

tab_in_form-IsPlaced :
    (b : Bool) (m : UiMode) (o : Option FormState) (app : App)
    → IsPlaced app
    → ((f : FormState) → o ≡ some f → is_user app.user_role ≡ true)
    → IsPlaced (tab_in_form b o app)
tab_in_form-IsPlaced b m none app p u = p
tab_in_form-IsPlaced b m (some f) app p u = (p.0, u f refl, p.2)

pub tab_key-IsPlaced : (b : Bool) (t : Tab) (app : App) → IsPlaced app → IsPlaced (tab_key b t app)
unfolding tab_key
tab_key-IsPlaced b (Tab.admin AdminTab.disputes_in_progress) app p = p
tab_key-IsPlaced b (Tab.user UserTab.my_trades) app p = switch_channel-IsPlaced app p
tab_key-IsPlaced b t app p =
    tab_in_form-IsPlaced b app.mode (form_of app.mode) app p
      (λ f q. form-is_user app.user_role app.mode f p.1 q)
