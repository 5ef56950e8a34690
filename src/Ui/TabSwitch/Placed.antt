-- ===== src/Ui/TabSwitch/Placed.antt =====
-- key_handler/navigation.rs: the role, the tab and the mode under switching tabs.
use mostrix.Prelude.{◌≡◌, refl, ◌∙◌, ap, Bool, true, false, some, if_lem}
use mostrix.Ui.Tabs.{UserRole, Tab, prev, next}
use mostrix.Ui.Form.{FormState}
use mostrix.Ui.Mode.{UiMode, AdminMode}
use mostrix.Ui.App.{App, clear_observer_secrets}
use mostrix.Ui.Placed.{
  IsTabOf, IsPlaced, mode_fits, is_user, is_admin, disputes_tab-is_admin, order_tab-is_user,
}
use mostrix.Ui.TabSwitch.{
  is_messages, is_disputes_in_progress, is_observer, is_create_new_order, is_managing_dispute,
  read_on_enter, manage_on_enter, clear_on_leave, handle_tab_switch, moved_tab, enter_messages,
  leave_creating_order_to_adjacent_tab, save_and_leave_creating_order, switch_tab,
}

next-IsTabOf : (r : UserRole) (t : Tab) → IsTabOf r t → IsTabOf r (next t r)
unfolding next
next-IsTabOf UserRole.user (Tab.user t) h = tt
next-IsTabOf UserRole.admin (Tab.admin t) h = tt
next-IsTabOf UserRole.user (Tab.admin t) h = absurd h
next-IsTabOf UserRole.admin (Tab.user t) h = absurd h

prev-IsTabOf : (r : UserRole) (t : Tab) → IsTabOf r t → IsTabOf r (prev t r)
unfolding prev
prev-IsTabOf UserRole.user (Tab.user t) h = tt
prev-IsTabOf UserRole.admin (Tab.admin t) h = tt
prev-IsTabOf UserRole.user (Tab.admin t) h = absurd h
prev-IsTabOf UserRole.admin (Tab.user t) h = absurd h

moved_tab-IsPlaced : (b : Bool) (app : App) → IsPlaced app → IsPlaced (moved_tab b app)
moved_tab-IsPlaced true app p = (prev-IsTabOf app.user_role app.active_tab p.0, p.1, p.2)
moved_tab-IsPlaced false app p = (next-IsTabOf app.user_role app.active_tab p.0, p.1, p.2)

managing-is_admin :
    (r : UserRole) (m : UiMode)
    → mode_fits r m ≡ true
    → is_managing_dispute m ≡ true
    → is_admin r ≡ true
managing-is_admin r (UiMode.admin_mode AdminMode.managing_dispute) a q = a
managing-is_admin r m a q = cc

-- Still placed, and of the same role.
abbrev Kept : UserRole → App → Type 0
Kept r app = IsPlaced app × (app.user_role ≡ r)

read_on_enter-Kept : (t : Tab) (app : App) → IsPlaced app → Kept app.user_role (read_on_enter t app)
unfolding enter_messages
read_on_enter-Kept t app p =
    if_lem (Kept app.user_role) (is_messages app.active_tab)
      (λ q. if_lem (Kept app.user_role) (is_messages t) (λ q'. (p, refl)) (λ q'. (p, refl)))
      (λ q. (p, refl))

manage_on_enter-Kept :
    (t : Tab) (app : App) → IsPlaced app → Kept app.user_role (manage_on_enter t app)
manage_on_enter-Kept t app p =
    if_lem (Kept app.user_role) (is_disputes_in_progress app.active_tab)
      (λ q.
        if_lem (Kept app.user_role) (is_disputes_in_progress t) (λ q'. (p, refl))
          (λ q'. ((p.0, disputes_tab-is_admin app.user_role app.active_tab p.0 q, p.2), refl)))
      (λ q.
        if_lem (Kept app.user_role) (is_disputes_in_progress t)
          (λ q'.
            if_lem (Kept app.user_role) (is_managing_dispute app.mode)
              (λ m. ((p.0, managing-is_admin app.user_role app.mode p.1 m, p.2), refl))
              (λ m. (p, refl)))
          (λ q'. (p, refl)))

clear_on_leave-Kept :
    (t : Tab) (app : App) → IsPlaced app → Kept app.user_role (clear_on_leave t app)
unfolding clear_observer_secrets
clear_on_leave-Kept t app p =
    if_lem (Kept app.user_role) (is_observer t) (λ q. (p, refl)) (λ q. (p, refl))

handle_tab_switch-Kept :
    (t : Tab) (app : App) → IsPlaced app → Kept app.user_role (handle_tab_switch t app)
unfolding handle_tab_switch
handle_tab_switch-Kept t app p =
    let a = read_on_enter t app in
    let b = manage_on_enter t a in
    let ka = read_on_enter-Kept t app p in
    let kb = manage_on_enter-Kept t a ka.0 in
    let kc = clear_on_leave-Kept t b kb.0 in (kc.0, kc.1 ∙ kb.1 ∙ ka.1)

pub leaving_form-IsPlaced :
    (form : FormState) (b : Bool) (app : App)
    → IsPlaced app
    → is_user app.user_role ≡ true
    → IsPlaced (save_and_leave_creating_order form b app)
unfolding save_and_leave_creating_order leave_creating_order_to_adjacent_tab
leaving_form-IsPlaced form b app p u =
    let left = record app { order_form_draft = some form } in
    let k =
      handle_tab_switch-Kept app.active_tab (moved_tab b left) (moved_tab-IsPlaced b left p) in
    (k.0.0, ap is_user k.1 ∙ u, k.0.2)

pub switch_tab-IsPlaced : (b : Bool) (app : App) → IsPlaced app → IsPlaced (switch_tab b app)
unfolding switch_tab
switch_tab-IsPlaced b app p =
    let there = handle_tab_switch app.active_tab (moved_tab b app) in
    let k = handle_tab_switch-Kept app.active_tab (moved_tab b app) (moved_tab-IsPlaced b app p) in
    if_lem IsPlaced (is_create_new_order there.active_tab)
      (λ q. (k.0.0, order_tab-is_user there.user_role there.active_tab k.0.0 q, k.0.2)) (λ q. k.0)
