-- ===== src/Ui/PopupKeys/Placed.antt =====
-- key_handler/mod.rs: the role, the tab and the mode under the arrow keys in popups.
use mostrix.Prelude.{
  ◌≡◌, refl, subst, Bool, true, not, ◌&&◌, Option, none, some, List, OnSome, and_then, unwrap_or,
  ◌==◌, if_lem, option_lem,
}
use mostrix.Protocol.{Uuid}
use mostrix.Disputes.{AdminDispute}
use mostrix.Ui.Tabs.{UserRole}
use mostrix.Ui.Mode.{UiMode, AdminMode}
use mostrix.Ui.App.{App}
use mostrix.Ui.Host.{Host}
use mostrix.Ui.TabSwitch.{is_disputes_in_progress, is_observer}
use mostrix.Ui.Selection.{selected_filtered_dispute}
use mostrix.Ui.Arrows.{handle_vertical_key}
use mostrix.Ui.Arrows.Placed.{handle_horizontal_key-IsPlaced, vertical-IsPlaced}
use mostrix.Ui.Enter.Message.{is_popup_action}
use mostrix.Ui.Enter.Chat.{get_dispute_visible_message_count}
use mostrix.Ui.Placed.{IsPlaced, mode_fits}
use mostrix.Ui.PopupKeys.{
  admin_horizontal, popup_horizontal, press_horizontal, navigate_chat_messages, in_dispute,
  vertical_in, press_vertical,
}

popup_fits :
    (h : Host) (l : Bool) (ds : List AdminDispute) (r : UserRole) (m : UiMode)
    → mode_fits r m ≡ true
    → OnSome (λ m'. mode_fits r m' ≡ true) (popup_horizontal h l ds m)
unfolding popup_horizontal
popup_fits h l ds r (UiMode.admin_mode m) a =
    option_lem (OnSome (λ m'. mode_fits r m' ≡ true)) (admin_horizontal h l ds m) (λ q. tt)
      (λ m' q. a)
popup_fits h l ds r (UiMode.new_message_notification n a st) f =
    if_lem (OnSome (λ m'. mode_fits r m' ≡ true)) (is_popup_action a) (λ q. refl) (λ q. tt)
popup_fits h l ds r (UiMode.confirm_mostro_pubkey s b) a = refl
popup_fits h l ds r (UiMode.confirm_relay s b) a = refl
popup_fits h l ds r (UiMode.confirm_ln_address s b) a = refl
popup_fits h l ds r (UiMode.confirm_saved_ln_address_for_invoice n b) a = refl
popup_fits h l ds r (UiMode.confirm_clear_ln_address b) a = refl
popup_fits h l ds r (UiMode.confirm_currency s b) a = refl
popup_fits h l ds r (UiMode.confirm_clear_currencies b) a = refl
popup_fits h l ds r (UiMode.confirm_delete_history_order i b) a = refl
popup_fits h l ds r (UiMode.confirm_bulk_delete_history b) a = refl
popup_fits h l ds r (UiMode.confirm_generate_new_keys b) a = refl
popup_fits h l ds r (UiMode.confirm_exit b) a = refl
popup_fits h l ds r (UiMode.viewing_message v) a = refl
popup_fits h l ds r m a = tt

pub press_horizontal-IsPlaced :
    (h : Host) (l : Bool) (app : App) → IsPlaced app → IsPlaced (press_horizontal h l app)
unfolding press_horizontal
press_horizontal-IsPlaced h l app p =
    option_lem IsPlaced (popup_horizontal h l app.admin_disputes_in_progress app.mode)
      (λ q. handle_horizontal_key-IsPlaced l app p)
      (λ m q. (
        p.0,
        subst (OnSome (λ m'. mode_fits app.user_role m' ≡ true)) q
            (popup_fits h l app.admin_disputes_in_progress app.user_role app.mode p.1),
        p.2,
      ))

navigate_chat_messages-IsPlaced :
    (up : Bool) (i : Uuid) (app : App)
    → IsPlaced app
    → OnSome IsPlaced (navigate_chat_messages up i app)
unfolding navigate_chat_messages
navigate_chat_messages-IsPlaced up i app p =
    if_lem (OnSome IsPlaced) (get_dispute_visible_message_count app i == 0) (λ q. tt) (λ q. p)

unwrap_or-IsPlaced :
    (o : Option App) (app : App) → OnSome IsPlaced o → IsPlaced app → IsPlaced (unwrap_or o app)
unwrap_or-IsPlaced none app f p = p
unwrap_or-IsPlaced (some a) app f p = f

moved_line-IsPlaced :
    (up : Bool) (o : Option AdminDispute) (app : App)
    → IsPlaced app
    → OnSome IsPlaced (and_then o (λ d. navigate_chat_messages up d.dispute_id app))
moved_line-IsPlaced up none app p = tt
moved_line-IsPlaced up (some d) app p = navigate_chat_messages-IsPlaced up d.dispute_id app p

in_dispute-IsPlaced :
    (h : Host) (up : Bool) (app : App) → IsPlaced app → IsPlaced (in_dispute h up app)
in_dispute-IsPlaced h up app p =
    let moved = handle_vertical_key h.to_uppercase h.dispute_text h.orders h.disputes up app in
    let o = selected_filtered_dispute h.dispute_text app in
    let pm =
      vertical-IsPlaced h.to_uppercase h.dispute_text h.orders h.disputes up app.mode app p p.1 in
    if_lem IsPlaced (is_disputes_in_progress app.active_tab && not app.admin_chat_input_enabled)
      (λ q.
        unwrap_or-IsPlaced (and_then o (λ d. navigate_chat_messages up d.dispute_id app)) moved
          (moved_line-IsPlaced up o app p) pm)
      (λ q. pm)

vertical_in-IsPlaced :
    (h : Host) (up : Bool) (m : UiMode) (app : App)
    → IsPlaced app
    → mode_fits app.user_role m ≡ true
    → IsPlaced (vertical_in h up m app)
unfolding vertical_in
vertical_in-IsPlaced h up (UiMode.admin_mode (AdminMode.reviewing_dispute i n b true k)) app p a =
    (p.0, a, p.2)
vertical_in-IsPlaced h up (UiMode.admin_mode AdminMode.managing_dispute) app p a =
    if_lem IsPlaced (is_observer app.active_tab) (λ q. p) (λ q. in_dispute-IsPlaced h up app p)
vertical_in-IsPlaced h up m app p a =
    if_lem IsPlaced (is_observer app.active_tab) (λ q. p)
      (λ q.
        vertical-IsPlaced h.to_uppercase h.dispute_text h.orders h.disputes up app.mode app p p.1)

pub press_vertical-IsPlaced :
    (h : Host) (up : Bool) (app : App) → IsPlaced app → IsPlaced (press_vertical h up app)
unfolding press_vertical
press_vertical-IsPlaced h up app p = vertical_in-IsPlaced h up app.mode app p p.1
