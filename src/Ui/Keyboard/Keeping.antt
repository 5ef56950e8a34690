-- ===== src/Ui/Keyboard/Keeping.antt =====
-- key_handler/mod.rs: the role, the tab and the mode under a handler.
use mathlib.Core.Option
use mostrix.Prelude.{◌≡◌, String, true, Option, none, some, OnSome}
use mostrix.Ui.Tabs.{UserRole}
use mostrix.Ui.Mode.{UiMode}
use mostrix.Ui.App.{App}
use mostrix.Ui.Placed.{IsPlaced, LeadsToPlaced, mode_fits}
use mostrix.Ui.Keyboard.Flow.{KeyFlow, OnFlow, or_pass, in_mode}

-- A handler that keeps them together.
abbrev pub Keeps : KeyFlow → Type 0
Keeps f = OnFlow LeadsToPlaced IsPlaced f

pub or_pass-Keeps :
    (app : App) (o : Option App) → IsPlaced app → OnSome IsPlaced o → Keeps (or_pass app o)
or_pass-Keeps app none p q = p
or_pass-Keeps app (some a) p q = q

pub in_mode-Keeps :
    (app : App) (o : Option UiMode)
    → IsPlaced app
    → OnSome (λ m. mode_fits app.user_role m ≡ true) o
    → Keeps (in_mode app o)
in_mode-Keeps app none p q = p
in_mode-Keeps app (some m) p q = (p.0, q, p.2)

abbrev pub Fit : UserRole → UiMode → Type 0
Fit r m = mode_fits r m ≡ true

abbrev pub Fits : UserRole → Option UiMode → Type 0
Fits r o = OnSome (Fit r) o

pub mapped-Fits {ℓ} :
    {A : Type ℓ} (r : UserRole) (f : A → UiMode) (o : Option A)
    → ((a : A) → Fit r (f a))
    → Fits r (Option.map f o)
mapped-Fits r f none q = tt
mapped-Fits r f (some a) q = q a

-- A new text changes none of the three.
pub text-Keeps :
    (app : App) (f : String → App) (o : Option String)
    → IsPlaced app
    → ((s : String) → IsPlaced (f s))
    → Keeps (or_pass app (Option.map f o))
text-Keeps app f none p q = p
text-Keeps app f (some s) p q = q s
