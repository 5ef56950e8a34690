-- ===== src/Ui/Keyboard/Flow.antt =====
-- key_handler/mod.rs: a key is handled where a handler returns `Some`, else it goes on to the next.
use mostrix.Prelude.{Option, none, some, List, [], ◌∷◌}
use mathlib.Core.Option
use mostrix.Ui.Mode.{UiMode}
use mostrix.Ui.App.{App, set_mode}
use mostrix.Ui.Task.{Step, quiet}

-- A handled key, or the state with which it goes on.
pub data KeyFlow : Type 0 where
  done : Step → KeyFlow
  pass : App → KeyFlow

abbrev pub handled : App → KeyFlow
handled app = KeyFlow.done (quiet app)

-- One handler after the other.
unfoldable pub run : List (App → KeyFlow) → App → KeyFlow
run [] app = KeyFlow.pass app
run (f ∷ fs) app = elim (f app) [
  | KeyFlow.done s ↦ KeyFlow.done s
  | KeyFlow.pass app' ↦ run fs app'
]

-- The key ends here where there is a new state.
abbrev pub or_pass : App → Option App → KeyFlow
or_pass app none = KeyFlow.pass app
or_pass app (some app') = handled app'

-- The key ends here where there is a new mode.
abbrev pub in_mode : App → Option UiMode → KeyFlow
in_mode app o = or_pass app (Option.map (λ m. set_mode m app) o)

-- What holds of the step or of the state that goes on.
abbrev pub OnFlow {ℓ} : (Step → Type ℓ) → (App → Type ℓ) → KeyFlow → Type ℓ
OnFlow Q P (KeyFlow.done s) = Q s
OnFlow Q P (KeyFlow.pass app) = P app

infixr 60 ◌⊹◌
-- Every handler keeps a property.
pub data All {ℓ} (Q : Step → Type ℓ) (P : App → Type ℓ) : List (App → KeyFlow) → Type ℓ where
  end : All Q P []
  ◌⊹◌ :
      {f : App → KeyFlow} {fs : List (App → KeyFlow)}
      → ((app : App) → P app → OnFlow Q P (f app))
      → All Q P fs
      → All Q P (f ∷ fs)

module _ {ℓ} (Q : Step → Type ℓ) (P : App → Type ℓ) where
  run_next :
      (fs : List (App → KeyFlow)) (o : KeyFlow)
      → OnFlow Q P o
      → ((app : App) → P app → OnFlow Q P (run fs app))
      → OnFlow Q P (elim o [ KeyFlow.done s ↦ KeyFlow.done s | KeyFlow.pass app' ↦ run fs app' ])
  run_next fs (KeyFlow.done s) q k = q
  run_next fs (KeyFlow.pass app) q k = k app q

  pub run-keeps :
      (fs : List (App → KeyFlow)) → All Q P fs → (app : App) → P app → OnFlow Q P (run fs app)
  unfolding run
  run-keeps [] All.end app p = p
  run-keeps (f ∷ fs) (k ⊹ ks) app p = run_next fs (f app) (k app p) (λ a q. run-keeps fs ks a q)
