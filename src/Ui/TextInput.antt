-- ===== src/Ui/TextInput.antt =====
-- key_handler/input_helpers.rs and key_handler/mod.rs: typing and pasting a text.
use Prim.Native.Char.{code}
use Prim.Native.String.{[] as empty, ◌∷◌ as cons, ◌++◌}
use mostrix.Prelude.{
  ℕ, String, Bool, true, false, ◌&&◌, ◌||◌, leb, ltb, is_empty, push, pop, Option, none, some,
  if◌then◌else◌,
}
use mostrix.Ui.Mode.{InvoiceInputState, KeyInputState}
use mostrix.Ui.Key.{KeyCode, KeyEvent, either_of}

-- The text, whether it was just pasted, and whether the key ends here.
abbrev pub TextInput : Type 0
TextInput = String × Bool × Bool

-- Enter right after a paste is ignored where `ignore_enter` says so.
unfoldable pub handle_text_input : KeyCode → Bool → String → Bool → TextInput
unfolding push pop
handle_text_input KeyCode.enter ignore_enter text just_pasted =
    if ignore_enter && just_pasted then (text, false, true) else (text, just_pasted, false)
handle_text_input (KeyCode.char c) ignore_enter text just_pasted = (push text c, false, true)
handle_text_input KeyCode.backspace ignore_enter text just_pasted = (pop text, false, true)
handle_text_input k ignore_enter text just_pasted = (text, false, false)

unfoldable pub handle_invoice_input : KeyCode → InvoiceInputState → InvoiceInputState × Bool
unfolding handle_text_input
handle_invoice_input k st =
    let r = handle_text_input k true st.invoice_input st.just_pasted in
    (record st { invoice_input = r.0; just_pasted = r.1 }, r.2)

unfoldable pub handle_key_input : KeyCode → KeyInputState → KeyInputState × Bool
unfolding handle_text_input
handle_key_input k st =
    let r = handle_text_input k false st.key_input st.just_pasted in
    (record st { key_input = r.0; just_pasted = r.1 }, r.2)

-- `char::is_control`
abbrev pub is_control : ℕ → Bool
is_control n = ltb n 32 || (leb 127 n && ltb n 160)

-- The characters that are no control characters.
unfoldable pub without_control : String → String
without_control empty = ""
without_control (cons c s) =
    let rest = without_control s in if is_control (code c) then rest else cons c rest

-- Shift+Insert or Ctrl+V
abbrev pub is_paste_shortcut : KeyEvent → Bool
is_paste_shortcut e = elim e.code [
  | KeyCode.insert ↦ e.shift
  | KeyCode.char c ↦ either_of b'v' b'V' (KeyCode.char c) && e.control
  | _ ↦ false
]

-- The clipboard's text, where anything of it can be pasted.
abbrev pub pasted : Option String → Option String
pasted none = none
pasted (some text) = if is_empty (without_control text) then none else some (without_control text)

unfoldable pub paste_invoice : String → InvoiceInputState → InvoiceInputState
paste_invoice text st = record st { invoice_input = st.invoice_input ++ text; just_pasted = true }
