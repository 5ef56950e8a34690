-- ===== src/Ui/Key.antt =====
-- The key events of the terminal library that key_handler/mod.rs reads.
use Prim.Native.Char.{Char, code}
use mostrix.Prelude.{ℕ, Bool, false, ◌&&◌, ◌||◌, ◌==◌}

-- `other` is any key that the code does not name.
pub data KeyCode : Type 0 where
  char : Char → KeyCode
  enter esc tab back_tab left right up down page_up page_down : KeyCode
  delete backspace end_key insert other : KeyCode

pub record KeyEvent : Type 0 where
  pub code : KeyCode
  pub shift : Bool
  pub control : Bool

-- The key types this character.
abbrev pub types : ℕ → KeyCode → Bool
types n (KeyCode.char c) = code c == n
types n _ = false

-- Either of two characters, a letter in both cases.
abbrev pub either_of : ℕ → ℕ → KeyCode → Bool
either_of a b k = types a k || types b k

-- Shift with a letter, given in both cases.
abbrev pub shifted : ℕ → ℕ → KeyEvent → Bool
shifted a b e = e.shift && either_of a b e.code
