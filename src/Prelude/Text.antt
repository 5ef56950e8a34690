-- ===== src/Prelude/Text.antt =====
-- Texts by their characters: `str::trim` and `trim().is_empty()`.
use Prim.Native.Nat.{ℕ, zero, suc, ◌+◌, ◌*◌, ◌-◌, ◌^◌}
use Prim.Native.String.{String, [] as empty, ◌∷◌ as cons, ◌++◌}
use Prim.Native.Char.{Char, code}
use mathlib.Core.Bool.{Bool, true, false, ◌||◌, ◌&&◌}
use mathlib.Core.Option.{Option, none, some}
use mostrix.Prelude.Int.{ℤ, pos, negsuc}
use mostrix.Prelude.Tests.{leb, ◌==◌, if◌then◌else◌}

-- `char::is_whitespace`
unfoldable pub is_whitespace : ℕ → Bool
is_whitespace c =
    (leb 9 c && leb c 13)
    || (c == 32)
    || (c == 133)
    || (c == 160)
    || (c == 5760)
    || (leb 8192 c && leb c 8202)
    || (c == 8232)
    || (c == 8233)
    || (c == 8239)
    || (c == 8287)
    || (c == 12288)

-- `s.trim().is_empty()`
unfoldable pub is_blank : String → Bool
unfolding is_whitespace
is_blank empty = true
is_blank (cons c s) = let rest = is_blank s in if is_whitespace (code c) then rest else false

trim_start : String → String
unfolding is_whitespace
trim_start empty = ""
trim_start (cons c s) = let rest = trim_start s in if is_whitespace (code c) then rest else cons c s

trim_end : String → String
unfolding is_blank
trim_end empty = ""
trim_end (cons c s) = if is_blank (cons c s) then "" else cons c (trim_end s)

-- `s.trim()`
unfoldable pub trim : String → String
unfolding trim_start trim_end
trim s = trim_end (trim_start s)

-- `s.is_empty()`
abbrev pub is_empty : String → Bool
is_empty empty = true
is_empty (cons c s) = false

-- `s.push(c)`
unfoldable pub push : String → Char → String
push s c = s ++ cons c empty

-- `s.pop()`
unfoldable pub pop : String → String
pop empty = ""
pop (cons c s) = if is_empty s then "" else cons c (pop s)

digit : ℕ → Option ℕ
digit c = if leb b'0' c && leb c b'9' then some (c - b'0') else none

-- The number that a text of digits reads as, after `acc`.
digits : ℕ → String → Option ℕ
unfolding digit
digits acc empty = some acc
digits acc (cons c s) = elim (digit (code c)) [ none ↦ none | some d ↦ digits (acc * 10 + d) s ]

-- At least one digit.
number : String → Option ℕ
unfolding digits
number empty = none
number (cons c s) = digits 0 (cons c s)

within : ℕ → Option ℕ → Option ℕ
within limit none = none
within limit (some n) = if leb n limit then some n else none

negated : Option ℕ → Option ℤ
negated none = none
negated (some zero) = some (pos 0)
negated (some (suc n)) = some (negsuc n)

positive_of : Option ℕ → Option ℤ
positive_of none = none
positive_of (some n) = some (pos n)

-- `s.parse::<i64>().ok()`
unfoldable pub parse_i64 : String → Option ℤ
unfolding number within negated positive_of
parse_i64 empty = none
parse_i64 (cons c s) =
    if code c == b'-'
    then negated (within (2 ^ 63) (number s))
    else if code c == b'+'
    then positive_of (within (2 ^ 63 - 1) (number s))
    else positive_of (within (2 ^ 63 - 1) (number (cons c s)))
