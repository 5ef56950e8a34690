-- ===== src/Ui/Currencies.antt =====
-- ui/currencies.rs: the currencies that the picker of the order form offers.
use Prim.Native.Char.{Char, code}
use Prim.Native.String.{[] as empty, ◌∷◌ as cons}
use mostrix.Prelude.{
  String, Bool, true, false, ◌&&◌, ◌||◌, Option, none, some, List, [], ◌∷◌, any, find, retain,
  is_empty, trim, str_eq, ◌==◌, if◌then◌else◌,
}

-- `CurrencyMeta` and `CurrencyOption`
pub record CurrencyOption : Type 0 where
  pub code : String
  pub name : String

abbrev currency : String → String → CurrencyOption
currency code name = record { code = code; name = name }

unfoldable pub currencies : List CurrencyOption
currencies =
    currency "USD" "US Dollar"
    ∷ currency "EUR" "Euro"
    ∷ currency "GBP" "Pound Sterling"
    ∷ currency "JPY" "Japanese Yen"
    ∷ currency "CHF" "Swiss Franc"
    ∷ currency "CAD" "Canadian Dollar"
    ∷ currency "AUD" "Australian Dollar"
    ∷ currency "NZD" "New Zealand Dollar"
    ∷ currency "CNY" "Chinese Yuan"
    ∷ currency "HKD" "Hong Kong Dollar"
    ∷ currency "SGD" "Singapore Dollar"
    ∷ currency "INR" "Indian Rupee"
    ∷ currency "RUB" "Russian Ruble"
    ∷ currency "BRL" "Brazilian Real"
    ∷ currency "ARS" "Argentine Peso"
    ∷ currency "MXN" "Mexican Peso"
    ∷ currency "CLP" "Chilean Peso"
    ∷ currency "COP" "Colombian Peso"
    ∷ currency "PEN" "Peruvian Sol"
    ∷ currency "UYU" "Uruguayan Peso"
    ∷ currency "VES" "Venezuelan Bolívar"
    ∷ currency "BOB" "Bolivian Boliviano"
    ∷ currency "PYG" "Paraguayan Guaraní"
    ∷ currency "CRC" "Costa Rican Colón"
    ∷ currency "GTQ" "Guatemalan Quetzal"
    ∷ currency "DOP" "Dominican Peso"
    ∷ currency "CUP" "Cuban Peso"
    ∷ currency "ZAR" "South African Rand"
    ∷ currency "NGN" "Nigerian Naira"
    ∷ currency "KES" "Kenyan Shilling"
    ∷ currency "GHS" "Ghanaian Cedi"
    ∷ currency "EGP" "Egyptian Pound"
    ∷ currency "MAD" "Moroccan Dirham"
    ∷ currency "TRY" "Turkish Lira"
    ∷ currency "AED" "UAE Dirham"
    ∷ currency "SAR" "Saudi Riyal"
    ∷ currency "ILS" "Israeli New Shekel"
    ∷ currency "PLN" "Polish Złoty"
    ∷ currency "CZK" "Czech Koruna"
    ∷ currency "HUF" "Hungarian Forint"
    ∷ currency "RON" "Romanian Leu"
    ∷ currency "SEK" "Swedish Krona"
    ∷ currency "NOK" "Norwegian Krone"
    ∷ currency "DKK" "Danish Krone"
    ∷ currency "UAH" "Ukrainian Hryvnia"
    ∷ currency "THB" "Thai Baht"
    ∷ currency "IDR" "Indonesian Rupiah"
    ∷ currency "MYR" "Malaysian Ringgit"
    ∷ currency "PHP" "Philippine Peso"
    ∷ currency "VND" "Vietnamese Đồng"
    ∷ currency "KRW" "South Korean Won"
    ∷ []

-- The character at the place of `c` in a text, in another text.
matching : Char → String → String → Char
matching c (cons a s) (cons b t) = let rest = matching c s t in if code c == code a then b else rest
matching c _ _ = c

-- `c.to_ascii_uppercase()`
unfoldable pub upper : Char → Char
unfolding matching
upper c = matching c "abcdefghijklmnopqrstuvwxyz" "ABCDEFGHIJKLMNOPQRSTUVWXYZ"

-- `s.to_ascii_uppercase()`
unfoldable pub to_ascii_uppercase : String → String
unfolding upper
to_ascii_uppercase empty = ""
to_ascii_uppercase (cons c s) = cons (upper c) (to_ascii_uppercase s)

-- `s.starts_with(p)`
unfoldable pub starts_with : String → String → Bool
starts_with s empty = true
starts_with empty (cons p ps) = false
starts_with (cons c s) (cons p ps) = (code c == code p) && starts_with s ps

-- `s.contains(p)`
unfoldable pub contains : String → String → Bool
unfolding starts_with
contains empty p = is_empty p
contains (cons c s) p = starts_with (cons c s) p || contains s p

unfoldable pub lookup : String → Option CurrencyOption
unfolding currencies to_ascii_uppercase
lookup code = find (λ c. str_eq c.code (to_ascii_uppercase (trim code))) currencies

-- The name of a code, empty where it is unknown.
unfoldable pub name_for : String → String
unfolding lookup
name_for code = elim (lookup code) [ none ↦ "" | some c ↦ c.name ]

-- The accepted codes that are new after those seen, named where they are known.
unfoldable pub distinct : List String → List String → List CurrencyOption
unfolding name_for to_ascii_uppercase
distinct seen [] = []
distinct seen (code ∷ codes) =
    let c = to_ascii_uppercase (trim code) in
    let skipped = distinct seen codes in
    let rest = distinct (c ∷ seen) codes in
    if is_empty c || any (str_eq c) seen then skipped else currency c (name_for c) ∷ rest

-- All currencies where the instance names none.
unfoldable pub resolve_options : List String → List CurrencyOption
unfolding distinct currencies
resolve_options [] = currencies
resolve_options (code ∷ codes) = distinct [] (code ∷ codes)

abbrev matches : String → CurrencyOption → Bool
matches q o = starts_with o.code q || contains (to_ascii_uppercase o.name) q

-- By the start of the code or a part of the name.
unfoldable pub filter_options : List CurrencyOption → String → List CurrencyOption
unfolding starts_with contains to_ascii_uppercase
filter_options options query =
    let q = to_ascii_uppercase (trim query) in
    if is_empty q then options else retain (matches q) options
