-- ===== src/Ui/Validation.antt =====
-- key_handler/validation.rs and key_handler/settings.rs: what is accepted in the input popups.
use Prim.Native.String.{len}
use text.Mathlib.Text.{starts_with}
use mostrix.Prelude.{
  String, not, ◌&&◌, ◌||◌, Option, none, some, is_some, is_empty, trim, leb, if◌then◌else◌,
}
use mostrix.Ui.Host.{Host}

-- `Result<String, String>`; where the source returns `Ok(())`, the text is the input.
pub data Validated : Type 0 where
  ok err : String → Validated

abbrev ok_or : String → Option String → Validated
ok_or message none = err message
ok_or message (some s) = ok s

abbrev key_message : String
key_message = "Invalid public key: expected npub1... (bech32) or 64-char hex string"

unfoldable pub validate_npub : Host → String → Validated
validate_npub h input =
    let key = trim input in
    if is_empty key
    then err "Public key cannot be empty"
    else if is_some (h.npub_to_hex key) || is_some (h.hex_to_hex key)
    then ok input
    else err key_message

unfoldable pub normalize_to_nsec : Host → String → Validated
normalize_to_nsec h input =
    let key = trim input in
    if is_empty key
    then err "Secret key cannot be empty"
    else if h.is_nsec key
    then ok key
    else ok_or "Invalid secret key: expected nsec1... (bech32) or 64-char hex string"
        (h.hex_seckey_to_nsec key)

abbrev hex_of : Option String → Option String → Option String
hex_of (some hex) other = some hex
hex_of none other = other

unfoldable pub normalize_mostro_pubkey : Host → String → Validated
normalize_mostro_pubkey h input =
    let key = trim input in
    if is_empty key
    then err "Mostro pubkey cannot be empty"
    else ok_or "Invalid Mostro pubkey: expected npub1... (bech32) or 64-char hex string"
        (hex_of (h.npub_to_hex key) (h.hex_to_hex key))

unfoldable pub validate_relay : String → Validated
validate_relay input =
    let relay = trim input in
    if is_empty relay
    then err "Relay URL cannot be empty"
    else if not (starts_with relay "wss://") && not (starts_with relay "ws://")
    then err "Relay URL must start with \"wss://\" or \"ws://\""
    else ok input

unfoldable pub validate_currency : String → Validated
validate_currency input =
    let currency = trim input in
    if is_empty currency
    then err "Currency code cannot be empty"
    else if leb 11 (len currency)
    then err "Currency code is too long (max 10 characters)"
    else ok input

unfoldable pub validate_ln_address_format : Host → String → Validated
validate_ln_address_format h input =
    let t = trim input in
    if is_empty t
    then err "Lightning address cannot be empty"
    else if h.is_ln_address t
    then ok input
    else err "Invalid Lightning address (expected user@domain.com)"
