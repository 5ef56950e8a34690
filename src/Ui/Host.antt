-- ===== src/Ui/Host.antt =====
-- What the interface takes from outside: the order book and the disputes behind their locks, the
-- connected instance, the settings file, the clock, the clipboard, and the parsers of other crates.
use mostrix.Prelude.{ℕ, ℤ, String, Bool, Option, List}
use mostrix.Protocol.{PublicKey, Keys, SmallOrder}
use mostrix.Disputes.{DisputeText, Dispute}

pub record Host : Type 0 where
  pub orders : List SmallOrder
  pub disputes : List Dispute
  -- `instance_bonds_enabled` and `fiat_currencies_accepted` of the instance.
  pub bonds_enabled : Bool
  pub accepted_currencies : List String
  -- The saved Lightning address, `none` where the settings file cannot be read.
  pub ln_address : Option String
  pub now : ℕ
  pub clipboard : Option String
  pub local_time : ℤ → Option String
  -- Whether a text gets onto the clipboard.
  pub copies : String → Bool
  pub to_uppercase : String → String
  pub to_lowercase : String → String
  pub dispute_text : DisputeText
  -- `PublicKey::from_str`, and `from_bech32` and `from_hex` with the key as its hex text.
  pub parse_pubkey : String → Option PublicKey
  pub npub_to_hex : String → Option String
  pub hex_to_hex : String → Option String
  -- `SecretKey::from_bech32` succeeds, and `hex_seckey_to_nsec` of a trimmed text.
  pub is_nsec : String → Bool
  pub hex_seckey_to_nsec : String → Option String
  -- `LightningAddress::from_str` and `keys_from_shared_hex` succeed.
  pub is_ln_address : String → Bool
  pub is_shared_hex : String → Bool
  -- `Keys::parse`
  pub parse_keys : String → Option Keys
  -- The messages of a failure: reading the settings, making seed words and their key, and saving the
  -- admin key.
  pub settings_error : String
  pub new_keys_error : Option String
  pub admin_key_error : Option String
  -- The key of an attachment without one: from the admin's keys and the sender's public key as text, and
  -- from an observer's shared key.
  pub admin_attachment_key : Keys → String → Option (List ℕ)
  pub observer_attachment_key : String → Option (List ℕ)
  -- The file picker: why it does not open, and the path of the file that it has selected, if that can be
  -- sent.
  pub picker_error : Option String
  pub picked_file : Option String
  -- Whether a chat message can be saved to its file.
  pub saves_chat : Bool
