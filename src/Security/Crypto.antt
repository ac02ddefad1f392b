-- ===== src/Security/Crypto.antt =====
-- apps/security/crypto.py and fields.py: field encryption and fingerprints. The cipher is the
-- MultiFernet of the package cryptography, and the keyed hash is HMAC-SHA256.
pub mod Ciphertext
pub mod Rotation
use payroll_management_syste.Prelude.Text.{strip, strip_prefix, prefixed}
use payroll_management_syste.Outcome.{
  Result, ok, err, improperly_configured, value_error, or_raise, raise_unless, ◌>>=◌, ◌>>◌,
}
use payroll_management_syste.Prelude.{
  ℕ, String, ◌≡◌, Bool, true, false, not, ◌&&◌, ◌||◌, Option, none, some, List, [], ◌∷◌, str_eq,
  if◌then◌else◌, all, Elem,
}

-- MultiFernet over a list of keys: encryption is with the first one, under a nonce, and a token is
-- read with any of them that made it.
pub record MultiFernet : Type 0 where
  pub is_valid_key : String → Bool
  pub encrypt : List String → ℕ → String → String
  pub decrypt : List String → String → Option String

-- What the package documents: a token is read back under every list that has the key it was made with.
abbrev pub ReadsBack : MultiFernet → Type 0
ReadsBack f =
    (key : String) (others keys : List String) (nonce : ℕ) (text : String)
    → Elem key keys
    → f.decrypt keys (f.encrypt (key ∷ others) nonce text) ≡ some text

-- The settings that the module reads. `development_key` is the key that `_development_key` derives
-- from the secret key.
pub record CryptoSettings : Type 0 where
  pub field_encryption_keys : List String
  pub is_production : Bool
  pub development_key : String
  pub data_fingerprint_key : String
  pub secret_key : String

-- `configured_keys`
unfoldable pub configured_keys : CryptoSettings → Result (List String)
configured_keys settings = elim settings.field_encryption_keys [
  | key ∷ keys ↦ ok (key ∷ keys)
  | [] ↦
      if settings.is_production
      then err (improperly_configured "FIELD_ENCRYPTION_KEYS must be supplied")
      else ok (settings.development_key ∷ [])
]

-- `_cipher`: the keys that it is built from.
unfoldable pub cipher_keys : MultiFernet → CryptoSettings → Result (List String)
cipher_keys f settings = do
  keys ← configured_keys settings
  raise_unless (all f.is_valid_key keys)
      (improperly_configured "FIELD_ENCRYPTION_KEYS contains an invalid Fernet key")
  ok keys

-- `CIPHERTEXT_PREFIX`
abbrev pub ciphertext_prefix : String
ciphertext_prefix = "enc:v1:"

-- The text behind the prefix, of a value that has it.
abbrev pub token_of : String → Option String
token_of = strip_prefix ciphertext_prefix

abbrev pub is_found : Option String → Bool
is_found none = false
is_found (some _) = true

-- `value in (None, "") or value.startswith(CIPHERTEXT_PREFIX)`, for a text.
abbrev pub is_left_alone : String → Bool
is_left_alone value = str_eq value "" || is_found (token_of value)

-- `encrypt`, under the cipher's next nonce.
unfoldable pub encrypt : MultiFernet → CryptoSettings → ℕ → String → Result String
encrypt f settings nonce value = if is_left_alone value then ok value else (do
  keys ← cipher_keys f settings
  ok (prefixed ciphertext_prefix (f.encrypt keys nonce value)))

unfoldable pub decrypt_token : MultiFernet → CryptoSettings → String → Result String
decrypt_token f settings token = do
  keys ← cipher_keys f settings
  or_raise (f.decrypt keys token) (value_error "encrypted value could not be decrypted")

-- `decrypt`
unfoldable pub decrypt : MultiFernet → CryptoSettings → String → Result String
decrypt f settings value = elim (token_of value) [
  | none ↦ ok value
  | some token ↦ decrypt_token f settings token
]

-- `fingerprint`, for a keyed hash.
unfoldable pub fingerprint : (String → String → String) → CryptoSettings → String → Result String
fingerprint keyed_hash settings value =
    let chosen =
      if str_eq settings.data_fingerprint_key "" && not settings.is_production
      then settings.secret_key
      else settings.data_fingerprint_key in
    if str_eq chosen ""
    then err (improperly_configured "DATA_FINGERPRINT_KEY must be supplied")
    else ok (keyed_hash chosen (strip value))

-- `EncryptedTextField.to_python` and `from_db_value`
unfoldable pub to_python : MultiFernet → CryptoSettings → String → Result String
to_python f settings value = decrypt f settings value

unfoldable pub from_db_value : MultiFernet → CryptoSettings → String → Result String
from_db_value f settings value = decrypt f settings value

-- `TextField.get_prep_value` of Django, for a field with the given `to_python`.
abbrev pub SuperPrep : Type 0
SuperPrep = (String → Result String) → String → Result String

-- What Django's method does with a text: it returns what the field's own `to_python` makes of it.
abbrev pub CallsToPython : SuperPrep → Type 0
CallsToPython super_prep =
    (to_python : String → Result String) (text : String)
    → super_prep to_python text ≡ to_python text

-- `EncryptedTextField.get_prep_value`
unfoldable pub get_prep_value :
    SuperPrep → MultiFernet → CryptoSettings → ℕ → String → Result String
get_prep_value super_prep f settings nonce value = do
  text ← encrypt f settings nonce value
  super_prep (to_python f settings) text
