-- ===== src/Security/Tests.antt =====
-- Rotation of the keys of two rows, with a cipher that puts a letter in front.
use payroll_management_syste.Prelude.{ℕ, String, ◌≡◌, refl, inl, true, false, List, [], ◌∷◌, str_eq}
use payroll_management_syste.Outcome.{ok}
use payroll_management_syste.Prelude.Text.{prefixed, strip_prefix}
use payroll_management_syste.Security.Crypto.{
  MultiFernet, CryptoSettings, ReadsBack, configured_keys, cipher_keys, decrypt_token, decrypt,
  from_db_value, is_found, token_of, encrypt, SuperPrep, CallsToPython,
}
use payroll_management_syste.Security.Crypto.Ciphertext.{encrypt-decrypt}
use payroll_management_syste.Security.Crypto.Rotation.{
  read_row, read_rows, reencrypt_rows, reencrypt_rows_plain, exposed_rows,
}

abbrev letter_cipher : MultiFernet
letter_cipher = record {
  is_valid_key = λ _. true;
  encrypt = λ _ _ text. prefixed "t" text;
  decrypt = λ _ token. strip_prefix "t" token;
}

letter_cipher-ReadsBack : ReadsBack letter_cipher
letter_cipher-ReadsBack key others keys nonce text m = refl

abbrev with_keys : List String → CryptoSettings
with_keys keys = record {
  field_encryption_keys = keys;
  is_production = true;
  development_key = "dev";
  data_fingerprint_key = "f";
  secret_key = "s";
}

abbrev stored_rows : List (List String)
stored_rows = ("enc:v1:tsecret" ∷ "" ∷ []) ∷ ("legacy" ∷ []) ∷ []

abbrev values : List (List String)
values = ("secret" ∷ "" ∷ []) ∷ ("legacy" ∷ []) ∷ []

keys_before : cipher_keys letter_cipher (with_keys ("new" ∷ "old" ∷ [])) ≡ ok ("new" ∷ "old" ∷ [])
unfolding cipher_keys configured_keys
keys_before = refl

keys_after : cipher_keys letter_cipher (with_keys ("new" ∷ [])) ≡ ok ("new" ∷ [])
unfolding cipher_keys configured_keys
keys_after = refl

readable : read_rows letter_cipher (with_keys ("new" ∷ "old" ∷ [])) stored_rows ≡ ok values
unfolding read_rows read_row from_db_value decrypt decrypt_token cipher_keys configured_keys
readable = refl

-- A method that calls `to_python`.
abbrev calling : SuperPrep
calling to_python text = to_python text

calling-CallsToPython : CallsToPython calling
calling-CallsToPython to_python text = refl

reencrypt_rows_plain_example :
    (n : ℕ) × (reencrypt_rows calling letter_cipher (with_keys ("new" ∷ "old" ∷ [])) 0 stored_rows
      ≡ (exposed_rows stored_rows values, ok n))
reencrypt_rows_plain_example =
    reencrypt_rows_plain calling calling-CallsToPython letter_cipher letter_cipher-ReadsBack
      (with_keys ("new" ∷ "old" ∷ [])) "new" ("old" ∷ []) keys_before 0 stored_rows values readable
      ((refl, (refl, tt)), ((refl, tt), tt))

encrypt-decrypt_example :
    (text : String) × (encrypt letter_cipher (with_keys ("new" ∷ "old" ∷ [])) 0 "secret" ≡ ok text)
    × (decrypt letter_cipher (with_keys ("new" ∷ [])) text ≡ ok "secret")
    × (str_eq "secret" "" ≡ false → is_found (token_of text) ≡ true)
    × (encrypt letter_cipher (with_keys ("new" ∷ [])) 1 text ≡ ok text)
encrypt-decrypt_example =
    encrypt-decrypt letter_cipher letter_cipher-ReadsBack (with_keys ("new" ∷ "old" ∷ []))
      (with_keys ("new" ∷ [])) "new" ("old" ∷ []) ("new" ∷ []) keys_before keys_after (inl refl) 0 1
      "secret" refl
