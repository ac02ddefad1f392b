-- ===== src/Security/Crypto/Ciphertext.antt =====
-- `encrypt` and `decrypt` of apps/security/crypto.py against each other, while keys are rotated.
use payroll_management_syste.Prelude.{
  ◌||◌, ℕ, String, ◌≡◌, refl, inl, inr, Bool, true, false, none, List, ◌∷◌, str_eq, Bool-cases,
  Elem,
}
use payroll_management_syste.Outcome.{ok}
use payroll_management_syste.Security.Crypto.{
  ciphertext_prefix, encrypt, decrypt, decrypt_token, MultiFernet, CryptoSettings, ReadsBack,
  cipher_keys, is_found, token_of,
}
use payroll_management_syste.Prelude.Text.{prefixed}

-- A value that does not look like a ciphertext.
abbrev pub IsPlain : String → Type 0
IsPlain value = token_of value ≡ none

or_true : (b : Bool) → (b || true) ≡ true
or_true true = refl
or_true false = refl

module _ (f : MultiFernet) (reads_back : ReadsBack f) (before after : CryptoSettings) (key : String)
    (others keys : List String) (written : cipher_keys f before ≡ ok (key ∷ others))
    (read : cipher_keys f after ≡ ok keys) (kept : Elem key keys) where
  -- If the cipher reads back what it made, a value that does not look like a ciphertext is encrypted
  -- under one configuration and decrypted to itself under every other that has the key it was
  -- encrypted with, also when the older keys are gone. The text in between is marked as a ciphertext
  -- unless the value is blank, and a ciphertext is not encrypted again.
  pub encrypt-decrypt :
      (nonce later : ℕ) (value : String)
      → IsPlain value
      → (text : String) × (encrypt f before nonce value ≡ ok text)
        × (decrypt f after text ≡ ok value)
        × (str_eq value "" ≡ false → is_found (token_of text) ≡ true)
        × (encrypt f after later text ≡ ok text)
  unfolding encrypt decrypt decrypt_token
  encrypt-decrypt nonce later value plain = elim (Bool-cases (str_eq value "")) [
    | inl blank ↦ (value, rw blank refl, rw plain refl, (λ filled. cc), rw blank refl)
    | inr filled ↦
        let token = f.encrypt (key ∷ others) nonce value in
        (
          prefixed ciphertext_prefix token,
          rw (filled, plain, written) refl,
          rw (read, reads_back key others keys nonce value kept) refl,
          (λ _. refl),
          rw (or_true (str_eq (prefixed ciphertext_prefix token) "")) refl,
        )
  ]
