-- ===== src/Security/Crypto/Rotation.antt =====
-- The command `reencrypt_sensitive_data` of apps/security/management/commands: every row is read, and
-- its populated fields are saved. A row is the list of its stored texts.
use payroll_management_syste.Prelude.{
  ◌∙◌, ap, All, ℕ, ◌+◌, String, ◌≡◌, refl, ◌≢◌, inl, inr, Bool, true, false, not, List, [], ◌∷◌,
  arith, str_eq, if◌then◌else◌, Bool-cases, length, any,
}
use payroll_management_syste.Outcome.{Result, ok, err, ◌>>=◌}
use payroll_management_syste.Security.Crypto.{
  MultiFernet, CryptoSettings, ReadsBack, cipher_keys, get_prep_value, from_db_value, to_python,
  SuperPrep, CallsToPython,
}
use payroll_management_syste.Security.Crypto.Ciphertext.{IsPlain, encrypt-decrypt}

-- The fields of an instance as they are read from the database.
unfoldable pub read_row : MultiFernet → CryptoSettings → List String → Result (List String)
read_row f settings [] = ok []
read_row f settings (stored ∷ row) = do
  value ← from_db_value f settings stored
  values ← read_row f settings row
  ok (value ∷ values)

-- `instance.save(update_fields=populated)`
unfoldable pub save_row :
    SuperPrep → MultiFernet → CryptoSettings → ℕ → List String → List String → Result (List String)
save_row super_prep f settings nonce [] values = ok []
save_row super_prep f settings nonce (stored ∷ row) [] = ok (stored ∷ row)
save_row super_prep f settings nonce (stored ∷ row) (value ∷ values) = do
  text ← if str_eq value "" then ok stored else get_prep_value super_prep f settings nonce value
  texts ← save_row super_prep f settings (nonce + 1) row values
  ok (text ∷ texts)

-- `if populated: instance.save(…)`, and whether it was.
unfoldable pub reencrypt_row :
    SuperPrep → MultiFernet → CryptoSettings → ℕ → List String → Result (List String × Bool)
reencrypt_row super_prep f settings nonce row = do
  values ← read_row f settings row
  let populated = any (λ v. not (str_eq v "")) values
  texts ← if populated then save_row super_prep f settings nonce row values else ok row
  ok (texts, populated)

abbrev counted : Bool → Result ℕ → Result ℕ
counted touched (err e) = err e
counted touched (ok n) = ok (if touched then n + 1 else n)

-- `Command.handle`: rows that were saved before an exception stay saved.
unfoldable pub reencrypt_rows :
    SuperPrep
    → MultiFernet
    → CryptoSettings
    → ℕ
    → List (List String)
    → List (List String) × Result ℕ
reencrypt_rows super_prep f settings nonce [] = ([], ok 0)
reencrypt_rows super_prep f settings nonce (row ∷ rows) =
    let (others, updated) = reencrypt_rows super_prep f settings (nonce + length row) rows in
    elim (reencrypt_row super_prep f settings nonce row) [
      | err e ↦ (row ∷ rows, err e)
      | ok (texts, touched) ↦ (texts ∷ others, counted touched updated)
    ]

unfoldable pub read_rows :
    MultiFernet → CryptoSettings → List (List String) → Result (List (List String))
read_rows f settings [] = ok []
read_rows f settings (row ∷ rows) = do
  values ← read_row f settings row
  others ← read_rows f settings rows
  ok (values ∷ others)

cons-ok :
    {A : Type 0} (m : Result A) (n : Result (List A)) (x : A) (xs : List A)
    → (m >>= λ a. n >>= λ rest. ok (a ∷ rest)) ≡ ok (x ∷ xs)
    → (m ≡ ok x) × (n ≡ ok xs)
cons-ok (err e) n x xs h = cc
cons-ok (ok a) (err e) x xs h = cc
cons-ok (ok a) (ok rest) x xs h = (cc, cc)

cons-ne-nil :
    {A : Type 0} (m : Result A) (n : Result (List A))
    → (m >>= λ a. n >>= λ rest. ok (a ∷ rest)) ≢ ok []
cons-ne-nil (err e) n h = cc
cons-ne-nil (ok a) (err e) h = cc
cons-ne-nil (ok a) (ok rest) h = cc

-- The values do not look like ciphertexts.
abbrev ArePlain : List (List String) → Type 0
ArePlain = All (All IsPlain)

-- The texts of a row in which every value that is not blank is stored as it is.
abbrev exposed : List String → List String → List String
exposed [] values = []
exposed (stored ∷ row) [] = stored ∷ row
exposed (stored ∷ row) (value ∷ values) =
    (if str_eq value "" then stored else value) ∷ exposed row values

abbrev pub exposed_rows : List (List String) → List (List String) → List (List String)
exposed_rows [] values = []
exposed_rows (row ∷ rows) [] = row ∷ rows
exposed_rows (row ∷ rows) (values ∷ others) = exposed row values ∷ exposed_rows rows others

exposed_blank :
    (row values : List String)
    → any (λ v. not (str_eq v "")) values ≡ false
    → exposed row values ≡ row
exposed_blank [] values h = refl
exposed_blank (stored ∷ row) [] h = refl
exposed_blank (stored ∷ row) (value ∷ values) h =
    let blank : str_eq value "" ≡ true = ground arith in
    let others : any (λ v. not (str_eq v "")) values ≡ false = ground arith in
    rw blank (ap (λ xs. stored ∷ xs) (exposed_blank row values others))

module _ (super_prep : SuperPrep) (calls : CallsToPython super_prep) (f : MultiFernet)
    (reads_back : ReadsBack f) (settings : CryptoSettings) (key : String) (others : List String)
    (configured : cipher_keys f settings ≡ ok (key ∷ others)) where
  -- Django's method undoes the encryption.
  get_prep_value_plain :
      (nonce : ℕ) (value : String)
      → IsPlain value
      → get_prep_value super_prep f settings nonce value ≡ ok value
  unfolding get_prep_value to_python
  get_prep_value_plain nonce value plain =
      let (text, encrypted, decrypted, _, _) =
        encrypt-decrypt f reads_back settings settings key others (key ∷ others) configured
          configured (inl refl) nonce nonce value plain in
      ap (λ r. r >>= super_prep (to_python f settings)) encrypted
      ∙ calls (to_python f settings) text
      ∙ decrypted

  save_row_plain :
      (nonce : ℕ) (row values : List String)
      → All IsPlain values
      → save_row super_prep f settings nonce row values ≡ ok (exposed row values)
  unfolding save_row
  save_row_plain nonce [] values plain = refl
  save_row_plain nonce (stored ∷ row) [] plain = refl
  save_row_plain nonce (stored ∷ row) (value ∷ values) (first, plain) =
      let rest = save_row_plain (nonce + 1) row values plain in
      elim (Bool-cases (str_eq value "")) [
        | inl blank ↦ rw (blank, rest) refl
        | inr filled ↦ rw (filled, get_prep_value_plain nonce value first, rest) refl
      ]

  reencrypt_row_plain :
      (nonce : ℕ) (row values : List String)
      → read_row f settings row ≡ ok values
      → All IsPlain values
      → (touched : Bool) × (reencrypt_row super_prep f settings nonce row
          ≡ ok (exposed row values, touched))
  unfolding reencrypt_row
  reencrypt_row_plain nonce row values h plain =
      elim (Bool-cases (any (λ v. not (str_eq v "")) values)) [
        | inl filled ↦ (true, rw (h, filled, save_row_plain nonce row values plain) refl)
        | inr blank ↦ (false, rw (h, blank, exposed_blank row values blank) refl)
      ]

  pub reencrypt_rows_plain :
      (nonce : ℕ) (rows values : List (List String))
      → read_rows f settings rows ≡ ok values
      → ArePlain values
      → (n : ℕ) × (reencrypt_rows super_prep f settings nonce rows
          ≡ (exposed_rows rows values, ok n))
  unfolding read_rows reencrypt_rows
  reencrypt_rows_plain nonce [] values h plain = (0, refl)
  reencrypt_rows_plain nonce (row ∷ rows) [] h plain =
      absurd (cons-ne-nil (read_row f settings row) (read_rows f settings rows) h)
  reencrypt_rows_plain nonce (row ∷ rows) (values ∷ others_read) h (first_plain, plain) =
      let (first, tail) =
        cons-ok (read_row f settings row) (read_rows f settings rows) values others_read h in
      let (touched, saved) = reencrypt_row_plain nonce row values first first_plain in
      let (n, saved') = reencrypt_rows_plain (nonce + length row) rows others_read tail plain in
      (if touched then n + 1 else n, rw (saved, saved', reencrypt_rows) refl)
