-- ===== src/Organizations/Validators.antt =====
-- apps/organizations/validators.py: identifiers and currency codes.
use payroll_management_syste.Prelude.{
  ℕ, String, Bool, true, false, ◌&&◌, ◌||◌, List, [], ◌∷◌, str_eq, ◌==◌, length, any,
}
use payroll_management_syste.Prelude.Text.{codes, is_upper_letter, is_lower_letter, is_digit}
use payroll_management_syste.Outcome.{Result, validation_error, raise_unless}

abbrev pub is_alphanumeric : ℕ → Bool
is_alphanumeric c = is_upper_letter c || is_lower_letter c || is_digit c

-- `[A-Za-z0-9._/-]`
abbrev pub is_identifier_code : ℕ → Bool
is_identifier_code c = is_alphanumeric c || c == b'.' || c == b'_' || c == b'/' || c == b'-'

-- `[A-Za-z0-9._/-]*$`; Python's `$` also matches before a newline at the end.
unfoldable pub is_identifier_rest : List ℕ → Bool
is_identifier_rest [] = true
is_identifier_rest (c ∷ cs) =
    (c == 10 && length cs == 0) || (is_identifier_code c && is_identifier_rest cs)

unfoldable pub is_identifier : List ℕ → Bool
is_identifier [] = false
is_identifier (c ∷ cs) = is_alphanumeric c && is_identifier_rest cs

-- `validate_identifier`
unfoldable pub validate_identifier : String → Result (Unit {0})
validate_identifier value =
    raise_unless (is_identifier (codes value)) (validation_error "not an identifier")

unfoldable pub supported_currencies : List String
supported_currencies =
    "AUD" ∷ "CAD" ∷ "CHF" ∷ "CNY" ∷ "EUR" ∷ "GBP" ∷ "INR" ∷ "JPY" ∷ "KES" ∷ "NGN" ∷ "NZD" ∷ "SGD"
    ∷ "USD" ∷ "ZAR" ∷ []

unfoldable pub validate_currency : String → Result (Unit {0})
validate_currency value =
    raise_unless (any (λ c. str_eq c value) supported_currencies)
      (validation_error "not a supported currency code")
