-- ===== src/Clients.antt =====
-- apps/clients/models.py: clients, their billing profiles and service agreements. A foreign key is the
-- number of its row, a date its ordinal, an amount a decimal. Codes and references are texts.
use payroll_management_syste.Prelude.{
  ℕ, String, Bool, false, not, ◌&&◌, ◌||◌, Option, none, some, List, str_eq, ltb, ◌==◌,
  if◌then◌else◌, any, find,
}
use payroll_management_syste.Outcome.{
  Result, ok, validation_error, or_raise, raise_if, raise_unless, ◌>>=◌, ◌>>◌,
}
use payroll_management_syste.Decimal.{Decimal, whole, lt}
use payroll_management_syste.Organizations.Validators.{validate_identifier, validate_currency}
use payroll_management_syste.Organizations.Tenants.{LifecycleStatus, is_country_code}

pub record Client : Type 0 where
  pub pk : ℕ
  pub organization : ℕ
  pub code : String
  pub display_name : String
  pub legal_name : String
  pub registration_number : String
  pub jurisdiction : String
  pub status : LifecycleStatus
  pub archived_at : Option ℕ

-- "unique_client_code_per_org" and "unique_client_registration_per_org", for another row.
abbrev pub is_same_client : Client → Client → Bool
is_same_client c x =
    not (x.pk == c.pk)
    && x.organization == c.organization
    && (str_eq x.code c.code
        || (not (str_eq c.registration_number "")
            && str_eq x.registration_number c.registration_number))

-- `full_clean`: the fields, `Client.clean` and the constraints.
unfoldable pub clean_client : List Client → Client → Result (Unit {0})
clean_client clients c = do
  raise_if (str_eq c.display_name "" || str_eq c.legal_name "" || str_eq c.jurisdiction "")
      (validation_error "this field cannot be blank")
  validate_identifier c.code
  if str_eq c.registration_number "" then ok tt else validate_identifier c.registration_number
  raise_unless (is_country_code c.jurisdiction)
      (validation_error "use an uppercase ISO 3166-1 alpha-2 country code")
  raise_if (any (is_same_client c) clients) (validation_error "a client with this field exists")

pub record ClientBillingProfile : Type 0 where
  pub organization : ℕ
  pub client : ℕ
  pub currency : String
  pub payment_terms_days : ℕ
  pub purchase_order_required : Bool

-- `self.organization_id != self.client.organization_id`
unfoldable pub check_client : List Client → ℕ → ℕ → Result (Unit {0})
check_client clients client organization = do
  c ← or_raise (find (λ x. x.pk == client) clients) (validation_error "the client does not exist")
  raise_unless (organization == c.organization)
      (validation_error "client must belong to the same organization")

-- `ClientBillingProfile.clean`, with the currency's validator.
unfoldable pub clean_billing_profile : List Client → ClientBillingProfile → Result (Unit {0})
clean_billing_profile clients b = do
  validate_currency b.currency
  check_client clients b.client b.organization

pub record ServiceAgreement : Type 0 where
  pub pk : ℕ
  pub organization : ℕ
  pub client : ℕ
  pub agreement_number : String
  pub status : LifecycleStatus
  pub fee_amount : Decimal
  pub currency : String
  pub termination_notice_days : ℕ
  pub effective_from : ℕ
  pub effective_to : Option ℕ

abbrev pub ends_early : ServiceAgreement → Bool
ends_early a = elim a.effective_to [ none ↦ false | some stop ↦ ltb stop a.effective_from ]

-- "unique_agreement_number_per_org", for another row.
abbrev pub is_same_agreement : ServiceAgreement → ServiceAgreement → Bool
is_same_agreement a x =
    not (x.pk == a.pk)
    && x.organization == a.organization
    && str_eq x.agreement_number a.agreement_number

-- `full_clean`: the fields, `ServiceAgreement.clean` with that of its base, and the constraints.
unfoldable pub clean_agreement :
    List Client → List ServiceAgreement → ServiceAgreement → Result (Unit {0})
clean_agreement clients agreements a = do
  validate_identifier a.agreement_number
  validate_currency a.currency
  raise_if (ends_early a) (validation_error "effective end date cannot precede the start date")
  check_client clients a.client a.organization
  raise_if (any (is_same_agreement a) agreements)
      (validation_error "an agreement with this number exists")
  raise_if (lt a.fee_amount (whole 0)) (validation_error "the fee is negative")
