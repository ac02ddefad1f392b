-- ===== src/Lib.antt =====
-- Verification library of the payroll management system: the payroll services, the authorization
-- of organizations, the tax engine, the compensation workflow, the audit trail, the documents, the
-- records of employees, the finance metrics, field encryption, account lockout and the rate limit.
--
-- Parts, and the code that they model (paths from the repository's root):
--   Organizations    apps/organizations/models.py and services.py: roles, memberships, `authorize`,
--                    `assign_membership`, the django groups of a user, the tenant filters;
--                    Tenants: the record of an organization, and the limits of a view (mixins.py).
--   Effective        apps/organizations/models.py: effective dates, and the newest record.
--   Security         apps/security/legal.py: `require_approved_jurisdiction`; crypto.py, fields.py and
--                    the command reencrypt_sensitive_data (Crypto); the rate limit of
--                    middleware.py (Throttle).
--   Accounts         apps/accounts/models.py and backends.py: the lockout (Lockout); middleware.py:
--                    idle sessions (Sessions); mfa.py: one-time passwords (Totp).
--   Finance          apps/finance/models.py (Models), services/calculations.py: metrics
--                    (Calculations), services/forecasting.py: the linear trend (Forecasting),
--                    permissions.py: visible categories (Permissions).
--   Taxation         apps/taxation/models.py (Models), services/engine.py: the registry and the
--                    choice of a rule (Engine), the bracket calculator (Table);
--                    services/imports.py: imports, approval, activation (Imports);
--                    services/filings.py: exports of liabilities (Filings).
--   Payroll          apps/payroll/models.py: the records (Models) and the guards of `save` and
--                    `delete` (Records); services/v1.py: the rules (Rules);
--                    services/processing.py: payslips (Payslips), the role of an actor (Actors),
--                    snapshot and tax provenance (Provenance), runs and adjustments (Processing),
--                    the lifecycle (Lifecycle). History is the relation of all their calls.
--   Compensation     apps/compensation/models.py (Models) and services/recommendations.py: scoring
--                    (Scoring), approval and application (Workflow), the guards of `save`
--                    and `delete` (Guards).
--   Auditing         apps/auditing/models.py and `record_event` of services.py: the chain of
--                    audit events, for any digest, and what a request adds (Requests).
--   Documents        apps/documents/models.py (Models) and services/workflows.py: legal holds,
--                    purges and redactions (Workflows); services/uploads.py: the checks of a
--                    file and its attachment (Uploads).
--   Employees        apps/employees/models.py: records (Models), profiles and their status
--                    (Profiles), effective-dated tables (Periods), departments, skills and
--                    contracts (Careers); services/privacy.py: the requests of data subjects
--                    (Privacy).
--   Risk, Clients    apps/risk/models.py and apps/clients/models.py: the rows and their checks.
--   Decimal          Python's `decimal`, as far as the program uses it.
--   Outcome          Python's exceptions and `transaction.atomic`.
--   Prelude          names of the libraries, lists, Boolean tests, integers.
-- A stored table is a list of rows, oldest first; a foreign key is the number of the row it names,
-- and a date its ordinal. A service is a function from the records to a result or an exception and
-- the records afterwards. The payroll asks the tax engine for the rule that is in force
-- (`tax_provenance`), the organizations for the role of an actor (`role_for`), and the legal gate
-- before each run (`create_run`).
--
-- Bounds. Decimals have the 28 significant digits of the default context, with its half-even
-- rounding. Totals are exact for lines whose absolute amounts add up to less than 10 ^ 27 cents,
-- where no sum needs rounding. All functions are total by structural recursion. Only the whole
-- square root of a forecast has fuel, one unit for two binary digits: its 94 units are enough for
-- the numbers up to 36 * 10 ^ 54 that a prediction takes the root of.
--
-- Interference. Other requests may commit between the first look for an idempotency key and the
-- transaction of `process_payroll`: a function on the store stands for them, and in a history any
-- further history does. The lock on a period makes the rest of a transaction one step.
--
-- Not modelled: signed zeros, NaN and the exponent limits of decimals, the width of database
-- columns, the interpolated parts of messages, the parsing of texts into numbers, two runs created
-- at the same instant, the snapshots and explanations of a recommendation, letters and digits that
-- are not ASCII, pages, response headers, and the packages that the code calls. Parameters are the
-- cipher of the package cryptography, the `get_prep_value` of django's TextField, the keyed hashes
-- and the digests, the decoding of a secret, the parser of network addresses, django's own check of
-- a password, the guess of a type from a file name, and the JSON and CSV texts of a filing.
pub mod Prelude
pub mod Outcome
pub mod Decimal
pub mod Effective
pub mod Organizations
pub mod Security
pub mod Taxation
pub mod Payroll
pub mod Compensation
pub mod Auditing
pub mod Documents
pub mod Employees
pub mod Accounts
pub mod Finance
pub mod Risk
pub mod Clients
