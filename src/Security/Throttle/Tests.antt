-- ===== src/Security/Throttle/Tests.antt =====
-- Three requests of one client in a window that lets two of them pass.
use payroll_management_syste.Prelude.{ℕ, ◌≤◌, ◌≡◌, refl, true, some, List, [], ◌∷◌, arith}
use payroll_management_syste.Security.Throttle
use payroll_management_syste.Security.Throttle.{Scope, ThrottleSettings, HttpRequest, KeyDigest}
use payroll_management_syste.Security.Throttle.Bounds.{passed, passed-le-limit}

abbrev settings : ThrottleSettings
settings = record {
  rate_limit_enabled = true;
  auth_rate_limit = 1;
  api_rate_limit = 2;
  rate_limit_window_seconds = 60;
}

abbrev client_key : KeyDigest
client_key scope client window = client

abbrev request : HttpRequest
request = record { path = "/api/v1/payroll/"; remote_addr = some "10.0.0.1" }

abbrev requests : List (ℕ × HttpRequest)
requests = (120, request) ∷ (125, request) ∷ (130, request) ∷ []

passes_two : passed client_key settings Scope.api "10.0.0.1" requests [] ≡ 2
unfolding passed Throttle.throttle Throttle.key_of Throttle.count_request Throttle.set_counter
passes_two = refl

passed-le-limit_example : passed client_key settings Scope.api "10.0.0.1" requests [] ≤ 2
passed-le-limit_example =
    passed-le-limit client_key settings refl Scope.api "10.0.0.1" 120 requests []
      (omega arith, omega arith, (omega arith, omega arith, (omega arith, omega arith, tt))) refl
