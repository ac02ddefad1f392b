-- ===== src/Security/Throttle.antt =====
-- `RateLimitMiddleware` of apps/security/middleware.py, with the shared cache that it counts in. Time is
-- in whole seconds; the key is a digest of the scope, the client and the number of the window.
pub mod Bounds
mod Tests
use payroll_management_syste.Prelude.{
  ℕ, zero, suc, ◌+◌, ◌-◌, ◌*◌, ◌/◌, ◌%◌, ◌^◌, ◌≤◌, ◌<◌, max, min, String, ◌≡◌, refl, sym, ap, subst,
  ◌∙◌, ◌≢◌, ◌↔◌, ◌⊎◌, inl, inr, Bool, true, false, not, ◌&&◌, ◌||◌, Option, none, some,
  some-injective, List, [], ◌∷◌, ◌++◌, map, append-nil, append_assoc, arith, str_eq, str_eq_iff,
  ltb, leb, ◌==◌, if◌then◌else◌, ==_iff, Bool-cases, Option-cases, length, length-append, any, all,
  select, find, update_where, All, All-append, any-append, Elem, find-Elem, Elem-any, find_sound,
  select-append, All-select, All-map, Elem-select, select-Elem, select-All, find-append_new,
  length-update_where,
}
use payroll_management_syste.Prelude.Text.{strip_prefix}

pub data Scope : Type 0 where
  auth api : Scope

pub record ThrottleSettings : Type 0 where
  pub rate_limit_enabled : Bool
  pub auth_rate_limit : ℕ
  pub api_rate_limit : ℕ
  pub rate_limit_window_seconds : ℕ

-- A counter of the cache, and the time at which it is gone.
pub record Counter : Type 0 where
  pub key : String
  pub count : ℕ
  pub expires : ℕ

pub record HttpRequest : Type 0 where
  pub path : String
  pub remote_addr : Option String

abbrev pub has_prefix : String → String → Bool
has_prefix prefix text = elim (strip_prefix prefix text) [ none ↦ false | some _ ↦ true ]

unfoldable pub scope_of : HttpRequest → Scope
scope_of r =
    if has_prefix "/api/v1/accounts/login/" r.path
      || has_prefix "/api/v1/accounts/password-reset/" r.path
    then auth
    else api

abbrev pub identity_of : Option String → String
identity_of none = "unknown"
identity_of (some address) = address

abbrev pub limit_of : ThrottleSettings → Scope → ℕ
limit_of settings auth = settings.auth_rate_limit
limit_of settings api = settings.api_rate_limit

-- The SHA-256 digest in the cache key.
abbrev pub KeyDigest : Type 0
KeyDigest = Scope → String → ℕ → String

unfoldable pub key_of : KeyDigest → ThrottleSettings → ℕ → HttpRequest → String
unfolding scope_of
key_of digest settings now r =
    digest (scope_of r) (identity_of r.remote_addr) (now / settings.rate_limit_window_seconds)

abbrev pub has_key : String → Counter → Bool
has_key key c = str_eq c.key key

-- `cache.set`
unfoldable pub set_counter : String → ℕ → ℕ → List Counter → List Counter
set_counter key count expires cache =
    if any (has_key key) cache
    then update_where (has_key key) (λ c. record c { count = count; expires = expires }) cache
    else cache ++ record { key = key; count = count; expires = expires } ∷ []

-- `cache.incr`, or `cache.set` to one after its ValueError: the count, and the cache.
unfoldable pub count_request : String → ℕ → ℕ → List Counter → ℕ × List Counter
count_request key now window cache =
    let fresh : ℕ × List Counter = (1, set_counter key 1 (now + (window + 1)) cache) in
    elim (find (has_key key) cache) [
      | none ↦ fresh
      | some c ↦
          if ltb now c.expires
          then (
            c.count + 1,
            update_where (has_key key) (λ x. record x { count = c.count + 1 }) cache,
          )
          else fresh
    ]

-- `__call__`: whether the request is passed on, and the cache.
unfoldable pub throttle :
    KeyDigest → ThrottleSettings → ℕ → HttpRequest → List Counter → Bool × List Counter
throttle digest settings now r cache =
    let (count, counted) =
      count_request (key_of digest settings now r) now settings.rate_limit_window_seconds cache in
    if settings.rate_limit_enabled
    then (leb count (limit_of settings (scope_of r)), counted)
    else (true, cache)
