-- ===== src/Security/Throttle/Bounds.antt =====
-- How many requests of a client pass within a window.
use payroll_management_syste.Prelude.{
  ℕ, ◌+◌, ◌-◌, ◌≤◌, ◌<◌, String, ◌≡◌, refl, ◌∙◌, inl, inr, Bool, true, false, ◌&&◌, none, some,
  List, [], ◌∷◌, ◌++◌, arith, str_eq, str_eq_iff, ltb, leb, if◌then◌else◌, Bool-cases, Option-cases,
  any, find, find-append_new,
}
use payroll_management_syste.Prelude.Lists.{find-update_where, find-update_where_other, any-none}
use payroll_management_syste.Security.Throttle.{
  limit_of, scope_of, throttle, key_of, HttpRequest, ThrottleSettings, Scope, KeyDigest, has_key,
  set_counter, count_request, Counter,
}

abbrev pub is_scope : Scope → Scope → Bool
is_scope Scope.auth Scope.auth = true
is_scope Scope.api Scope.api = true
is_scope _ _ = false

is_scope-eq : (a b : Scope) → is_scope a b ≡ true → a ≡ b
is_scope-eq Scope.auth Scope.auth h = refl
is_scope-eq Scope.auth Scope.api h = cc
is_scope-eq Scope.api Scope.auth h = cc
is_scope-eq Scope.api Scope.api h = refl

-- What is known of the counter of a key: there is none, or it is at a count until after the window.
abbrev pub IsUncounted : String → List Counter → Type 0
IsUncounted key cache = find (has_key key) cache ≡ none

abbrev IsCounted : String → ℕ → ℕ → List Counter → Type 0
IsCounted key count end cache =
    (c : Counter) × (find (has_key key) cache ≡ some c) × (c.count ≡ count) × (end ≤ c.expires)

apart :
    (key other : String) (c : Counter)
    → str_eq other key ≡ false
    → has_key other c ≡ true
    → has_key key c ≡ false
apart key other c differ h = rw ((str_eq_iff c.key other).0 h) differ

find-set_counter_other :
    (key other : String) (count expires : ℕ) (cache : List Counter)
    → str_eq other key ≡ false
    → find (has_key key) (set_counter other count expires cache) ≡ find (has_key key) cache
unfolding set_counter
find-set_counter_other key other count expires cache differ =
    elim (Bool-cases (any (has_key other) cache)) [
      | inl old ↦ rw old (
          find-update_where_other (has_key other) (has_key key)
            (λ c. record c { count = count; expires = expires }) cache (λ _. refl)
            (λ c. apart key other c differ))
      | inr new ↦ rw new (find-append_other (has_key key) cache _ differ)
    ]
  where
    find-append_other :
        (test : Counter → Bool) (xs : List Counter) (x : Counter)
        → test x ≡ false
        → find test (xs ++ x ∷ []) ≡ find test xs
    find-append_other test [] x f = rw f refl
    find-append_other test (y ∷ xs) x f = elim (Bool-cases (test y)) [
      | inl t ↦ rw t refl
      | inr g ↦ rw g (find-append_other test xs x f)
    ]

count_request_other :
    (key other : String) (now window : ℕ) (cache : List Counter)
    → str_eq other key ≡ false
    → find (has_key key) (count_request other now window cache).1 ≡ find (has_key key) cache
unfolding count_request
count_request_other key other now window cache differ =
    let fresh = find-set_counter_other key other 1 (now + (window + 1)) cache differ in
    elim (Option-cases (find (has_key other) cache)) [
      | inl absent ↦ rw (absent, count_request) fresh
      | inr (c, found) ↦ elim (Bool-cases (ltb now c.expires)) [
        | inl live ↦
            rw (found, live, count_request)
              (find-update_where_other (has_key other) (has_key key)
                (λ x. record x { count = c.count + 1 }) cache (λ _. refl)
                (λ x. apart key other x differ))
        | inr gone ↦ rw (found, gone, count_request) fresh
      ]
    ]

count_request_first :
    (key : String) (now window : ℕ) (cache : List Counter)
    → IsUncounted key cache
    → ((count_request key now window cache).0 ≡ 1)
      × IsCounted key 1 (now + (window + 1)) (count_request key now window cache).1
unfolding count_request set_counter
count_request_first key now window cache absent =
    let first : Counter = record { key = key; count = 1; expires = now + (window + 1) } in
    rw (absent, any-none (has_key key) cache absent, count_request)
      (
        refl,
        (
          first,
          find-append_new (has_key key) cache first absent ((str_eq_iff key key).1 refl),
          refl,
          omega arith,
        ),
      )

count_request_next :
    (key : String) (now window count end : ℕ) (cache : List Counter)
    → IsCounted key count end cache
    → now < end
    → ((count_request key now window cache).0 ≡ count + 1)
      × IsCounted key (count + 1) end (count_request key now window cache).1
unfolding count_request
count_request_next key now window count end cache (c, found, same, late) early =
    let live : ltb now c.expires ≡ true = ground arith in
    rw (found, live, same, count_request)
      (
        refl,
        (
          record c { count = count + 1 },
          find-update_where (has_key key) (λ x. record x { count = count + 1 }) cache c (λ _. refl)
              found,
          refl,
          late,
        ),
      )

module _ (digest : KeyDigest) (settings : ThrottleSettings) where
  -- Whether a request is of the scope and has the key.
  abbrev pub is_watched : Scope → String → ℕ → HttpRequest → Bool
  is_watched scope key now r =
      str_eq (key_of digest settings now r) key && is_scope scope (scope_of r)

  -- The requests of the scope and key that are passed on, of requests in the order of their arrival.
  unfoldable pub passed : Scope → String → List (ℕ × HttpRequest) → List Counter → ℕ
  passed scope key [] cache = 0
  passed scope key ((now, r) ∷ requests) cache =
      let later = passed scope key requests (throttle digest settings now r cache).1 in
      if is_watched scope key now r && (throttle digest settings now r cache).0
      then later + 1
      else later

  -- All requests arrive within one window from that second on.
  abbrev pub AreWithin : ℕ → List (ℕ × HttpRequest) → Type 0
  AreWithin start [] = Unit
  AreWithin start ((now, r) ∷ requests) =
      (start ≤ now) × (now < start + settings.rate_limit_window_seconds) × AreWithin start requests

  throttle_enabled :
      (now : ℕ) (r : HttpRequest) (cache : List Counter)
      → settings.rate_limit_enabled ≡ true
      → let counted =
          count_request
            (key_of digest settings now r)
            now
            settings.rate_limit_window_seconds
            cache in
        throttle digest settings now r cache
        ≡ (leb counted.0 (limit_of settings (scope_of r)), counted.1)
  unfolding throttle
  throttle_enabled now r cache enabled = rw enabled refl

  -- A request with the key uses up one of the passes that are left.
  watched_step :
      (scope : Scope) (key : String) (now : ℕ) (r : HttpRequest) (requests : List (ℕ × HttpRequest))
      (cache counted : List Counter) (n : ℕ)
      → throttle digest settings now r cache
        ≡ (leb (n + 1) (limit_of settings (scope_of r)), counted)
      → passed scope key requests counted ≤ limit_of settings scope - (n + 1)
      → passed scope key ((now, r) ∷ requests) cache ≤ limit_of settings scope - n
  unfolding passed
  watched_step scope key now r requests cache counted n step rest =
      elim (Bool-cases (is_scope scope (scope_of r))) [
        | inr other ↦ rw (step, other) (ground arith)
        | inl same ↦ rw (step, same, ← is_scope-eq scope (scope_of r) same) (ground arith)
      ]

  unwatched_step :
      (scope : Scope) (key : String) (now : ℕ) (r : HttpRequest) (requests : List (ℕ × HttpRequest))
      (cache : List Counter)
      → str_eq (key_of digest settings now r) key ≡ false
      → passed scope key ((now, r) ∷ requests) cache
        ≡ passed scope key requests (throttle digest settings now r cache).1
  unfolding passed
  unwatched_step scope key now r requests cache other = rw other refl

  module _ (enabled : settings.rate_limit_enabled ≡ true) (scope : Scope) (key : String)
      (start : ℕ) where
    passed-le-rest :
        (requests : List (ℕ × HttpRequest)) (cache : List Counter) (count end : ℕ)
        → start + settings.rate_limit_window_seconds ≤ end
        → AreWithin start requests
        → IsCounted key count end cache
        → passed scope key requests cache ≤ limit_of settings scope - count
    unfolding passed
    passed-le-rest [] cache count end late within counted = omega arith
    passed-le-rest ((now, r) ∷ requests) cache count end late (_, early, within) counted =
        let step = throttle_enabled now r cache enabled in
        elim (Bool-cases (str_eq (key_of digest settings now r) key)) [
          | inl mine ↦
              let named = (str_eq_iff (key_of digest settings now r) key).0 mine in
              let (n, counted') =
                count_request_next key now settings.rate_limit_window_seconds count end cache
                  counted (omega arith) in
              watched_step scope key now r requests cache _ count (rw (step, named, n) refl)
                (passed-le-rest requests _ (count + 1) end late within counted')
          | inr other ↦
              let (c, found, same, lasting) = counted in
              let kept =
                count_request_other key (key_of digest settings now r) now
                  settings.rate_limit_window_seconds cache other in
              rw (unwatched_step scope key now r requests cache other, step)
                (passed-le-rest requests _ count end late within (c, kept ∙ found, same, lasting))
        ]

    -- Of the requests that arrive within one window, in any order and from any clients, at most as many
    -- of a scope and key are passed on as the limit of the scope says, if the throttle is enabled and
    -- the key was not counted before. The key names the scope, the client and the window.
    pub passed-le-limit :
        (requests : List (ℕ × HttpRequest)) (cache : List Counter)
        → AreWithin start requests
        → IsUncounted key cache
        → passed scope key requests cache ≤ limit_of settings scope
    unfolding passed
    passed-le-limit [] cache within absent = omega arith
    passed-le-limit ((now, r) ∷ requests) cache (after, early, within) absent =
        let step = throttle_enabled now r cache enabled in
        elim (Bool-cases (str_eq (key_of digest settings now r) key)) [
          | inl mine ↦
              let named = (str_eq_iff (key_of digest settings now r) key).0 mine in
              let (n, counted) =
                count_request_first key now settings.rate_limit_window_seconds cache absent in
              let bound =
                watched_step scope key now r requests cache _ 0 (rw (step, named, n) refl) (
                  passed-le-rest requests _ 1 (now + (settings.rate_limit_window_seconds + 1))
                    (omega arith) within counted) in
              omega arith
          | inr other ↦
              let kept =
                count_request_other key (key_of digest settings now r) now
                  settings.rate_limit_window_seconds cache other in
              rw (unwatched_step scope key now r requests cache other, step)
                (passed-le-limit requests _ within (kept ∙ absent))
        ]
