-- ===== src/Outcome.antt =====
-- Python's exceptions as values, and a service call as a function of the stored records: it ends
-- with a result or an exception, and with the records as they then stand.
use payroll_management_syste.Prelude.{
  inl, inr, ◌⊎◌, subst, ◌≡◌, refl, Bool, true, false, Option, none, some, String,
}

-- The classes that the program raises, with the fixed part of the message.
pub data Exception : Type 0 where
  validation_error : String → Exception
  permission_denied : String → Exception
  improperly_configured : String → Exception
  unsupported_jurisdiction : String → Exception
  value_error : String → Exception
  key_error : String → Exception
  integrity_error : Exception
  does_not_exist : Exception
  -- `decimal.InvalidOperation`
  invalid_operation : Exception
  -- `decimal.DivisionByZero`
  division_by_zero : Exception

pub data Result {ℓ} (A : Type ℓ) : Type ℓ where
  err : Exception → Result A
  ok : A → Result A

abbrev pub raise_unless : Bool → Exception → Result (Unit {0})
raise_unless true e = ok tt
raise_unless false e = err e

abbrev pub raise_if : Bool → Exception → Result (Unit {0})
raise_if true e = err e
raise_if false e = ok tt

abbrev pub or_raise {ℓ} : {A : Type ℓ} → Option A → Exception → Result A
or_raise none e = err e
or_raise (some a) e = ok a

-- The next step of a service runs only after a step that did not raise.
infixl 5 ◌>>=◌
abbrev pub ◌>>=◌ {ℓ κ} : {S : Type ℓ} {T : Type κ} → Result S → (S → Result T) → Result T
err raised >>= next = err raised
ok s >>= next = next s

infixl 5 ◌>>◌
abbrev pub ◌>>◌ {κ} : {T : Type κ} → Result (Unit {0}) → Result T → Result T
check >> next = check >>= λ _. next

-- A chain that returned has a first step that returned.
pub >>=-eq-ok {ℓ κ} :
    {S : Type ℓ} {T : Type κ} (step : Result S) (next : S → Result T) {t : T}
    → (step >>= next) ≡ ok t
    → (s : S) × (step ≡ ok s) × (next s ≡ ok t)
>>=-eq-ok (err raised) next h = cc
>>=-eq-ok (ok s) next h = (s, refl, h)

pub ok-injective {ℓ} : {A : Type ℓ} {a b : A} → ok a ≡ ok b → a ≡ b
ok-injective h = cc

pub or_raise-ok {ℓ} :
    {A : Type ℓ} (o : Option A) (e : Exception) {a : A} → or_raise o e ≡ ok a → o ≡ some a
or_raise-ok none e h = cc
or_raise-ok (some b) e h = cc

pub raise_unless-ok : (b : Bool) (e : Exception) {u : Unit {0}} → raise_unless b e ≡ ok u → b ≡ true
raise_unless-ok true e h = refl
raise_unless-ok false e h = cc

pub raise_if-ok : (b : Bool) (e : Exception) {u : Unit {0}} → raise_if b e ≡ ok u → b ≡ false
raise_if-ok true e h = cc
raise_if-ok false e h = refl

pub >>=-const {ℓ κ} :
    {A : Type ℓ} {B : Type κ} (m : Result A) (x y : B) → (m >>= λ _. ok x) ≡ ok y → x ≡ y
>>=-const (ok a) x y h = ok-injective h
>>=-const (err e) x y h = cc

-- What holds of the result, if there is one.
abbrev pub Ensures {ℓ} : {A : Type ℓ} → (A → Type 0) → Result A → Type 0
Ensures P (ok a) = P a
Ensures P (err e) = Unit

-- The rule for a step: its continuation may assume what the step returned.
pub Ensures-bind {ℓ κ} :
    {A : Type ℓ} {B : Type κ} (P : B → Type 0) (m : Result A) (f : A → Result B)
    → ((a : A) → m ≡ ok a → Ensures P (f a))
    → Ensures P (m >>= f)
Ensures-bind P (ok a) f h = h a refl
Ensures-bind P (err e) f h = tt

-- The rule for a last step.
pub Ensures-last {ℓ} :
    {A : Type ℓ} (P : A → Type 0) (m : Result A) → ((a : A) → m ≡ ok a → P a) → Ensures P m
Ensures-last P (ok a) h = h a refl
Ensures-last P (err e) h = tt

-- What holds anyway holds of the result.
pub Ensures-const {ℓ} : {A : Type ℓ} (P : A → Type 0) (m : Result A) → ((a : A) → P a) → Ensures P m
Ensures-const P (ok a) h = h a
Ensures-const P (err e) h = tt

pub Ensures-elim {ℓ} :
    {A : Type ℓ} (P : A → Type 0) (m : Result A) (a : A) → Ensures P m → m ≡ ok a → P a
Ensures-elim P (ok b) a h e = subst P (ok-injective e) h
Ensures-elim P (err x) a h e = cc

-- `transaction.atomic`: what the block wrote is kept if it returns, and taken back if it raises.
abbrev pub atomic {ℓ κ} : {S : Type ℓ} {A : Type κ} → S → Result (A × S) → Result A × S
atomic s (ok (a, s')) = (ok a, s')
atomic s (err e) = (err e, s)

pub atomic-ok {ℓ κ} :
    {S : Type ℓ} {A : Type κ} (s s' : S) (a : A) (m : Result (A × S))
    → atomic s m ≡ (ok a, s')
    → m ≡ ok (a, s')
atomic-ok s s' a (ok (b, t)) h = cc
atomic-ok s s' a (err e) h = cc

-- A transaction keeps what its block wrote, or writes nothing.
pub atomic-cases {ℓ κ} :
    {S : Type ℓ} {A : Type κ} (s s' : S) (r : Result A) (m : Result (A × S))
    → atomic s m ≡ (r, s')
    → (s' ≡ s) ⊎ ((a : A) × (m ≡ ok (a, s')))
atomic-cases s s' r (ok (a, t)) h = inr (a, cc)
atomic-cases s s' r (err e) h = inl cc

-- A transaction that raises leaves the records as they were.
pub atomic-err {ℓ κ} :
    {S : Type ℓ} {A : Type κ} (s : S) (m : Result (A × S)) (e : Exception)
    → (atomic s m).0 ≡ err e
    → (atomic s m).1 ≡ s
atomic-err s (ok (b, t)) e h = cc
atomic-err s (err x) e h = refl
