-- ===== src/Server/Errors.antt =====
-- src/server/errors.ts: the error codes, and code that may throw one. Messages are left out.
use typescript_tetherdb.Base.{◌≡◌, refl, ◌⊎◌, inl, inr, Bool, true, false, arith}

pub data ErrorCode : Type 0 where
  invalid_input not_found already_exists unauthorized forbidden : ErrorCode
  authentication_failed limit_exceeded configuration_error not_supported internal_error : ErrorCode

-- How a call ends: by a throw, or with the value that it returns.
pub data Result {ℓ} (Returned : Type ℓ) : Type ℓ where
  throw : ErrorCode → Result Returned
  ok : Returned → Result Returned

-- What follows a call runs on the value that the call returned. A throw passes on.
infixl 5 ◌>>=◌ ◌>>◌
abbrev pub ◌>>=◌ {ℓ κ} :
    {First : Type ℓ} {Last : Type κ} → Result First → (First → Result Last) → Result Last
throw code >>= next = throw code
ok value >>= next = next value

-- The same for a call that returns nothing.
abbrev pub ◌>>◌ {κ} : {Last : Type κ} → Result (Unit {0}) → Result Last → Result Last
throw code >> next = throw code
ok done >> next = next

-- `if (!test) throw code`
abbrev pub require : Bool → ErrorCode → Result (Unit {0})
require false code = throw code
require true code = ok tt

pub Result-cases {ℓ} :
    {A : Type ℓ} (m : Result A) → ((a : A) × (m ≡ ok a)) ⊎ ((e : ErrorCode) × (m ≡ throw e))
Result-cases (throw e) = inr (e, refl)
Result-cases (ok a) = inl (a, refl)

module _ {ℓ κ} {First : Type ℓ} {Last : Type κ} where
  -- If a sequence of calls returns, so do its first call and what follows it.
  pub >>=-eq-ok :
      (call : Result First) (next : First → Result Last) {last : Last}
      → (call >>= next) ≡ ok last
      → (value : First) × (call ≡ ok value) × (next value ≡ ok last)
  >>=-eq-ok (throw code) next returns = ground arith
  >>=-eq-ok (ok value) next returns = (value, refl, returns)

module _ {κ} {Last : Type κ} where
  -- The same after a call that returns nothing.
  pub >>-eq-ok :
      (call : Result (Unit {0})) (next : Result Last) {last : Last}
      → (call >> next) ≡ ok last
      → (call ≡ ok tt) × (next ≡ ok last)
  >>-eq-ok (throw code) next returns = ground arith
  >>-eq-ok (ok done) next returns = (refl, returns)

  -- The same after a test.
  pub require-eq-ok :
      (test : Bool) (code : ErrorCode) (next : Result Last) {last : Last}
      → (require test code >> next) ≡ ok last
      → (test ≡ true) × (next ≡ ok last)
  require-eq-ok false code next returns = ground arith
  require-eq-ok true code next returns = (refl, returns)
