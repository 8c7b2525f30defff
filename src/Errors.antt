-- ===== src/Errors.antt =====
-- Exceptions as values: the classes of src/provable_agent_reference/errors.py with the built-in
-- classes that the package raises, and the monad of code that may raise.
use provable_agent_reference.Base.{String, Bool, true, false, ◌≡◌, refl, ap, ◌∙◌}

pub data ErrorClass : Type 0 where
  provable_agent_error contract_error compilation_error verification_error : ErrorClass
  approval_error authorization_error : ErrorClass
  type_error value_error key_error index_error permission_error runtime_error : ErrorClass
  recursion_error file_not_found os_error database_error : ErrorClass

-- A value, or an exception of a class with its message.
pub data Result {ℓ} (A : Type ℓ) : Type ℓ where
  ok : A → Result A
  err : ErrorClass → String → Result A

-- The statements after a call that may raise: they run on what it returns.
infixl 5 ◌>>=◌ ◌>>◌
abbrev pub ◌>>=◌ {ℓ₁ ℓ₂} : {S : Type ℓ₁} {T : Type ℓ₂} → Result S → (S → Result T) → Result T
ok returned >>= next = next returned
err class message >>= next = err class message

-- A check whose result is not used.
abbrev pub ◌>>◌ {ℓ₁} : {T : Type ℓ₁} → Result (Unit {0}) → Result T → Result T
check >> next = check >>= λ done. next

-- `if b: raise e(m)`
abbrev pub raise_if : Bool → ErrorClass → String → Result (Unit {0})
raise_if true e m = err e m
raise_if false e m = ok tt

-- `if not b: raise e(m)`
abbrev pub require_that : Bool → ErrorClass → String → Result (Unit {0})
require_that true e m = ok tt
require_that false e m = err e m

pub >>=-eq-ok {ℓ₁ ℓ₂} :
    {S : Type ℓ₁} {T : Type ℓ₂} (call : Result S) (next : S → Result T) {t : T}
    → (call >>= next) ≡ ok t
    → (s : S) × (call ≡ ok s) × (next s ≡ ok t)
>>=-eq-ok (ok returned) next h = (returned, refl, h)
>>=-eq-ok (err class message) next h = cc

-- A call that returns is replaced by what it returns.
pub >>=-ok {ℓ₁ ℓ₂} :
    {S : Type ℓ₁} {T : Type ℓ₂} {call : Result S} (next : S → Result T) {s : S}
    → call ≡ ok s
    → (call >>= next) ≡ next s
>>=-ok next e = ap (λ r. r >>= next) e

pub >>=-returns {ℓ₁ ℓ₂} :
    {S : Type ℓ₁} {T : Type ℓ₂} {call : Result S} (next : S → Result T) {s : S}
    → call ≡ ok s
    → (t : T) × (next s ≡ ok t)
    → (t : T) × ((call >>= next) ≡ ok t)
>>=-returns next e (t, h) = (t, >>=-ok next e ∙ h)

pub >>-eq-ok {ℓ₁} :
    {T : Type ℓ₁} (check : Result (Unit {0})) (next : Result T) {t : T}
    → (check >> next) ≡ ok t
    → (check ≡ ok tt) × (next ≡ ok t)
>>-eq-ok (ok tt) next h = (refl, h)
>>-eq-ok (err class message) next h = cc

pub raise_if-ok : (b : Bool) (e : ErrorClass) (m : String) → raise_if b e m ≡ ok tt → b ≡ false
raise_if-ok true e m h = cc
raise_if-ok false e m h = refl

pub require_that-ok :
    (b : Bool) (e : ErrorClass) (m : String) → require_that b e m ≡ ok tt → b ≡ true
require_that-ok true e m h = refl
require_that-ok false e m h = cc

pub require_that-returns :
    (e : ErrorClass) (m : String) {b : Bool} → b ≡ true → require_that b e m ≡ ok tt
require_that-returns e m h = ap (λ b. require_that b e m) h

pub ok-injective {ℓ} : {A : Type ℓ} {a b : A} → ok a ≡ ok b → a ≡ b
ok-injective h = cc
