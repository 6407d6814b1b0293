-- ===== src/Prelude/Result.antt =====
-- Python exceptions as values. A constructor stands for an exception class that the code raises
-- or meets; the texts of the messages are not kept.
use mathlib.Core.Path.{◌≡◌, refl}
use mathlib.Core.Bool.{Bool, true, false}

pub data Error : Type 0 where
  zero_division type_error value_error key_error runtime_error timeout_error : Error
  -- Any error of a library or of a service.
  external : Error
  -- A statement that a constraint of the database rejects.
  constraint_violation : Error
  -- `SqlGuardError`
  guard_error : Error
  -- `HTTPException` with the status 400, 401, 403, 404, 500, 502.
  bad_request unauthorized forbidden not_found server_error bad_gateway : Error
  -- A loop that is modelled on fuel and has used it up, which no end of the code stands for.
  out_of_fuel : Error

-- What a call returns, or what it raises.
pub data Result {ℓ} (Value : Type ℓ) : Type ℓ where
  err : Error → Result Value
  ok : Value → Result Value

-- `if not b: raise e`
abbrev pub require : Bool → Error → Result (Unit {0})
require allowed e = elim allowed [ true ↦ ok tt | false ↦ err e ]

infixl 5 ◌>>=◌
-- The next statement, unless this one raised.
abbrev pub ◌>>=◌ {ℓ ℓ'} : {X : Type ℓ} {Y : Type ℓ'} → Result X → (X → Result Y) → Result Y
err raised >>= next = err raised
ok value >>= next = next value

pub ok-injective {ℓ} : {X : Type ℓ} {x y : X} → ok x ≡ ok y → x ≡ y
ok-injective same = cc

-- A chain that returned has a first statement that returned.
pub >>=-eq-ok {ℓ ℓ'} :
    {X : Type ℓ} {Y : Type ℓ'} (first : Result X) (next : X → Result Y) {y : Y}
    → (first >>= next) ≡ ok y
    → (x : X) × (first ≡ ok x) × (next x ≡ ok y)
>>=-eq-ok (err raised) next returned = cc
>>=-eq-ok (ok value) next returned = (value, refl, returned)

-- A chain that returned has passed its guard.
pub require_passed {ℓ} :
    {Y : Type ℓ} (allowed : Bool) (e : Error) (next : Unit {0} → Result Y) {y : Y}
    → (require allowed e >>= next) ≡ ok y
    → (allowed ≡ true) × (next tt ≡ ok y)
require_passed true e next h = (refl, h)
require_passed false e next h = cc
