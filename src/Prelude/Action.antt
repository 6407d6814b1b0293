-- ===== src/Prelude/Action.antt =====
-- Handlers: code that changes a state and can raise. What was changed before an error stays.
use mathlib.Core.Path.{◌≡◌, refl, ap}
use postgres_s3_warehouse_sy.Prelude.Result.{Error, Result, ok, err}

abbrev pub Action {ℓ ℓ'} : Type ℓ → Type ℓ' → Type (ℓ ⊔ ℓ')
Action State Value = State → State × Result Value

module _ {ℓ ℓ'} {State : Type ℓ} {X : Type ℓ'} where
  abbrev pub return : X → Action State X
  return x s = (s, ok x)

  abbrev pub raise : Error → Action State X
  raise e s = (s, err e)

  -- A call that neither reads nor changes the state.
  abbrev pub lift : Result X → Action State X
  lift r s = (s, r)

abbrev pub continue {ℓ ℓ' ℓ''} :
    {State : Type ℓ} {X : Type ℓ'} {Y : Type ℓ''}
    → (X → Action State Y)
    → State × Result X
    → State × Result Y
continue next (s, ok x) = next x s
continue next (s, err e) = (s, err e)

infixl 5 ◌>>=◌
abbrev pub ◌>>=◌ {ℓ ℓ' ℓ''} :
    {State : Type ℓ} {X : Type ℓ'} {Y : Type ℓ''}
    → Action State X
    → (X → Action State Y)
    → Action State Y
(first >>= next) s = continue next (first s)

-- A handler that returned has passed its guard.
pub lift_passed {ℓ ℓ' ℓ''} :
    {State : Type ℓ} {X : Type ℓ'} {Y : Type ℓ''} (r : Result X) (next : X → Action State Y)
    (s : State) {s' : State} {y : Y}
    → (lift r >>= next) s ≡ (s', ok y)
    → (x : X) × (r ≡ ok x) × (next x s ≡ (s', ok y))
lift_passed (ok x) next s h = (x, refl, h)
lift_passed {State = State} {Y = Y} (err e) next s h =
    let raised = ap (λ (o : State × Result Y). o.1) h in cc
