-- ===== src/Base/Errors.antt =====
-- A call that may raise: its value, or the exception's class.
use mathlib.Core.Path.{◌≡◌, refl}
use mathlib.Core.Option.{Option, none, some}

-- The exception classes that the modelled code raises or lets through.
pub data Error : Type 0 where
  validation_error value_error key_error index_error : Error
  journal_integrity queue_error task_config pipeline_config decision_error zero_division
        gate_configuration orchestrator_error budget_error :
      Error

pub data Result {ℓ} (A : Type ℓ) : Type ℓ where
  ok : A → Result A
  err : Error → Result A

-- The rest of a body runs on the value; an exception passes through.
infixl 5 ◌>>=◌
abbrev pub ◌>>=◌ {κ ℓ} : {V : Type κ} {W : Type ℓ} → Result V → (V → Result W) → Result W
err raised >>= rest = err raised
ok v >>= rest = rest v

abbrev pub of_option {κ} : {V : Type κ} → Error → Option V → Result V
of_option missing none = err missing
of_option missing (some v) = ok v

-- A body that returned got a value from its first call.
pub >>=-eq-ok {κ ℓ} :
    {V : Type κ} {W : Type ℓ} (first : Result V) (rest : V → Result W) {w : W}
    → (first >>= rest) ≡ ok w
    → (v : V) × (first ≡ ok v) × (rest v ≡ ok w)
>>=-eq-ok (err raised) rest returned = cc
>>=-eq-ok (ok v) rest returned = (v, refl, returned)

-- What holds of the value, where there is one.
abbrev pub Ensures {κ ℓ} : {V : Type κ} → (V → Type ℓ) → Result V → Type ℓ
Ensures P (err raised) = Unit
Ensures P (ok v) = P v

-- The rest of a body ensures it whatever the first call returned.
pub Ensures-bind {κ ℓ μ} :
    {V : Type κ} {W : Type ℓ} (P : W → Type μ) (first : Result V) (rest : V → Result W)
    → ((v : V) → Ensures P (rest v))
    → Ensures P (first >>= rest)
Ensures-bind P (err raised) rest h = _
Ensures-bind P (ok v) rest h = h v

pub Ensures-ok {κ ℓ} :
    {V : Type κ} (P : V → Type ℓ) (m : Result V) (v : V) → Ensures P m → m ≡ ok v → P v
Ensures-ok P (err raised) v h e = cc
Ensures-ok P (ok w) v h e = let same : w ≡ v = cc in rw (← same) h
