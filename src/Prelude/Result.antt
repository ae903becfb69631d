-- ===== src/Prelude/Result.antt =====
-- Python exceptions as values: a call returns a value or raises one of the exceptions that the
-- modelled code can raise.
use mathlib.Core.Path.{◌≡◌, refl}
use mathlib.Core.Bool.{Bool, true, false}

pub data Exception : Type 0 where
  value_error type_error name_error key_error : Exception
  index_error zero_division_error assertion_error overflow_error called_process_error : Exception
  os_error unicode_error base_exception script_invalid_error : Exception

pub data Result {ℓ} (A : Type ℓ) : Type ℓ where
  ok : A → Result A
  err : Exception → Result A

pub ok-injective {ℓ} : {A : Type ℓ} {a b : A} → ok a ≡ ok b → a ≡ b
ok-injective h = cc

infixl 5 ◌>>=◌ ◌>>◌
-- The rest of a body runs on the value of a call that returned.
abbrev pub ◌>>=◌ {κ μ} :
    {V : Type κ} {W : Type μ} (call : Result V) (rest : V → Result W) → Result W
err raised >>= rest = err raised
ok value >>= rest = rest value

abbrev pub ◌>>◌ {μ} : {W : Type μ} (call : Result (Unit {0})) (rest : Result W) → Result W
call >> rest = call >>= λ done. rest

-- `assert`, and a guard that raises.
abbrev pub guard : Bool → Exception → Result (Unit {0})
guard false raised = err raised
guard true raised = ok tt

-- A body that returned has the value of its first call.
pub >>=-eq-ok {κ μ} :
    {V : Type κ} {W : Type μ} (call : Result V) (rest : V → Result W) {result : W}
    → (call >>= rest) ≡ ok result
    → (value : V) × (call ≡ ok value) × (rest value ≡ ok result)
>>=-eq-ok (err raised) rest returned = cc
>>=-eq-ok (ok value) rest returned = (value, refl, returned)
