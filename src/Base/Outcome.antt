-- ===== src/Base/Outcome.antt =====
-- Go's `(T, error)` results, and the errors that the program builds.
use Prim.Native.String.{String}
use mathlib.Core.Path.{◌≡◌, refl}
use mathlib.Core.Logic.{◌⊎◌, inl, inr}
use mathlib.Core.Option.{Option, none, some}
use macos_exec_kubelet.Base.Integers.{ℤ}

pub data Error : Type 0 where
  -- errors.New and fmt.Errorf without `%w`, by the constant part of the message
  message : String → Error
  -- fmt.Errorf with `%w`
  wrap : String → Error → Error
  -- errors.Join of two errors
  joined : Error → Error → Error
  -- errdefs.NotFound and errdefs.AsInvalidInput, errdefs.InvalidInputf
  not_found : String → Error
  invalid_input : Error → Error
  -- an *exec.ExitError, by what its ExitCode method gives
  exit_error : ℤ → Error
  -- an error of code outside of the program, and one that apierrors.IsNotFound accepts
  external : String → Error
  api_not_found : String → Error

-- errors.Join of an error and another one, which may be nil: then it reads as the first.
abbrev pub join : Error → Option Error → Error
join e none = e
join e (some f) = joined e f

pub data Result {ℓ} (A : Type ℓ) : Type ℓ where
  ok : A → Result A
  err : Error → Result A

-- The next step, unless there is an error: `if err != nil { return err }`.
infixl 5 ◌>>=◌
abbrev pub ◌>>=◌ {κ ℓ} : {B : Type ℓ} {A : Type κ} → Result A → (A → Result B) → Result B
err e >>= next = err e
ok a >>= next = next a

-- An error is wrapped: `if err != nil { return nil, wrapper(err) }`.
abbrev pub map_err {ℓ} : {A : Type ℓ} → (Error → Error) → Result A → Result A
map_err wrapper (err e) = err (wrapper e)
map_err wrapper (ok a) = ok a

infixl 5 ◌>>◌
abbrev pub ◌>>◌ {ℓ} : {A : Type ℓ} → Result (Unit {0}) → Result A → Result A
first >> next = first >>= λ _. next

pub Result-cases {ℓ} :
    {A : Type ℓ} (r : Result A) → ((a : A) × (r ≡ ok a)) ⊎ ((e : Error) × (r ≡ err e))
Result-cases (ok a) = inl (a, refl)
Result-cases (err e) = inr (e, refl)
