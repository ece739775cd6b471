-- ===== src/Base/Results.antt =====
-- Go's `(T, error)`: a value or an error. An error is its text, or a text that wraps another
-- error, as `fmt.Errorf` with `%v` or `%w` builds it.
use Prim.Native.String.{String, ◌++◌}
use mathlib.Core.Path.{◌≡◌, refl}
use mathlib.Core.Logic.{◌⊎◌, inl, inr}
use mathlib.Core.Bool.{Bool, true, false}

pub data Failure : Type 0 where
  message : String → Failure
  because : String → Failure → Failure

-- `err.Error()`
unfoldable pub error_text : Failure → String
error_text (message s) = s
error_text (because s f) = s ++ ": " ++ error_text f

pub data Result {ℓ} (A : Type ℓ) : Type ℓ where
  ok : A → Result A
  err : Failure → Result A

-- `if err != nil { return fmt.Errorf(s, err) }`
abbrev pub context {ℓ} : {A : Type ℓ} → String → Result A → Result A
context s (ok a) = ok a
context s (err e) = err (because s e)

-- `if bad { return e }`
abbrev pub fail_if : Bool → Failure → Result (Unit {0})
fail_if true e = err e
fail_if false e = ok tt

-- `if err != nil { return err }`, and on with the value.
infixl 5 ◌>>=◌
abbrev pub ◌>>=◌ {ℓ κ} : {A : Type ℓ} {B : Type κ} (r : Result A) (next : A → Result B) → Result B
err e >>= next = err e
ok a >>= next = next a

infixl 5 ◌>>◌
abbrev pub ◌>>◌ {κ} : {B : Type κ} (check : Result (Unit {0})) (next : Result B) → Result B
check >> next = check >>= λ u. next

-- To split on a computed result and keep the equation.
pub Result-cases {ℓ} :
    {A : Type ℓ} (x : Result A) → ((a : A) × (x ≡ ok a)) ⊎ ((e : Failure) × (x ≡ err e))
Result-cases (ok a) = inl (a, refl)
Result-cases (err e) = inr (e, refl)
