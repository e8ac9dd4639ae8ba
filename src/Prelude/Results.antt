-- ===== src/Prelude/Results.antt =====
-- What a Go function gives back: a value, an error, or no return at all, where the run time stops
-- the goroutine (a map key or an interface comparison of a slice).
use mathlib.Core.Path.{◌≡◌, refl}

pub data Result {ℓ} (Failure : Type ℓ) (Returned : Type ℓ) : Type ℓ where
  panic : Result Failure Returned
  err : Failure → Result Failure Returned
  ok : Returned → Result Failure Returned

-- What follows runs on the value that was returned.
infixl 5 ◌>>=◌
abbrev pub ◌>>=◌ {ℓ} : {E X Y : Type ℓ} → Result E X → (X → Result E Y) → Result E Y
panic >>= after = panic
err why >>= after = err why
ok x >>= after = after x

-- A chain that returned: its first step did, and so did what follows.
pub >>=-eq-ok {ℓ} :
    {E X Y : Type ℓ} (first : Result E X) (after : X → Result E Y) {y : Y}
    → (first >>= after) ≡ ok y
    → (x : X) × (first ≡ ok x) × (after x ≡ ok y)
>>=-eq-ok panic after returned = cc
>>=-eq-ok (err why) after returned = cc
>>=-eq-ok (ok x) after returned = (x, refl, returned)
