-- ===== src/Prelude/Result.antt =====
-- A Python call that returns a value or raises an exception.
use mathlib.Core.Path.{◌≡◌, refl}
use mathlib.Core.Bool.{Bool, true, false}

pub data Result {ε ℓ} (Exc : Type ε) (V : Type ℓ) : Type (ε ⊔ ℓ) where
  raises : Exc → Result Exc V
  returns : V → Result Exc V

module _ {ε} {Exc : Type ε} where
  infixl 5 ◌>>=◌ ◌>>◌
  -- What follows a call, which an exception skips.
  abbrev pub ◌>>=◌ {ℓ μ} :
      {V : Type ℓ} {W : Type μ} → Result Exc V → (V → Result Exc W) → Result Exc W
  raises exc >>= next = raises exc
  returns v >>= next = next v

  abbrev pub ◌>>◌ {ℓ} : {W : Type ℓ} → Result Exc (Unit {0}) → Result Exc W → Result Exc W
  check >> rest = check >>= λ _. rest

  -- `if not test: raise exc`
  abbrev pub require : Bool → Exc → Result Exc (Unit {0})
  require false exc = raises exc
  require true exc = returns tt

  -- A block that returned got past its first call.
  pub bind-inversion {ℓ μ} :
      {V : Type ℓ} {W : Type μ} (call : Result Exc V) (next : V → Result Exc W) {w : W}
      → (call >>= next) ≡ returns w
      → (v : V) × (call ≡ returns v) × (next v ≡ returns w)
  bind-inversion (returns v) next done = (v, refl, done)
  bind-inversion (raises exc) next done = cc

  -- A block that returned passed its first check.
  pub require-inversion {ℓ} :
      {W : Type ℓ} (test : Bool) (exc : Exc) (rest : Result Exc W) {w : W}
      → (require test exc >> rest) ≡ returns w
      → (test ≡ true) × (rest ≡ returns w)
  require-inversion false exc rest done = cc
  require-inversion true exc rest done = (refl, done)

  pub returns-inj {ℓ} : {V : Type ℓ} {v w : V} → Path (Result Exc V) (returns v) (returns w) → v ≡ w
  returns-inj h = cc
