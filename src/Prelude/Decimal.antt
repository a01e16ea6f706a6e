-- ===== src/Prelude/Decimal.antt =====
-- Python's `Decimal(str(value))`, as the validation of money reads it: a finite decimal fraction, or
-- one of the special values. Text that is no number makes the constructor raise.
use Prim.Native.Nat.{ℕ, zero, suc, ◌*◌, ◌/◌, ◌%◌, ◌^◌, ◌<◌}
use mathlib.Core.Path.{◌≡◌, refl, subst, sym, ap}
use mathlib.Core.Bool.{◌&&◌}
use mathlib.Core.Option.{Option, none, some}
use native.Mathlib.Omega.{arith}
use home_budget_pipeline.Prelude.Tests.{ltb, ◌==◌, if◌then◌else◌}
use home_budget_pipeline.Prelude.Int.{ℤ, pos, negsuc, abs}

-- `finite c p` is c / 10^p.
pub data Decimal : Type 0 where
  finite : ℤ → ℕ → Decimal
  not_finite : Decimal

-- An integer with the sign of `z` and the absolute value `n`.
abbrev pub with_sign : ℤ → ℕ → ℤ
with_sign (pos _) n = pos n
with_sign (negsuc _) zero = pos 0
with_sign (negsuc _) (suc n) = negsuc n

-- `d == d.quantize(Decimal('.01'))`: no digit other than 0 stands behind the cents, and the
-- quantised value has at most the 28 digits of the default context.
unfoldable pub whole_cents : ℕ → ℕ → Option ℕ
whole_cents n places =
    let scaled = n * 100 in
    let unit = 10 ^ places in
    if scaled % unit == 0 && ltb (scaled / unit) (10 ^ 28) then some (scaled / unit) else none

unfoldable pub signed_cents : ℤ → Option ℕ → Option ℤ
signed_cents c none = none
signed_cents c (some n) = some (with_sign c n)

-- The value in cents, where it is finite and in whole cents.
unfoldable pub to_cents : Decimal → Option ℤ
unfolding whole_cents signed_cents
to_cents not_finite = none
to_cents (finite c places) = signed_cents c (whole_cents (abs c) places)

abs-with_sign : (z : ℤ) (n : ℕ) → abs (with_sign z n) ≡ n
abs-with_sign (pos m) n = omega arith
abs-with_sign (negsuc m) zero = refl
abs-with_sign (negsuc m) (suc n) = omega arith

exact_quotient : (a b : ℕ) → a % b ≡ 0 → a / b * b ≡ a
exact_quotient a b h = grind arith

whole_cents-exact :
    (n places k : ℕ) → whole_cents n places ≡ some k → (k * 10 ^ places ≡ n * 100) × (k < 10 ^ 28)
unfolding whole_cents
whole_cents-exact n places k h = ground (arith, exact_quotient (n * 100) (10 ^ places))

signed_cents-parts :
    (c : ℤ) (o : Option ℕ) (m : ℤ)
    → signed_cents c o ≡ some m
    → (o ≡ some (abs m)) × (m ≡ with_sign c (abs m))
unfolding signed_cents
signed_cents-parts c none m h = cc
signed_cents-parts c (some n) m h =
    let e : m ≡ with_sign c n = cc in let k : abs m ≡ n = rw e (abs-with_sign c n) in (rw k, rw k e)

-- An accepted amount is exact: m cents are c / 10^p, with the sign of c, and have at most 28 digits.
pub to_cents-exact :
    (c : ℤ) (places : ℕ) (m : ℤ)
    → to_cents (finite c places) ≡ some m
    → (abs m * 10 ^ places ≡ abs c * 100) × (m ≡ with_sign c (abs m)) × (abs m < 10 ^ 28)
unfolding to_cents
to_cents-exact c places m h =
    let (e, sign) = signed_cents-parts c (whole_cents (abs c) places) m h in
    let (exact, short) = whole_cents-exact (abs c) places (abs m) e in (exact, sign, short)

power_pos : (places : ℕ) → 0 < 10 ^ places
power_pos zero = omega arith
power_pos (suc places) = omega (arith, power_pos places)

multiple_rest : (k b : ℕ) → 0 < b → k * b % b ≡ 0
multiple_rest k b h = grind arith

multiple_quotient : (k b : ℕ) → 0 < b → k * b / b ≡ k
multiple_quotient k b h = grind arith

whole_cents_complete :
    (n places k : ℕ) → k * 10 ^ places ≡ n * 100 → k < 10 ^ 28 → whole_cents n places ≡ some k
unfolding whole_cents
whole_cents_complete n places k exact short =
    let rest : n * 100 % 10 ^ places ≡ 0 =
      subst (λ x. x % 10 ^ places ≡ 0) exact (multiple_rest k (10 ^ places) (power_pos places)) in
    let quotient : n * 100 / 10 ^ places ≡ k =
      subst (λ x. x / 10 ^ places ≡ k) exact
        (multiple_quotient k (10 ^ places) (power_pos places)) in
    rw (rest, quotient) (ground arith)

-- The decimal is finite, and it is m cents, of at most 28 digits.
abbrev pub IsCents : Decimal → ℤ → Type 0
IsCents not_finite m = ⊥
IsCents (finite c places) m =
    (abs m * 10 ^ places ≡ abs c * 100) × (m ≡ with_sign c (abs m)) × (abs m < 10 ^ 28)

pub to_cents-IsCents : (d : Decimal) (m : ℤ) → to_cents d ≡ some m → IsCents d m
to_cents-IsCents not_finite m h = unfold to_cents in cc
to_cents-IsCents (finite c places) m h = to_cents-exact c places m h

pub IsCents-to_cents : (d : Decimal) (m : ℤ) → IsCents d m → to_cents d ≡ some m
unfolding to_cents signed_cents
IsCents-to_cents not_finite m h = absurd h
IsCents-to_cents (finite c places) m (exact, sign, short) =
    rw (whole_cents_complete (abs c) places (abs m) exact short) (ap some (sym sign))
