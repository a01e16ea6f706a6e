-- ===== src/Receipts/Allocation/Amounts.antt =====
-- receipts/allocation.py: which values `money` takes for which amounts.
use home_budget_pipeline.Prelude.{
  ◌≡◌, refl, false, Option, none, some, List, [], ◌∷◌, map, any, is_none, ap, sym, ◌∙◌, subst,
  length, ◌<◌, arith,
}
use home_budget_pipeline.Prelude.Decimal.{
  Decimal, to_cents, IsCents, to_cents-IsCents, IsCents-to_cents,
}
use home_budget_pipeline.Prelude.Int.{ℤ, ◌+ℤ◌, sum}
use home_budget_pipeline.Prelude.Result.{returns, bind-inversion, returns-inj}
use home_budget_pipeline.Receipts.Allocation.{
  MoneyInput, null, no_number, value, in_cents, money, moneys, value_or_zero, item_total_of,
  no_values,
}

-- The value is a finite decimal that is m cents.
abbrev pub IsAmount : MoneyInput → ℤ → Type 0
IsAmount (value d) m = IsCents d m
IsAmount _ m = ⊥

-- Each value is the amount at its place.
abbrev pub AreAmounts : List MoneyInput → List ℤ → Type 0
AreAmounts [] [] = Unit
AreAmounts (x ∷ xs) (m ∷ ms) = IsAmount x m × AreAmounts xs ms
AreAmounts _ _ = ⊥

in_cents-some : (o : Option ℤ) (m : ℤ) → in_cents o ≡ returns (some m) → o ≡ some m
in_cents-some none m h = cc
in_cents-some (some n) m h = returns-inj h

in_cents-none : (o : Option ℤ) → in_cents o ≡ returns none → ⊥
in_cents-none none h = cc
in_cents-none (some n) h = let e = returns-inj h in cc

pub money-IsAmount : (x : MoneyInput) (m : ℤ) → money x ≡ returns (some m) → IsAmount x m
unfolding money
money-IsAmount null m h = let e = returns-inj h in cc
money-IsAmount no_number m h = cc
money-IsAmount (value d) m h = to_cents-IsCents d m (in_cents-some (to_cents d) m h)

pub IsAmount-money : (x : MoneyInput) (m : ℤ) → IsAmount x m → money x ≡ returns (some m)
unfolding money
IsAmount-money null m h = absurd h
IsAmount-money no_number m h = absurd h
IsAmount-money (value d) m h = ap in_cents (IsCents-to_cents d m h)

-- A number is never taken for a missing amount.
pub number_counts :
    (d : Decimal) (o : Option ℤ) → money (value d) ≡ returns o → IsCents d (value_or_zero o)
number_counts d none h = unfold money in absurd (in_cents-none (to_cents d) h)
number_counts d (some m) h = money-IsAmount (value d) m h

-- The amounts that stand behind the values read from some items.
abbrev pub Readings : List MoneyInput → List (Option ℤ) → Type 0
Readings items values = (vs : List ℤ) × (values ≡ map some vs) × AreAmounts items vs

Readings-cons :
    (x : MoneyInput) (xs : List MoneyInput) (o : Option ℤ) (os : List (Option ℤ))
    → money x ≡ returns o
    → any is_none (o ∷ os) ≡ false
    → (any is_none os ≡ false → Readings xs os)
    → Readings (x ∷ xs) (o ∷ os)
unfolding any
Readings-cons x xs none os call full rest = cc
Readings-cons x xs (some m) os call full rest =
    let (ms, e, amounts) = rest full in
    (m ∷ ms, ap (λ t. some m ∷ t) e, (money-IsAmount x m call, amounts))

pub moneys-AreAmounts :
    (items : List MoneyInput) (values : List (Option ℤ))
    → moneys items ≡ returns values
    → any is_none values ≡ false
    → Readings items values
unfolding moneys
moneys-AreAmounts [] values h full = ([], sym (returns-inj h), tt)
moneys-AreAmounts (x ∷ xs) values h full =
    let (o, call, h) = bind-inversion (money x) _ h in
    let (os, calls, made) = bind-inversion (moneys xs) _ h in
    let e = returns-inj made in
    subst (Readings (x ∷ xs)) e
      (Readings-cons x xs o os call (ap (any is_none) e ∙ full) (moneys-AreAmounts xs os calls))

pub AreAmounts-moneys :
    (items : List MoneyInput) (vs : List ℤ)
    → AreAmounts items vs
    → moneys items ≡ returns (map some vs)
unfolding moneys
AreAmounts-moneys [] [] h = refl
AreAmounts-moneys [] (m ∷ ms) h = absurd h
AreAmounts-moneys (x ∷ xs) [] h = absurd h
AreAmounts-moneys (x ∷ xs) (m ∷ ms) h =
    rw (IsAmount-money x m h.0, AreAmounts-moneys xs ms h.1) refl

pub all_there : (vs : List ℤ) → any is_none (map some vs) ≡ false
unfolding any
all_there [] = refl
all_there (m ∷ ms) = all_there ms

pub total_there : (vs : List ℤ) → item_total_of (map some vs) ≡ sum vs
unfolding item_total_of sum
total_there [] = refl
total_there (m ∷ ms) = unfold item_total_of in ap (λ t. m +ℤ t) (total_there ms)

pub some_there :
    (items : List MoneyInput) (vs : List ℤ)
    → AreAmounts items vs
    → 0 < length items
    → no_values (map some vs) ≡ false
some_there [] [] h k = absurd (omega arith)
some_there [] (m ∷ ms) h k = absurd h
some_there (x ∷ xs) [] h k = absurd h
some_there (x ∷ xs) (m ∷ ms) h k = refl

pub items_there :
    (items : List MoneyInput) (vs : List ℤ)
    → AreAmounts items vs
    → no_values (map some vs) ≡ false
    → 0 < length items
items_there [] [] h k = cc
items_there [] (m ∷ ms) h k = absurd h
items_there (x ∷ xs) ms h k = omega arith
