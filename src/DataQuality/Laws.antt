-- ===== src/DataQuality/Laws.antt =====
-- What a data quality result tells of an expense.
use Prim.Native.String.{String}
use home_budget_pipeline.Prelude.{
  ◌≡◌, refl, ◌≢◌, ◌↔◌, ◌⊎◌, Bool, true, false, ◌||◌, Option, none, some, List, [], ◌∷◌, ◌++◌, All,
  arith, is_some, some-inj, sym, subst,
}
use home_budget_pipeline.Prelude.Int.{ℤ, pos, ltb_ℤ, ◌<ℤ◌}
use home_budget_pipeline.Prelude.Text.{Text, strip, truthy}
use home_budget_pipeline.Prelude.Result.{returns}
use home_budget_pipeline.DataQuality.{
  pass, CanonicalExpense, CanonicalExpenseItem, DataQualityViolation, DataQualityResult, has_text,
  unless, require_text, some_items, expense_violations, item_violations, items_violations,
  status_of, violation, validate,
}

-- A text that is not blank.
abbrev pub HasText : Option Text → Type 0
HasText value = (t : Text) × (value ≡ some t) × (strip t ≢ [])

abbrev pub Given {ℓ} : {A : Type ℓ} → Option A → Type ℓ
Given {A = A} value = (a : A) × (value ≡ some a)

abbrev pub IsCompleteItem : CanonicalExpenseItem → Type 0
IsCompleteItem i = (pos 0 <ℤ i.id) × HasText i.item_name × Given i.line_total

-- Every required field is there.
abbrev pub IsComplete : CanonicalExpense → List CanonicalExpenseItem → Type 0
IsComplete e items =
    HasText e.source
    × HasText e.order_id
    × HasText e.store_name
    × (Given e.order_date ⊎ Given e.transaction_datetime)
    × Given e.expense_total
    × (items ≢ [])
    × All IsCompleteItem items

truthy_iff : (t : Text) → (truthy t ≡ true) ↔ (t ≢ [])
truthy_iff [] = ground arith
truthy_iff (c ∷ t) = (λ _ e. cc, λ _. refl)

has_text_iff : (value : Option Text) → (has_text value ≡ true) ↔ HasText value
unfolding has_text
has_text_iff none = (λ h. cc, λ h. let e = h.1 in cc)
has_text_iff (some t) = (
  λ h. (t, refl, (truthy_iff (strip t)).0 h),
  λ h. (truthy_iff (strip t)).1 (subst (λ s. strip s ≢ []) (sym (some-inj h.1)) h.2),
)

is_some_iff {ℓ} : {A : Type ℓ} (o : Option A) → (is_some o ≡ true) ↔ Given o
is_some_iff none = (λ h. cc, λ h. let e = h.1 in cc)
is_some_iff (some a) = (λ h. (a, refl), λ h. refl)

some_items_iff : (items : List CanonicalExpenseItem) → (some_items items ≡ true) ↔ (items ≢ [])
some_items_iff [] = ground arith
some_items_iff (i ∷ items) = (λ _ e. cc, λ _. refl)

append-nil_iff {ℓ} : {A : Type ℓ} (xs ys : List A) → (xs ++ ys ≡ []) ↔ ((xs ≡ []) × (ys ≡ []))
append-nil_iff [] ys = (λ h. (refl, h), λ h. h.1)
append-nil_iff (x ∷ xs) ys = (λ h. cc, λ h. let e = h.0 in cc)

unless_iff : (b : Bool) (v : DataQualityViolation) → (unless b v ≡ []) ↔ (b ≡ true)
unless_iff true v = (λ _. refl, λ _. refl)
unless_iff false v = (λ h. cc, λ h. cc)

status_iff : (vs : List DataQualityViolation) → (status_of vs ≡ pass) ↔ (vs ≡ [])
status_iff [] = (λ _. refl, λ _. refl)
status_iff (v ∷ vs) = (λ h. cc, λ h. cc)

require_text_iff :
    (rule field : String) (value : Option Text)
    → (require_text rule field value ≡ []) ↔ HasText value
unfolding require_text
require_text_iff rule field value =
    let u = unless_iff (has_text value) (violation rule field none none) in
    let t = has_text_iff value in (λ h. t.0 (u.0 h), λ h. u.1 (t.1 h))

either_iff :
    (e : CanonicalExpense)
    → ((is_some e.order_date || is_some e.transaction_datetime) ≡ true)
      ↔ (Given e.order_date ⊎ Given e.transaction_datetime)
either_iff e =
    let d = is_some_iff e.order_date in let t = is_some_iff e.transaction_datetime in ground arith

-- Two lists of violations are both empty where the conditions of both hold.
both_iff :
    {P Q : Type 0} {xs ys : List DataQualityViolation}
    → (xs ≡ []) ↔ P
    → (ys ≡ []) ↔ Q
    → (xs ++ ys ≡ []) ↔ (P × Q)
both_iff {xs = xs} {ys = ys} p q =
    let a = append-nil_iff xs ys in
    (λ h. (p.0 (a.0 h).0, q.0 (a.0 h).1), λ h. a.1 (p.1 h.0, q.1 h.1))

unless_by :
    {P : Type 0} (b : Bool) (v : DataQualityViolation) → (b ≡ true) ↔ P → (unless b v ≡ []) ↔ P
unless_by b v p = let u = unless_iff b v in (λ h. p.0 (u.0 h), λ h. u.1 (p.1 h))

positive_iff : (z : ℤ) → (ltb_ℤ (pos 0) z ≡ true) ↔ (pos 0 <ℤ z)
positive_iff z = ground arith

item_iff : (i : CanonicalExpenseItem) → (item_violations i ≡ []) ↔ IsCompleteItem i
unfolding item_violations
item_iff i =
    let b =
      both_iff
        (both_iff (unless_by (ltb_ℤ (pos 0) i.id) _ (positive_iff i.id))
          (unless_by (has_text i.item_name) _ (has_text_iff i.item_name)))
        (unless_by (is_some i.line_total) _ (is_some_iff i.line_total)) in
    (λ h. let ((p, n), l) = b.0 h in (p, n, l), λ h. b.1 ((h.0, h.1), h.2))

items_iff :
    (items : List CanonicalExpenseItem) → (items_violations items ≡ []) ↔ All IsCompleteItem items
unfolding items_violations
items_iff [] = (λ _. tt, λ _. refl)
items_iff (i ∷ items) = both_iff (item_iff i) (items_iff items)

IsComplete-iff :
    (e : CanonicalExpense) (items : List CanonicalExpenseItem)
    → (expense_violations e items ++ items_violations items ≡ []) ↔ IsComplete e items
unfolding expense_violations
IsComplete-iff e items =
    let b =
      both_iff
        (both_iff
          (both_iff
            (both_iff
              (both_iff
                (both_iff (require_text_iff "missing_source" "source" e.source)
                  (require_text_iff "missing_order_id" "order_id" e.order_id))
                (require_text_iff "missing_store_name" "store_name" e.store_name))
              (unless_by (is_some e.order_date || is_some e.transaction_datetime) _ (either_iff e)))
            (unless_by (is_some e.expense_total) _ (is_some_iff e.expense_total)))
          (unless_by (some_items items) _ (some_items_iff items)))
        (items_iff items) in
    (
      λ h. let ((((((s, o), m), d), t), i), is) = b.0 h in (s, o, m, d, t, i, is),
      λ h. b.1 ((((((h.0, h.1), h.2), h.3), h.4), h.5), h.6),
    )

abbrev pub result_of : CanonicalExpense → List CanonicalExpenseItem → DataQualityResult
result_of e items =
    let violations = expense_violations e items ++ items_violations items in
    record { expense_pk = e.expense_pk; status = status_of violations; violations = violations }

validate-inversion :
    (e : CanonicalExpense) (items : List CanonicalExpenseItem) (result : DataQualityResult)
    → validate e items ≡ returns result
    → result ≡ result_of e items
unfolding validate
validate-inversion e items result done = ground arith

-- An accepted expense passes exactly when every required field is there: the source, the order and
-- the store are not blank, a date or a datetime and the total are given, and there are items, each
-- with a positive id, a name that is not blank and a total.
pub validate-passes_iff :
    (e : CanonicalExpense) (items : List CanonicalExpenseItem) (result : DataQualityResult)
    → validate e items ≡ returns result
    → ((result.status ≡ pass) ↔ IsComplete e items)
      × ((result.violations ≡ []) ↔ IsComplete e items)
validate-passes_iff e items result done =
    let c = IsComplete-iff e items in
    let s = status_iff (expense_violations e items ++ items_violations items) in
    rw (validate-inversion e items result done)
      ((λ h. c.0 (s.0 h), λ h. s.1 (c.1 h)), (λ h. c.0 h, λ h. c.1 h))
