-- ===== src/Transactions/Ownership/Resolve.antt =====
-- What `resolve` answers: a unique owner who was active on the date, and no ambiguity where the
-- records of a card or an account do not overlap.
use mathlib.Core.List.{Mem, mem-cons_self}
use home_budget_pipeline.Prelude.{
  subst, sym, ap, ◌∙◌, length, All-select, mem-select, count_if-eq-length-select, ℕ, ◌≤◌, ◌≡◌, refl,
  ◌⊎◌, inl, inr, Bool, true, false, if◌then◌else◌, Option, none, some, arith, List, [], ◌∷◌, All,
  select, count_if,
}
use home_budget_pipeline.Prelude.Text.{Text, text_eq, lower, ◌==ₜ◌, text_refl}
use home_budget_pipeline.Transactions.Ownership.{
  AccountOwnership, PaymentCardOwnership, OwnershipSource, payment_card, account,
  OwnershipResolution, Resolved, resolved, ambiguous_match, OwnershipResolver, active, single_match,
  card_fits, account_fits, network_fits, match_card, match_account, or_else, from_card,
  from_account, resolve,
}

module _ {ℓ} {A : Type ℓ} (p : A → Bool) where
  none_fits :
      (xs : List A) (b : Bool) (x y : A) → (if b then y ∷ xs else xs) ≡ [] → (b ≡ false) × (xs ≡ [])
  none_fits xs true x y h = cc
  none_fits xs false x y h = (refl, h)

  none-All : (x : A) (xs : List A) → select p xs ≡ [] → All (λ d. p d ≡ true → d ≡ x) xs
  unfolding select
  none-All x [] h = tt
  none-All x (y ∷ xs) h =
      let (e, rest) = none_fits (select p xs) (p y) x y h in (λ k. cc, none-All x xs rest)

  one_fits :
      (xs : List A) (b : Bool) (x y : A)
      → (if b then y ∷ xs else xs) ≡ x ∷ []
      → ((b ≡ true) × (y ≡ x) × (xs ≡ [])) ⊎ ((b ≡ false) × (xs ≡ x ∷ []))
  one_fits xs true x y h = inl (refl, cc, cc)
  one_fits xs false x y h = inr (refl, h)

  only-All : (x : A) (xs : List A) → select p xs ≡ x ∷ [] → All (λ d. p d ≡ true → d ≡ x) xs
  unfolding select
  only-All x [] h = tt
  only-All x (y ∷ xs) h = elim (one_fits (select p xs) (p y) x y h) [
    | inl (e, same, rest) ↦ (λ k. same, none-All x xs rest)
    | inr (e, rest) ↦ (λ k. cc, only-All x xs rest)
  ]

module _ {ℓ} {A : Type ℓ} (p : A → Bool) (l : OwnershipSource) where
  single_match-eq : (ys : List A) (x : A) → single_match ys l ≡ resolved (some x) → ys ≡ x ∷ []
  unfolding single_match
  single_match-eq [] x h = cc
  single_match-eq (y ∷ []) x h = cc
  single_match-eq (y ∷ z ∷ ys) x h = cc

  -- The record is among the records, once, and no other one fits.
  single_match-only :
      (xs : List A) (x : A)
      → single_match (select p xs) l ≡ resolved (some x)
      → Mem x xs × (p x ≡ true) × (count_if p xs ≡ 1) × All (λ d. p d ≡ true → d ≡ x) xs
  single_match-only xs x h =
      let e = single_match-eq (select p xs) x h in
      (
        mem-select p xs (subst (λ ys. Mem x ys) (sym e) mem-cons_self),
        (subst (All (λ y. p y ≡ true)) e (All-select p xs)).0,
        count_if-eq-length-select p xs ∙ ap length e,
        only-All p x xs e,
      )

-- The date lies within the record's dates, both ends included.
abbrev pub Covers : ℕ → ℕ → Option ℕ → Type 0
Covers day valid_from none = valid_from ≤ day
Covers day valid_from (some valid_to) = (valid_from ≤ day) × (day ≤ valid_to)

pub active-Covers :
    (day valid_from : ℕ) (valid_to : Option ℕ)
    → active day valid_from valid_to ≡ true
    → Covers day valid_from valid_to
unfolding active
active-Covers day f none h = ground arith
active-Covers day f (some u) h = (ground arith, ground arith)

pub active-of_Covers :
    (day valid_from : ℕ) (valid_to : Option ℕ)
    → Covers day valid_from valid_to
    → active day valid_from valid_to ≡ true
unfolding active
active-of_Covers day f none h = ground arith
active-of_Covers day f (some u) h = ground arith

-- Without a network any network fits; otherwise it is the same one, whatever its case.
abbrev pub IsNetwork : Option Text → Text → Type 0
IsNetwork none network = Unit
IsNetwork (some wanted) network = lower network ≡ lower wanted

-- A record of a card with this ending and network that covers the date.
abbrev pub FitsCard : ℕ → Option Text → Text → PaymentCardOwnership → Type 0
FitsCard day network last4 c =
    (c.card_last4 ≡ last4) × IsNetwork network c.card_network × Covers day c.valid_from c.valid_to

-- `x` is the one record that fits: it is there once, and every record that fits is it.
abbrev pub IsOnly {ℓ} : {A : Type ℓ} → (A → Bool) → (A → Type 0) → List A → A → Type ℓ
IsOnly p Fits xs x = Mem x xs × Fits x × (count_if p xs ≡ 1) × All (λ d. Fits d → d ≡ x) xs

IsNetwork-sound :
    (network : Option Text) (given : Text)
    → network_fits network given ≡ true
    → IsNetwork network given
unfolding network_fits
IsNetwork-sound none given h = tt
IsNetwork-sound (some wanted) given h = text_eq (lower given) (lower wanted) h

network_fits_complete :
    (network : Option Text) (given : Text)
    → IsNetwork network given
    → network_fits network given ≡ true
unfolding network_fits
network_fits_complete none given h = refl
network_fits_complete (some wanted) given h = rw h (text_refl (lower wanted))

pub card_fits_sound :
    (day : ℕ) (network : Option Text) (last4 : Text) (c : PaymentCardOwnership)
    → card_fits day network last4 c ≡ true
    → (c.card_last4 ≡ last4) × (active day c.valid_from c.valid_to ≡ true)
unfolding card_fits
card_fits_sound day network last4 c h = (text_eq c.card_last4 last4 (ground arith), ground arith)

card_fits-FitsCard :
    (day : ℕ) (network : Option Text) (last4 : Text) (c : PaymentCardOwnership)
    → card_fits day network last4 c ≡ true
    → FitsCard day network last4 c
unfolding card_fits
card_fits-FitsCard day network last4 c h =
    let (ending, live) = card_fits_sound day network last4 c h in
    (
      ending,
      IsNetwork-sound network c.card_network (ground arith),
      active-Covers day c.valid_from c.valid_to live,
    )

FitsCard-card_fits :
    (day : ℕ) (network : Option Text) (last4 : Text) (c : PaymentCardOwnership)
    → FitsCard day network last4 c
    → card_fits day network last4 c ≡ true
unfolding card_fits
FitsCard-card_fits day network last4 c (ending, same, live) = ground (
  arith,
  subst (λ s. (c.card_last4 ==ₜ s) ≡ true) ending (text_refl c.card_last4),
  network_fits_complete network c.card_network same,
  active-of_Covers day c.valid_from c.valid_to live,
)

All-weaken {ℓ κ μ} :
    {A : Type ℓ} (P : A → Type κ) (Q : A → Type μ) (xs : List A)
    → ((x : A) → P x → Q x)
    → All P xs
    → All Q xs
All-weaken P Q [] f h = tt
All-weaken P Q (x ∷ xs) f h = (f x h.0, All-weaken P Q xs f h.1)

-- The owner that a payment card gives: the only record that fits.
abbrev pub OwnsCard : OwnershipResolver → ℕ → Option Text → Text → PaymentCardOwnership → Type 0
OwnsCard r day network last4 c =
    IsOnly (card_fits day network last4) (FitsCard day network last4) r.cards c

match_card-OwnsCard :
    (r : OwnershipResolver) (day : ℕ) (network : Option Text) (last4 : Text)
    (c : PaymentCardOwnership)
    → match_card r day network (some last4) ≡ resolved (some c)
    → OwnsCard r day network last4 c
unfolding match_card
match_card-OwnsCard r day network [] c h = cc
match_card-OwnsCard r day network (x ∷ last4) c h =
    let fits = card_fits day network (x ∷ last4) in
    let (member, ok, once, only) = single_match-only fits payment_card r.cards c h in
    (
      member,
      card_fits-FitsCard day network (x ∷ last4) c ok,
      once,
      All-weaken (λ d. fits d ≡ true → d ≡ c) _ r.cards
          (λ d k f. k (FitsCard-card_fits day network (x ∷ last4) d f)) only,
    )

abbrev pub FitsAccount : ℕ → ℕ → AccountOwnership → Type 0
FitsAccount day id a = (a.account_id ≡ id) × Covers day a.valid_from a.valid_to

abbrev pub OwnsAccount : OwnershipResolver → ℕ → ℕ → AccountOwnership → Type 0
OwnsAccount r day id a = IsOnly (account_fits day id) (FitsAccount day id) r.accounts a

pub account_fits_sound :
    (day id : ℕ) (a : AccountOwnership)
    → account_fits day id a ≡ true
    → (a.account_id ≡ id) × (active day a.valid_from a.valid_to ≡ true)
unfolding account_fits
account_fits_sound day id a h = ground arith

FitsAccount-account_fits :
    (day id : ℕ) (a : AccountOwnership) → FitsAccount day id a → account_fits day id a ≡ true
unfolding account_fits
FitsAccount-account_fits day id a (same, live) =
    ground (arith, active-of_Covers day a.valid_from a.valid_to live)

match_account-OwnsAccount :
    (r : OwnershipResolver) (day id : ℕ) (a : AccountOwnership)
    → match_account r day (some id) ≡ resolved (some a)
    → OwnsAccount r day id a
unfolding match_account
match_account-OwnsAccount r day id a h =
    let fits = account_fits day id in
    let (member, ok, once, only) = single_match-only fits account r.accounts a h in
    let (same, live) = account_fits_sound day id a ok in
    (
      member,
      (same, active-Covers day a.valid_from a.valid_to live),
      once,
      All-weaken (λ d. fits d ≡ true → d ≡ a) _ r.accounts
          (λ d k f. k (FitsAccount-account_fits day id d f)) only,
    )

-- The answer comes from the one fitting card record, or, where the card gives none, from the one
-- fitting account record.
abbrev pub Justifies :
    OwnershipResolver → ℕ → Option ℕ → Option Text → Option Text → OwnershipResolution → Type 0
Justifies r day account_id network last4 o =
    ((c : PaymentCardOwnership) × (e : Text) × (last4 ≡ some e)
      × OwnsCard r day network e c
      × (o ≡ from_card c))
    ⊎ ((a : AccountOwnership) × (id : ℕ) × (account_id ≡ some id)
        × (match_card r day network last4 ≡ resolved none)
        × OwnsAccount r day id a
        × (o ≡ from_account a))

card_answers :
    (r : OwnershipResolver) (day : ℕ) (account_id : Option ℕ) (network last4 : Option Text)
    (o : OwnershipResolution) (c : PaymentCardOwnership)
    → match_card r day network last4 ≡ resolved (some c)
    → resolve r day account_id network last4 ≡ resolved (some o)
    → Justifies r day account_id network last4 o
unfolding resolve or_else
card_answers r day account_id network none o c e h = unfold match_card in cc (e)
card_answers r day account_id network (some last4) o c e h =
    inl (c, last4, refl, match_card-OwnsCard r day network last4 c e, ground arith)

account_answers :
    (r : OwnershipResolver) (day : ℕ) (account_id : Option ℕ) (network last4 : Option Text)
    (o : OwnershipResolution) (m : Resolved (Option AccountOwnership))
    → match_account r day account_id ≡ m
    → match_card r day network last4 ≡ resolved none
    → resolve r day account_id network last4 ≡ resolved (some o)
    → Justifies r day account_id network last4 o
unfolding resolve or_else
account_answers r day account_id network last4 o (ambiguous_match l) m e h = ground arith
account_answers r day account_id network last4 o (resolved none) m e h = ground arith
account_answers r day none network last4 o (resolved (some a)) m e h = unfold match_account in cc
account_answers r day (some id) network last4 o (resolved (some a)) m e h =
    inr (a, id, refl, e, match_account-OwnsAccount r day id a m, ground arith)

resolve_cases :
    (r : OwnershipResolver) (day : ℕ) (account_id : Option ℕ) (network last4 : Option Text)
    (o : OwnershipResolution) (m : Resolved (Option PaymentCardOwnership))
    → match_card r day network last4 ≡ m
    → resolve r day account_id network last4 ≡ resolved (some o)
    → Justifies r day account_id network last4 o
resolve_cases r day account_id network last4 o (ambiguous_match l) e h =
    unfold resolve in ground arith
resolve_cases r day account_id network last4 o (resolved (some c)) e h =
    card_answers r day account_id network last4 o c e h
resolve_cases r day account_id network last4 o (resolved none) e h =
    account_answers r day account_id network last4 o (match_account r day account_id) refl e h

-- An owner that `resolve` names is the owner of the only card record with the given ending, and the
-- given network where one is given, whose dates cover the date; or, where the card part finds no
-- record, of the only record of the account whose dates cover it.
pub resolve_justified :
    (r : OwnershipResolver) (day : ℕ) (account_id : Option ℕ) (network last4 : Option Text)
    (o : OwnershipResolution)
    → resolve r day account_id network last4 ≡ resolved (some o)
    → Justifies r day account_id network last4 o
resolve_justified r day account_id network last4 o h =
    resolve_cases r day account_id network last4 o (match_card r day network last4) refl h
