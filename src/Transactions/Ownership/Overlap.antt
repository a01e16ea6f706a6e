-- ===== src/Transactions/Ownership/Overlap.antt =====
-- Records of a card or an account whose dates do not overlap never make a payer ambiguous.
use home_budget_pipeline.Prelude.{
  ℕ, ◌≡◌, refl, Bool, true, Bool-cases, Option, none, some, List, [], ◌∷◌, All, select, ◌∙◌, sym,
  inl, inr,
}
use home_budget_pipeline.Prelude.Text.{Text}
use home_budget_pipeline.Transactions.Ownership.{
  AccountOwnership, PaymentCardOwnership, OwnershipSource, payment_card, account,
  OwnershipResolution, resolved, OwnershipResolver, single_match, card_fits, account_fits,
  match_card, match_account, or_else, resolve,
}
use home_budget_pipeline.Transactions.Ownership.Resolve.{
  Covers, active-Covers, card_fits_sound, account_fits_sound,
}

-- Every two entries are related.
abbrev pub Pairs {ℓ κ} : {A : Type ℓ} → (A → A → Type κ) → List A → Type κ
Pairs R [] = Unit
Pairs R (x ∷ xs) = All (R x) xs × Pairs R xs

-- Two card records of one ending have no common date.
abbrev pub CardsApart : PaymentCardOwnership → PaymentCardOwnership → Type 0
CardsApart x y =
    x.card_last4 ≡ y.card_last4
    → (day : ℕ) → Covers day x.valid_from x.valid_to
    → Covers day y.valid_from y.valid_to
    → ⊥

-- Two records of one account have no common date.
abbrev pub AccountsApart : AccountOwnership → AccountOwnership → Type 0
AccountsApart x y =
    x.account_id ≡ y.account_id
    → (day : ℕ) → Covers day x.valid_from x.valid_to
    → Covers day y.valid_from y.valid_to
    → ⊥

pub record HasNoOverlap (r : OwnershipResolver) : Type 0 where
  pub cards : Pairs CardsApart r.cards
  pub accounts : Pairs AccountsApart r.accounts

module _ {ℓ κ} {A : Type ℓ} (p : A → Bool) (R : A → A → Type κ)
    (apart : (x y : A) → p x ≡ true → p y ≡ true → R x y → ⊥) where
  select-eq-nil : (x : A) (xs : List A) → p x ≡ true → All (R x) xs → select p xs ≡ []
  unfolding select
  select-eq-nil x [] h k = refl
  select-eq-nil x (y ∷ ys) h k = elim (Bool-cases (p y)) [
    | inl e ↦ absurd (apart x y h e k.0)
    | inr e ↦ rw e (select-eq-nil x ys h k.1)
  ]

  -- At most one entry passes, so the match is not ambiguous.
  single_match-resolves :
      (l : OwnershipSource) (xs : List A)
      → Pairs R xs
      → (o : Option A) × (single_match (select p xs) l ≡ resolved o)
  unfolding select single_match
  single_match-resolves l [] k = (none, refl)
  single_match-resolves l (x ∷ xs) k = elim (Bool-cases (p x)) [
    | inl e ↦ (some x, rw (e, select-eq-nil x xs e k.0))
    | inr e ↦ let (o, h) = single_match-resolves l xs k.1 in (o, rw e h)
  ]

match_card-resolves :
    (r : OwnershipResolver) (day : ℕ) (network last4 : Option Text)
    → Pairs CardsApart r.cards
    → (o : Option PaymentCardOwnership) × (match_card r day network last4 ≡ resolved o)
unfolding match_card
match_card-resolves r day network none k = (none, refl)
match_card-resolves r day network (some []) k = (none, refl)
match_card-resolves r day network (some (x ∷ last4)) k =
    single_match-resolves (card_fits day network (x ∷ last4)) CardsApart
      (λ a b p q apart.
        let (ea, la) = card_fits_sound day network (x ∷ last4) a p in
        let (eb, lb) = card_fits_sound day network (x ∷ last4) b q in
        apart (ea ∙ sym eb) day (active-Covers day a.valid_from a.valid_to la)
          (active-Covers day b.valid_from b.valid_to lb))
      payment_card r.cards k

match_account-resolves :
    (r : OwnershipResolver) (day : ℕ) (id : Option ℕ)
    → Pairs AccountsApart r.accounts
    → (o : Option AccountOwnership) × (match_account r day id ≡ resolved o)
unfolding match_account
match_account-resolves r day none k = (none, refl)
match_account-resolves r day (some id) k =
    single_match-resolves (account_fits day id) AccountsApart
      (λ a b p q apart.
        let (ea, la) = account_fits_sound day id a p in
        let (eb, lb) = account_fits_sound day id b q in
        apart (ea ∙ sym eb) day (active-Covers day a.valid_from a.valid_to la)
          (active-Covers day b.valid_from b.valid_to lb))
      account r.accounts k

or_else-resolves :
    (c : Option PaymentCardOwnership) (a : Option AccountOwnership)
    → (o : Option OwnershipResolution) × (or_else c (resolved a) ≡ resolved o)
unfolding or_else
or_else-resolves (some c) a = (_, refl)
or_else-resolves none a = (_, refl)

-- Where no card ending and no account has two records for one date, `resolve` raises no ambiguity
-- error, whatever it is asked.
pub resolve_total :
    (r : OwnershipResolver)
    → HasNoOverlap r
    → (day : ℕ) (account_id : Option ℕ) (network last4 : Option Text)
    → (o : Option OwnershipResolution) × (resolve r day account_id network last4 ≡ resolved o)
unfolding resolve
resolve_total r apart day account_id network last4 =
    let (c, ec) = match_card-resolves r day network last4 apart.cards in
    let (a, ea) = match_account-resolves r day account_id apart.accounts in
    rw (ec, ea) (or_else-resolves c a)
