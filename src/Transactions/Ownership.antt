-- ===== src/Transactions/Ownership.antt =====
-- transactions/ownership.py: who owned a card or an account on a date. Dates are ordinals.
pub mod Resolve
pub mod Overlap
mod Examples
use home_budget_pipeline.Prelude.{
  ℕ, Bool, true, ◌&&◌, Option, none, some, List, [], ◌∷◌, leb, ◌==◌, if◌then◌else◌, select,
}
use home_budget_pipeline.Prelude.Text.{Text, ◌==ₜ◌, truthy, lower}

pub record AccountOwnership : Type 0 where
  pub account_id : ℕ
  pub owner_name : Text
  pub valid_from : ℕ
  pub valid_to : Option ℕ

pub record PaymentCardOwnership : Type 0 where
  pub card_id : ℕ
  pub account_id : Option ℕ
  pub card_network : Text
  pub card_last4 : Text
  pub owner_name : Text
  pub valid_from : ℕ
  pub valid_to : Option ℕ

pub data OwnershipSource : Type 0 where
  payment_card account : OwnershipSource

pub record OwnershipResolution : Type 0 where
  pub owner_name : Text
  pub account_id : Option ℕ
  pub source : OwnershipSource

-- `raise ValueError("ambiguous …")`, with the label.
pub data Resolved {ℓ} (A : Type ℓ) : Type ℓ where
  resolved : A → Resolved A
  ambiguous_match : OwnershipSource → Resolved A

infixl 5 ◌>>=◌
abbrev pub ◌>>=◌ {ℓ κ} : {A : Type ℓ} {B : Type κ} → Resolved A → (A → Resolved B) → Resolved B
resolved a >>= f = f a
ambiguous_match l >>= f = ambiguous_match l

pub record OwnershipResolver : Type 0 where
  pub accounts : List AccountOwnership
  pub cards : List PaymentCardOwnership

-- `_active`
unfoldable pub active : ℕ → ℕ → Option ℕ → Bool
active on_date valid_from none = leb valid_from on_date
active on_date valid_from (some valid_to) = leb valid_from on_date && leb on_date valid_to

-- `_single_match`
unfoldable pub single_match {ℓ} : {A : Type ℓ} → List A → OwnershipSource → Resolved (Option A)
single_match [] label = resolved none
single_match (x ∷ []) label = resolved (some x)
single_match (x ∷ y ∷ rest) label = ambiguous_match label

unfoldable pub network_fits : Option Text → Text → Bool
unfolding lower
network_fits none network = true
network_fits (some wanted) network = lower network ==ₜ lower wanted

-- The condition of the comprehension over `_cards`.
unfoldable pub card_fits : ℕ → Option Text → Text → PaymentCardOwnership → Bool
unfolding active network_fits
card_fits on_date network last4 card =
    card.card_last4 ==ₜ last4
    && network_fits network card.card_network
    && active on_date card.valid_from card.valid_to

-- The condition of the comprehension over `_accounts`.
unfoldable pub account_fits : ℕ → ℕ → AccountOwnership → Bool
unfolding active
account_fits on_date id owner =
    owner.account_id == id && active on_date owner.valid_from owner.valid_to

unfoldable pub from_card : PaymentCardOwnership → OwnershipResolution
from_card c = record { owner_name = c.owner_name; account_id = c.account_id; source = payment_card }

unfoldable pub from_account : AccountOwnership → OwnershipResolution
from_account o = record {
  owner_name = o.owner_name;
  account_id = some o.account_id;
  source = account;
}

-- The card part: an absent and an empty ending are both skipped.
unfoldable pub match_card :
    OwnershipResolver → ℕ → Option Text → Option Text → Resolved (Option PaymentCardOwnership)
unfolding card_fits single_match select
match_card r on_date network none = resolved none
match_card r on_date network (some last4) =
    if truthy last4
    then single_match (select (card_fits on_date network last4) r.cards) payment_card
    else resolved none

-- The account part.
unfoldable pub match_account : OwnershipResolver → ℕ → Option ℕ → Resolved (Option AccountOwnership)
unfolding account_fits single_match select
match_account r on_date none = resolved none
match_account r on_date (some id) =
    single_match (select (account_fits on_date id) r.accounts) account

-- The card's owner where there is one, and what follows otherwise.
unfoldable pub or_else :
    Option PaymentCardOwnership
    → Resolved (Option AccountOwnership)
    → Resolved (Option OwnershipResolution)
unfolding from_card from_account
or_else (some c) rest = resolved (some (from_card c))
or_else none rest = do
  found ← rest
  resolved (elim found [ none ↦ none | some o ↦ some (from_account o) ])

-- `OwnershipResolver.resolve`
unfoldable pub resolve :
    OwnershipResolver
    → ℕ
    → Option ℕ
    → Option Text
    → Option Text
    → Resolved (Option OwnershipResolution)
unfolding match_card match_account or_else
resolve r transaction_date account_id card_network card_last4 = do
  card ← match_card r transaction_date card_network card_last4
  or_else card (match_account r transaction_date account_id)
