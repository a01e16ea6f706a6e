-- ===== src/Transactions/Ownership/Examples.antt =====
-- Runs of the ownership resolver, and instances of its theorems.

use home_budget_pipeline.Prelude.{ℕ, ◌≡◌, refl, Option, none, some, arith, [], ◌∷◌}
use home_budget_pipeline.Prelude.Text.{codes}
use home_budget_pipeline.Transactions.Ownership.{
  PaymentCardOwnership, OwnershipResolver, OwnershipResolution, payment_card, resolved, resolve,
}
use home_budget_pipeline.Transactions.Ownership.Resolve.{Justifies, resolve_justified}
use home_budget_pipeline.Transactions.Ownership.Overlap.{HasNoOverlap, resolve_total}

abbrev card_record : ℕ → ℕ → Option ℕ → PaymentCardOwnership
card_record id valid_from valid_to = record {
  card_id = id;
  account_id = some 3;
  card_network = codes "Visa";
  card_last4 = codes "4242";
  owner_name = codes "Rox";
  valid_from = valid_from;
  valid_to = valid_to;
}

abbrev owners : OwnershipResolver
owners = record {
  accounts = [];
  cards = card_record 1 700000 (some 738000) ∷ card_record 2 738001 none ∷ [];
}

abbrev rox : OwnershipResolution
rox = record { owner_name = codes "Rox"; account_id = some 3; source = payment_card }

rox_found :
    resolve owners 739000 (some 3) (some (codes "VISA")) (some (codes "4242")) ≡ resolved (some rox)
unfolding resolve
rox_found = refl

resolve_justified_example :
    Justifies owners 739000 (some 3) (some (codes "VISA")) (some (codes "4242")) rox
resolve_justified_example =
    resolve_justified owners 739000 (some 3) (some (codes "VISA")) (some (codes "4242")) rox
      rox_found

owners_apart : HasNoOverlap owners
owners_apart = record { cards = ((λ same day p q. omega arith, tt), (tt, tt)); accounts = tt }

resolve_total_example :
    (o : Option OwnershipResolution) × (resolve owners 739000 none none (some (codes "4242"))
      ≡ resolved o)
resolve_total_example = resolve_total owners owners_apart 739000 none none (some (codes "4242"))
