-- ===== src/Fleet/Tests.antt =====
-- An example of the theorem about the payouts of a fleet.
use ryda.Base.{◌≡◌, refl, pos, [], ◌∷◌, true, after}
use ryda.Fleet.{takes, request_payout}
use ryda.Fleet.Entities.{owner, payout_keyed, Fleets}
use ryda.Fleet.Payouts.{assets, request_payout-assets}

abbrev fleet : Fleets
fleet = record {
  companies = record { id = 1; owner_user_id = 7; is_active = true } ∷ [];
  staff = record { id = 1; fleet_company_id = 1; user_id = 7; role = owner } ∷ [];
  wallets = record { id = 4; fleet_company_id = 1; balance = pos 900 } ∷ [];
  transactions = [];
  payouts = [];
}

request_payout-assets_example :
    assets (after (request_payout (takes 55) 1 1 7 (pos 300)) fleet) ≡ assets fleet
request_payout-assets_example = request_payout-assets (takes 55) 1 1 7 (pos 300) fleet refl
