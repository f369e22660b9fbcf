-- ===== src/Rides/Entities.antt =====
-- The state that the methods of src/rides/rides.service.ts work on: the tables of the services that they call,
-- and the calls themselves, lifted to that state.
use ryda.Base.{ℕ, ℤ, List, [], Action}
use ryda.Trips.{Ride, RideStatus}
use ryda.Users.{User}
use ryda.Drivers.Entities.{Drivers}
use ryda.Dispatch.{Offer, Dispatch}
use ryda.Wallets.Entities.{Bank}
use ryda.Fleet.Entities.{Fleets}
use ryda.Corporate.Entities.{Corporate}
use ryda.Debts.{Debt, Debts}
use ryda.Passengers.{PassengerProfile}
use ryda.Promotions.Entities.{Promotion, Redemption, ReferralGrant, Promotions}
use ryda.Fraud.{Device, Flag}

-- The changes of status and the failures of payments that the ride methods report. The events for each
-- step of a ride, such as ride.accepted, whose listeners are outside the model, are left out.
pub data Event : Type 0 where
  status_changed : ℕ → RideStatus → Event
  credit_failed tip_credit_failed : ℕ → ℤ → Event
  payment_failed : ℕ → Event

pub record Rides : Type 0 where
  pub rides : List Ride
  pub offers : List Offer
  pub users : List User
  pub drivers : Drivers
  pub passengers : List PassengerProfile
  pub bank : Bank
  pub fleets : Fleets
  pub corporate : Corporate
  pub debts : List Debt
  pub promotions : List Promotion
  pub redemptions : List Redemption
  pub grants : List ReferralGrant
  pub devices : List Device
  pub flags : List Flag
  pub events : List Event

module _ {A : Type 0} where
  -- Methods of the other services, called from here.
  abbrev pub on_bank : Action Bank A → Action Rides A
  on_bank m w = let (r, bank) = m w.bank in (r, record w { bank = bank })

  abbrev pub on_fleets : Action Fleets A → Action Rides A
  on_fleets m w = let (r, fleets) = m w.fleets in (r, record w { fleets = fleets })

  abbrev pub on_corporate : Action Corporate A → Action Rides A
  on_corporate m w = let (r, corporate) = m w.corporate in (r, record w { corporate = corporate })

  abbrev pub on_drivers : Action Drivers A → Action Rides A
  on_drivers m w = let (r, drivers) = m w.drivers in (r, record w { drivers = drivers })

  abbrev pub on_passengers : Action (List PassengerProfile) A → Action Rides A
  on_passengers m w =
      let (r, passengers) = m w.passengers in (r, record w { passengers = passengers })

  abbrev pub on_users : Action (List User) A → Action Rides A
  on_users m w = let (r, users) = m w.users in (r, record w { users = users })

  abbrev pub on_debts : Action Debts A → Action Rides A
  on_debts m w =
      let (r, d) = m (record { bank = w.bank; items = w.debts }) in
      (r, record w { bank = d.bank; debts = d.items })

  abbrev pub on_promotions : Action Promotions A → Action Rides A
  on_promotions m w =
      let (r, p) = m record {
        promotions = w.promotions;
        redemptions = w.redemptions;
        grants = w.grants;
        users = w.users;
        devices = w.devices;
        flags = w.flags;
        bank = w.bank;
      } in
      (
        r,
        record w {
          promotions = p.promotions;
          redemptions = p.redemptions;
          grants = p.grants;
          users = p.users;
          devices = p.devices;
          flags = p.flags;
          bank = p.bank;
        },
      )

-- What the methods of dispatch read.
abbrev pub dispatch_of : Rides → Dispatch
dispatch_of w = record { offers = w.offers; rides = w.rides; events = []; now = w.bank.now }

-- A method of dispatch that writes offers or rides, called from here.
abbrev pub on_dispatch : {A : Type 0} → Action Dispatch A → Action Rides A
on_dispatch m w =
    let (r, d) = m (dispatch_of w) in (r, record w { offers = d.offers; rides = d.rides })
