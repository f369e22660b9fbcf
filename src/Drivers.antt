-- ===== src/Drivers.antt =====
-- src/drivers/drivers.service.ts: approval, availability, and the reservation of a driver for a
-- trip. Whether all required documents are approved, and the ids that the database generates, are
-- arguments.
pub mod Entities
pub mod Levels
mod Online
mod Reservation
mod Ratings
mod Tests
use ryda.Base.{
  ℕ, suc, ◌+◌, ◌*◌, ◌/◌, ◌==◌, ltb, leb, Bool, true, false, not, ◌&&◌, ◌||◌, is_some, Option, none,
  some, List, [], ◌∷◌, ◌++◌, if◌then◌else◌, Action, Result, ok, err, ◌>>=◌, ◌>>◌, pure, throw, gets,
  or_throw, throw_if, modify, lookup, save, find_first, find_last, some_of, driver_not_found,
  driver_not_approved, active_trip, documents_not_approved, no_vehicle, vehicle_not_found,
  vehicle_not_active, not_approved_for_rides, not_approved_for_deliveries, driver_unavailable,
  rating_out_of_range,
}
use Entities.{
  Service, ride, delivery, same_service, Decision, pending, approved, rejected, is_granted,
  Approval, accepted, is_accepted, Availability, offline, online_for_rides, online_for_deliveries,
  online_for_both, on_trip, is_online, is_on_trip, is_break, is_online_for, same_availability,
  resolve_online, Outcome, completed, cancelled, is_completed, Level, rookie, standard, silver,
  gold, platinum, diamond, elite, Profile, profile_keyed, Capability, capability_keyed, Vehicle,
  vehicle_keyed, is_active, Log, log_keyed, Event, went_online, went_offline, availability_changed,
  approval_changed, capability_changed, Drivers,
}

abbrev pub profile_of : ℕ → List Profile → Option Profile
profile_of user_id = find_first (λ p. p.user_id == user_id)

-- findByUserId
abbrev pub find_by_user_id : ℕ → Action Drivers Profile
find_by_user_id user_id d = or_throw (profile_of user_id d.profiles) driver_not_found d

-- findById
abbrev pub find_by_id : ℕ → Action Drivers Profile
find_by_id id d = or_throw (lookup id d.profiles) driver_not_found d

-- `getApprovedServices(...).has(service)`
unfoldable pub is_approved_for : ℕ → Service → List Capability → Bool
is_approved_for profile_id service = some_of (λ c.
    c.driver_profile_id == profile_id && same_service c.service service && is_granted c.decision)

abbrev emit : Event → Action Drivers (Unit {0})
emit e = modify (λ d. record d { events = d.events ++ e ∷ [] })

-- setApprovalStatus
unfoldable pub set_approval_status : Bool → ℕ → Approval → Action Drivers Profile
set_approval_status documents_approved driver_id status = do
  profile ← find_by_id driver_id
  throw_if (is_accepted status && not documents_approved) documents_not_approved
  let profile' : Profile = record profile { approval = status }
  modify (λ d. record d { profiles = save profile' d.profiles })
  emit (approval_changed profile'.user_id (is_accepted status))
  pure profile'

-- decideServiceCapability; `granted` is APPROVED, else REJECTED.
unfoldable pub decide_service_capability : Bool → ℕ → ℕ → Service → Bool → Action Drivers Capability
decide_service_capability documents_approved id profile_id service granted = do
  existing ← gets (λ d.
      find_first (λ c. c.driver_profile_id == profile_id && same_service c.service service)
        d.capabilities)
  let capability : Capability = elim existing [
    | some c ↦ c
    | none ↦ record {
      id = id;
      driver_profile_id = profile_id;
      service = service;
      decision = pending;
    }
  ]
  profile? ← gets (λ d. lookup profile_id d.profiles)
  throw_if (granted && not (is_some profile?)) driver_not_found
  throw_if (granted && not documents_approved) documents_not_approved
  let decided : Capability = record capability { decision = if granted then approved else rejected }
  modify (λ d. record d { capabilities = save decided d.capabilities })
  emit (capability_changed profile_id service decided.decision)
  pure decided

-- The open row of the shift history, which a change of availability ends.
abbrev pub open_log : ℕ → List Log → Option Log
open_log user_id = find_last (λ l. l.driver_user_id == user_id && not l.ended)

abbrev pub close_log : ℕ → List Log → List Log
close_log user_id logs = elim (open_log user_id logs) [
  | none ↦ logs
  | some l ↦ save (record l { ended = true }) logs
]

abbrev pub log_change : ℕ → ℕ → Availability → List Log → List Log
log_change id user_id availability logs =
    close_log user_id logs
    ++ record { id = id; driver_user_id = user_id; status = availability; ended = false } ∷ []

-- The events of a change of availability.
abbrev pub events_of : ℕ → Availability → Availability → List Event
events_of user_id previous offline =
    went_offline user_id ∷ availability_changed user_id previous offline ∷ []
events_of user_id previous availability =
    let changed = availability_changed user_id previous availability ∷ [] in
    if is_online availability then went_online user_id ∷ changed else changed

-- setAvailabilityInternal
unfoldable pub set_availability_internal : ℕ → Profile → Availability → Drivers → Profile × Drivers
set_availability_internal log_id profile availability d =
    let saved : Profile = record profile {
      availability = availability;
      last_online = if is_online availability then some availability else profile.last_online;
    } in
    let written = record d { profiles = save saved d.profiles } in
    (
      saved,
      if same_availability profile.availability availability then written else record written {
        logs = log_change log_id saved.user_id availability d.logs;
        events = d.events ++ events_of saved.user_id profile.availability availability;
      },
    )

abbrev pub requires_ride : Availability → Bool
requires_ride a = is_online_for a ride

abbrev pub requires_delivery : Availability → Bool
requires_delivery a = is_online_for a delivery

-- The checks of setAvailability for an online state, after the documents.
unfoldable pub check_online : Profile → Availability → Action Drivers (Unit {0})
check_online profile availability = do
  vehicle_id ← or_throw profile.active_vehicle_id no_vehicle
  vehicle ← or_throw (← gets (λ d. lookup vehicle_id d.vehicles)) vehicle_not_found
  throw_if (not (is_active vehicle.status)) vehicle_not_active
  rides ← gets (λ d. is_approved_for profile.id ride d.capabilities)
  deliveries ← gets (λ d. is_approved_for profile.id delivery d.capabilities)
  throw_if (requires_ride availability && not rides) not_approved_for_rides
  throw_if (requires_delivery availability && not deliveries) not_approved_for_deliveries

unfoldable pub set_availability : Bool → ℕ → ℕ → Availability → Action Drivers Profile
set_availability documents_approved log_id user_id availability = do
  profile ← find_by_user_id user_id
  throw_if (not (is_accepted profile.approval)) driver_not_approved
  throw_if (is_on_trip profile.availability) active_trip
  throw_if ((is_online availability || is_break availability) && not documents_approved)
      documents_not_approved
  (if is_online availability then check_online profile availability else pure tt)
  (λ d. let (saved, d') = set_availability_internal log_id profile availability d in (ok saved, d'))

-- reserveOnlineDriverForTrip: one UPDATE that claims the driver only from a state that is online for
-- the service, and the shift history.
unfoldable pub reserve_for_trip : ℕ → ℕ → Service → Action Drivers Profile
reserve_for_trip log_id user_id service = do
  claimed ←
      or_throw
        (← gets (λ d.
          find_first (λ p. p.user_id == user_id && is_online_for p.availability service)
            d.profiles))
        driver_unavailable
  let reserved : Profile = record claimed { availability = on_trip }
  modify λ d. record d {
    profiles = save reserved d.profiles;
    logs = log_change log_id user_id on_trip d.logs;
  }
  pure reserved

-- What restoreAvailabilityAfterTrip restores, from the state before the trip and the services that
-- are approved now.
unfoldable pub restored : Option Availability → Bool → Bool → Availability
restored last rides deliveries =
    let wanted : Availability = elim last [ none ↦ online_for_both | some a ↦ a ] in
    let can_ride = is_online_for wanted ride && rides in
    let can_deliver = is_online_for wanted delivery && deliveries in
    if can_ride && can_deliver
    then online_for_both
    else if can_ride
    then online_for_rides
    else if can_deliver
    then online_for_deliveries
    else offline

unfoldable pub restore_after_trip : ℕ → ℕ → Action Drivers Profile
restore_after_trip log_id user_id = do
  profile ← find_by_user_id user_id
  rides ← gets (λ d. is_approved_for profile.id ride d.capabilities)
  deliveries ← gets (λ d. is_approved_for profile.id delivery d.capabilities)
  (if is_on_trip profile.availability
      then (λ d.
          let (saved, d') =
            set_availability_internal log_id profile (restored profile.last_online rides deliveries)
              d in
          (ok saved, d'))
      else pure profile)
