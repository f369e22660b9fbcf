-- ===== src/Drivers/Online.antt =====
-- Going online, and returning online after a trip.
use ryda.Base.{ℕ, ◌≡◌, Bool, true, false, ◌&&◌, some, is_some, arith, result, ok}
use ryda.Drivers.Entities.{
  ride, delivery, Availability, accepted, is_online, is_on_trip, is_online_for, Profile,
  profile_keyed, vehicle_keyed, Drivers,
}
use ryda.Drivers.{
  profile_of, is_approved_for, set_availability, set_availability_internal, check_online, restored,
}

-- A driver who goes online is approved, is not on a trip, has all documents, and has an active vehicle
-- and the approval of every service that the state serves.
pub set_availability_ok :
    (documents_approved : Bool) (log_id user_id : ℕ) (availability : Availability) (d : Drivers)
    {p q : Profile}
    → profile_of user_id d.profiles ≡ some p
    → is_online availability ≡ true
    → result (set_availability documents_approved log_id user_id availability) d ≡ ok q
    → (p.approval ≡ accepted)
      × (is_on_trip p.availability ≡ false)
      × (documents_approved ≡ true)
      × (is_some p.active_vehicle_id ≡ true)
      × (is_online_for availability ride ≡ true → is_approved_for p.id ride d.capabilities ≡ true)
      × (is_online_for availability delivery ≡ true
          → is_approved_for p.id delivery d.capabilities ≡ true)
      × (q.availability ≡ availability)
unfolding set_availability set_availability_internal check_online
set_availability_ok documents_approved log_id user_id availability d e o h = ground arith

-- After a trip a driver is online for a service only if it is approved now and the state before the
-- trip served it.
pub restored-covers :
    (last : Availability) (rides deliveries : Bool)
    → let back = restored (some last) rides deliveries in
      (is_online_for back ride ≡ (is_online_for last ride && rides))
      × (is_online_for back delivery ≡ (is_online_for last delivery && deliveries))
unfolding restored
restored-covers last rides deliveries = ground arith
