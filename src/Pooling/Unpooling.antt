-- ===== src/Pooling/Unpooling.antt =====
-- src/pooling/pool-matching.service.ts: the partner of a paired ride, and what undoes a pair.
use ryda.Base.{ℕ, ◌+◌, ◌-◌, ◌==◌, Option, none, some, if◌then◌else◌, Action, ◌>>◌, pure, lookup}
use ryda.Trips.{accepted, is_searching}
use ryda.Pooling.Entities.{
  PoolRide, pool_ride_keyed, is_over, dispatched, unwound, PoolGroup, pool_group_keyed, Pool,
}
use ryda.Pooling.{store, store_group, start_for_ride}

-- `group.anchorRideId === ride.id ? group.partnerRideId : group.anchorRideId`
abbrev pub other_of : PoolGroup → ℕ → ℕ
other_of group ride_id =
    if group.anchor_ride_id == ride_id then group.partner_ride_id else group.anchor_ride_id

abbrev pub group_of : PoolRide → Pool → Option PoolGroup
group_of ride p = elim ride.pool_group_id [ none ↦ none | some id ↦ lookup id p.groups ]

-- getGroupAndPartner
unfoldable pub get_group_and_partner : PoolRide → Pool → Option (PoolGroup × PoolRide)
get_group_and_partner ride p = elim (group_of ride p) [
  | none ↦ none
  | some group ↦ elim (lookup (other_of group ride.id) p.rides) [
    | none ↦ none
    | some partner ↦ some (group, partner)
  ]
]

-- propagateDriverAssignment
unfoldable pub propagate_driver_assignment : PoolRide → Action Pool (Unit {0})
propagate_driver_assignment anchor p = elim (get_group_and_partner anchor p) [
  | none ↦ pure tt p
  | some (group, partner) ↦
      if is_searching partner.status
      then (store (record partner {
        driver_id = anchor.driver_id;
        vehicle_id = anchor.vehicle_id;
        status = accepted;
        accepted_at = anchor.accepted_at;
      })
            >> store_group (record group { status = dispatched }))
          p
      else pure tt p
]

-- The ride on its own again, at its fare without the pool discount
abbrev pub solo : PoolRide → PoolRide
solo ride = record ride {
  pool_group_id = none;
  total_fare = ride.total_fare + ride.pool_discount;
  discount = ride.discount - ride.pool_discount;
  pool_discount = 0;
}

-- `poolGroupsRepo.update({ id }, { status: UNWOUND, ... })`
abbrev pub unwind : ℕ → Action Pool (Unit {0})
unwind group_id p = elim (lookup group_id p.groups) [
  | none ↦ pure tt p
  | some group ↦ store_group (record group { status = unwound }) p
]

-- unpoolRide
unfoldable pub unpool_ride : ℕ → Action Pool (Unit {0})
unpool_ride ride_id p = elim (lookup ride_id p.rides) [
  | none ↦ pure tt p
  | some ride ↦ elim ride.pool_group_id [
    | none ↦ pure tt p
    | some group_id ↦
        if is_searching ride.status
        then (store (solo ride) >> unwind group_id >> start_for_ride ride.id) p
        else pure tt p
  ]
]

-- unpoolRideMidTrip
unfoldable pub unpool_ride_mid_trip : ℕ → Action Pool (Unit {0})
unpool_ride_mid_trip ride_id p = elim (lookup ride_id p.rides) [
  | none ↦ pure tt p
  | some ride ↦ elim (get_group_and_partner ride p) [
    | none ↦ pure tt p
    | some (group, partner) ↦
        if is_over partner.status then pure tt p else (store (solo partner) >> unwind group.id) p
  ]
]
