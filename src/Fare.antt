-- ===== src/Fare.antt =====
-- src/rides/fare.service.ts: the fare by time in tiers, and the hours of the night tariff. Minutes are
-- whole, amounts are whole kobo.
pub mod Tiers
mod Tests
use ryda.Base.{ℕ, ◌+◌, ◌-◌, ◌*◌, ◌/◌, ltb, leb, Bool, ◌&&◌, ◌||◌, if◌then◌else◌}

-- `Math.ceil(minutes / tier)`
unfoldable pub blocks : ℕ → ℕ → ℕ
blocks minutes tier = (minutes + (tier - 1)) / tier

-- calculateTieredTimeFare; a tier has at least one minute, where the code divides by it.
unfoldable pub tiered_time_fare : ℕ → ℕ → ℕ → ℕ → ℕ
tiered_time_fare duration tier base increment =
    if leb duration tier then base else base + blocks (duration - tier) tier * increment

-- isNightFare, at an hour of the day
unfoldable pub is_night_fare : ℕ → ℕ → ℕ → Bool
is_night_fare start end hour =
    if ltb end start then leb start hour || ltb hour end else leb start hour && ltb hour end

-- calculateWaitingFee: the milliseconds waited past the free minutes, at a rate of kobo a minute
unfoldable pub calculate_waiting_fee : ℕ → ℕ → ℕ → ℕ → ℕ
calculate_waiting_fee free_minutes rate arrived_at started_at =
    let billable = started_at - arrived_at - free_minutes * 60000 in
    (2 * (billable * rate) + 60000) / 120000
