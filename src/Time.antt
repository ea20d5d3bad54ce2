-- ===== src/Time.antt =====
-- std::time as the source uses it. A duration is its number of nanoseconds. An instant and a
-- system time are their nanoseconds since the clock's origin, which is what a 64-bit Unix target
-- keeps: a signed 64-bit count of seconds and the nanoseconds below one second.
use oidc4rs.Prelude.{
  ℕ, ◌+◌, ◌-◌, ◌*◌, ◌^◌, ◌<◌, ◌≡◌, Option, none, some, arith, ltb, leb, if◌then◌else◌,
}

abbrev pub Duration : Type 0
Duration = ℕ

abbrev pub Instant : Type 0
Instant = ℕ

abbrev pub SystemTime : Type 0
SystemTime = ℕ

abbrev pub nanos_per_sec : ℕ
nanos_per_sec = 1_000_000_000

-- `Duration::from_secs`.
unfoldable pub from_secs : ℕ → Duration
from_secs s = s * nanos_per_sec

-- The first count of nanoseconds that an instant cannot hold.
abbrev pub instant_limit : ℕ
instant_limit = 2 ^ 63 * nanos_per_sec

-- `Instant::checked_add` and `SystemTime::checked_add`.
unfoldable pub checked_add : Instant → Duration → Option Instant
checked_add t d = if ltb (t + d) instant_limit then some (t + d) else none

-- `SystemTime::duration_since`: none where the other time is later.
unfoldable pub duration_since : SystemTime → SystemTime → Option Duration
duration_since now earlier = if leb earlier now then some (now - earlier) else none

pub checked_add-eq-some : (t d : ℕ) {u : Instant} → checked_add t d ≡ some u → u ≡ t + d
unfolding checked_add
checked_add-eq-some t d h = ground arith

pub checked_add_fits : (t d : ℕ) → t + d < instant_limit → checked_add t d ≡ some (t + d)
unfolding checked_add
checked_add_fits t d h = ground arith

pub checked_add_fits_of : (t d : ℕ) {u : Instant} → checked_add t d ≡ some u → u < instant_limit
unfolding checked_add
checked_add_fits_of t d h = ground arith
