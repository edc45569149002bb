-- ===== src/Transport/RateLimit.antt =====
-- How often a source may present a credential (src/transport/rate_limit.rs). A bucket's level is
-- a float of tokens in the source; here it is exact, counted in nanoseconds of refill: a token is
-- `one_back_every` of them. The map of sources is an association list, in the order of arrival.
pub mod Bound
pub mod Table
use voxloop.Prelude.{
  ℕ, ◌+◌, ◌-◌, ◌*◌, ◌/◌, Bool, true, false, not, ◌&&◌, ltb, leb, ◌==◌, if◌then◌else◌, Option, none,
  some, List, [], ◌∷◌, ◌++◌, map, retain, find, any, length, update_first,
}
use Prim.Native.Nat.{min}
use voxloop.Names.{Instant, Duration, from_secs, since}

pub record Allowance : Type 0 where
  pub burst : ℕ
  pub one_back_every : Duration

abbrev pub per_source : Allowance
per_source = record { burst = 10; one_back_every = from_secs 6 }

abbrev pub across_the_deployment : Allowance
across_the_deployment = record { burst = 60; one_back_every = from_secs 1 }

abbrev pub sources_remembered : ℕ
sources_remembered = 4096

pub record Bucket : Type 0 where
  pub left : ℕ
  pub counted_at : Instant

abbrev pub capacity : Allowance → ℕ
capacity a = a.burst * a.one_back_every

unfoldable pub full : Allowance → Instant → Bucket
full a now = record { left = capacity a; counted_at = now }

unfoldable pub is_full : Allowance → Bucket → Bool
is_full a b = leb (capacity a) b.left

-- What is left once the time since the last count has been given back.
abbrev pub refilled : Allowance → Instant → Bucket → ℕ
refilled a now b = min (b.left + since now b.counted_at) (capacity a)

unfoldable pub take : Allowance → Instant → Bucket → Bucket × Bool
take a now b =
    let left = refilled a now b in
    if ltb left a.one_back_every
    then (record { left = left; counted_at = now }, false)
    else (record { left = left - a.one_back_every; counted_at = now }, true)

pub data Admission : Type 0 where
  permitted throttled : Admission

abbrev pub IpAddr : Type 0
IpAddr = ℕ

abbrev pub Sources : Type 0
Sources = List (IpAddr × Bucket)

pub record RateLimits : Type 0 where
  pub sources : Sources
  pub ceiling : Bucket
  pub source_allowance : Allowance
  pub deployment_allowance : Allowance
  pub remembered : ℕ

-- `RateLimits::of`, at the time that it reads off the clock.
unfoldable pub of : Allowance → Allowance → ℕ → Instant → RateLimits
unfolding full
of source_allowance deployment_allowance remembered now = record {
  sources = [];
  ceiling = full deployment_allowance now;
  source_allowance = source_allowance;
  deployment_allowance = deployment_allowance;
  remembered = remembered;
}

abbrev pub is_of : IpAddr → IpAddr × Bucket → Bool
is_of source entry = entry.0 == source

-- `sort_unstable_by_key` on when a source was last seen: one order among equal times of the many
-- that it may give.
unfoldable pub insert_by_time : IpAddr × Bucket → Sources → Sources
insert_by_time entry [] = entry ∷ []
insert_by_time entry (other ∷ rest) =
    if leb entry.1.counted_at other.1.counted_at
    then entry ∷ other ∷ rest
    else other ∷ insert_by_time entry rest

unfoldable pub sort_by_time : Sources → Sources
unfolding insert_by_time
sort_by_time [] = []
sort_by_time (entry ∷ rest) = insert_by_time entry (sort_by_time rest)

-- The `for` over the first `n` of the sorted sources.
unfoldable pub remove_oldest : ℕ → Sources → Sources → Sources
remove_oldest ℕ.zero sorted sources = sources
remove_oldest (ℕ.suc n) [] sources = sources
remove_oldest (ℕ.suc n) (entry ∷ rest) sources =
    remove_oldest n rest (retain (λ other. not (is_of entry.0 other)) sources)

unfoldable pub forget_the_quiet_ones : Sources → Allowance → ℕ → Sources
unfolding is_full sort_by_time remove_oldest
forget_the_quiet_ones sources allowance keep_at_most =
    let busy = retain (λ entry. not (is_full allowance entry.1)) sources in
    if ltb (length busy) keep_at_most
    then busy
    else remove_oldest (length busy / 2) (sort_by_time busy) busy

-- The sources after the room for a new one has been made.
unfoldable pub make_room : IpAddr → RateLimits → Sources
unfolding forget_the_quiet_ones
make_room source limits =
    if leb limits.remembered (length limits.sources) && not (any (is_of source) limits.sources)
    then forget_the_quiet_ones limits.sources limits.source_allowance limits.remembered
    else limits.sources

-- `entry(source).or_insert_with(..)`.
unfoldable pub entered : IpAddr → Allowance → Instant → Sources → Sources
unfolding full
entered source a now sources =
    if any (is_of source) sources then sources else sources ++ (source, full a now) ∷ []

abbrev pub taken_by : Allowance → Instant → Option (IpAddr × Bucket) → Bool
taken_by a now none = false
taken_by a now (some entry) = (take a now entry.1).1

-- The sources that a call takes its token from.
unfoldable pub sources_at : IpAddr → Instant → RateLimits → Sources
unfolding make_room entered
sources_at source now limits = entered source limits.source_allowance now (make_room source limits)

unfoldable pub count_source : IpAddr → Instant → RateLimits → RateLimits
unfolding sources_at
count_source source now limits = record limits {
  sources =
      update_first (is_of source) (λ entry. (entry.0, (take limits.source_allowance now entry.1).0))
        (sources_at source now limits);
}

-- The source's own bucket gave a token.
unfoldable pub source_passes : IpAddr → Instant → RateLimits → Bool
unfolding sources_at
source_passes source now limits =
    taken_by limits.source_allowance now (find (is_of source) (sources_at source now limits))

-- The ceiling is counted only for a call that its source let through.
unfoldable pub under_the_ceiling : Bool → Instant → RateLimits → RateLimits × Admission
under_the_ceiling false now limits = (limits, throttled)
under_the_ceiling true now limits =
    let (ceiling, within) = take limits.deployment_allowance now limits.ceiling in
    (record limits { ceiling = ceiling }, if within then permitted else throttled)

-- `RateLimits::admit_at`.
unfoldable pub admit_at : IpAddr → Instant → RateLimits → RateLimits × Admission
admit_at source now limits =
    under_the_ceiling (source_passes source now limits) now (count_source source now limits)
