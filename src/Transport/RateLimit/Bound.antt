-- ===== src/Transport/RateLimit/Bound.antt =====
-- How much the ceiling, and with it everybody together, lets through
-- (src/transport/rate_limit.rs).
use voxloop.Prelude.{
  ℕ, suc, ◌+◌, ◌-◌, ◌*◌, ◌≤◌, ◌≡◌, refl, Bool, true, false, List, [], ◌∷◌, if◌then◌else◌, arith,
  subst,
}
use voxloop.Names.{Instant}
use voxloop.Transport.RateLimit.{
  Allowance, Bucket, take, Admission, permitted, throttled, IpAddr, RateLimits, of, admit_at,
  under_the_ceiling, source_passes, count_source,
}

-- What one taken token costs, if it was taken.
abbrev spent : Allowance → Bool → ℕ
spent a true = a.one_back_every
spent a false = 0

-- A bucket gives no more than it held and got back.
take-le :
    (a : Allowance) (now : Instant) (b : Bucket)
    → b.counted_at ≤ now
    → (spent a (take a now b).1 + (take a now b).0.left + b.counted_at ≤ b.left + now)
      × ((take a now b).0.counted_at ≡ now)
unfolding take
take-le a now b le = ground arith

abbrev pub is_permitted : Admission → Bool
is_permitted permitted = true
is_permitted throttled = false

-- The calls in order, and how many of them are permitted.
unfoldable pub admit_all : List (IpAddr × Instant) → RateLimits → RateLimits × ℕ
admit_all [] limits = (limits, 0)
admit_all ((source, now) ∷ calls) limits =
    let (next, admission) = admit_at source now limits in
    let (last, n) = admit_all calls next in (last, if is_permitted admission then suc n else n)

-- The clock does not run backwards, from a time on.
abbrev pub Climb : Instant → List (IpAddr × Instant) → Type 0
Climb t [] = Unit
Climb t ((source, now) ∷ calls) = (t ≤ now) × Climb now calls

abbrev pub last_of : Instant → List (IpAddr × Instant) → Instant
last_of t [] = t
last_of t ((source, now) ∷ calls) = last_of now calls

-- A call that passes costs the ceiling a token, and the ceiling's clock stays within the call's.
record IsCharged (before after : RateLimits) (admission : Admission) (now : Instant) : Type 0 where
  paid :
      spent before.deployment_allowance (is_permitted admission)
        + after.ceiling.left
        + before.ceiling.counted_at
      ≤ before.ceiling.left + after.ceiling.counted_at
  on_time : after.ceiling.counted_at ≤ now
  same_allowance : after.deployment_allowance ≡ before.deployment_allowance

under_the_ceiling-IsCharged :
    (passes : Bool) (now : Instant) (limits : RateLimits)
    → limits.ceiling.counted_at ≤ now
    → IsCharged limits
        (under_the_ceiling passes now limits).0
        (under_the_ceiling passes now limits).1
        now
unfolding under_the_ceiling
under_the_ceiling-IsCharged false now limits le = record {
  paid = omega arith;
  on_time = le;
  same_allowance = refl;
}
under_the_ceiling-IsCharged true now limits le =
    let cost = take-le limits.deployment_allowance now limits.ceiling le in
    record { paid = ground (arith, cost); on_time = ground (arith, cost); same_allowance = refl }

admit_at-IsCharged :
    (source : IpAddr) (now : Instant) (limits : RateLimits)
    → limits.ceiling.counted_at ≤ now
    → IsCharged limits (admit_at source now limits).0 (admit_at source now limits).1 now
unfolding admit_at count_source
admit_at-IsCharged source now limits le =
    let c =
      under_the_ceiling-IsCharged (source_passes source now limits) now
        (count_source source now limits) le in
    record { paid = c.paid; on_time = c.on_time; same_allowance = c.same_allowance }

one_more :
    (a : Allowance) (passed : Bool) (n : ℕ)
    → (if passed then suc n else n) * a.one_back_every ≡ n * a.one_back_every + spent a passed
one_more a true n = omega arith
one_more a false n = omega arith

admit_all-le :
    (calls : List (IpAddr × Instant)) (limits : RateLimits) (t : Instant)
    → limits.ceiling.counted_at ≤ t
    → Climb t calls
    → let (last, n) = admit_all calls limits in
      (n * limits.deployment_allowance.one_back_every
          + last.ceiling.left
          + limits.ceiling.counted_at
        ≤ limits.ceiling.left + last.ceiling.counted_at)
      × (last.ceiling.counted_at ≤ last_of t calls)
unfolding admit_all
admit_all-le [] limits t le climb = (omega arith, le)
admit_all-le ((source, now) ∷ calls) limits t le climb =
    let (next, admission) = admit_at source now limits in
    let c = admit_at-IsCharged source now limits (omega arith) in
    let (paid, on_time) = admit_all-le calls next now c.on_time climb.1 in
    let (last, n) = admit_all calls next in
    let paid_here =
      subst
        (λ (a : Allowance).
          n * a.one_back_every + last.ceiling.left + next.ceiling.counted_at
          ≤ next.ceiling.left + last.ceiling.counted_at)
        c.same_allowance paid in
    (
      omega (
        arith,
        c.paid,
        paid_here,
        one_more limits.deployment_allowance (is_permitted admission) n,
      ),
      on_time,
    )

-- Whatever the sources do, and however many there are, the calls that are permitted from the start
-- on, over a clock that does not run backwards, are no more than the deployment's burst and one for
-- each refill period that has passed: their cost in refill time is at most the burst's and the time
-- up to the last call.
pub admit_all-bounded :
    (per_source across : Allowance) (remembered : ℕ) (start : Instant)
    (calls : List (IpAddr × Instant))
    → Climb start calls
    → (admit_all calls (of per_source across remembered start)).1 * across.one_back_every
      ≤ across.burst * across.one_back_every + (last_of start calls - start)
unfolding of
admit_all-bounded per_source across remembered start calls climb =
    let (paid, on_time) =
      admit_all-le calls (of per_source across remembered start) start (omega arith) climb in
    omega (arith, paid, on_time)
