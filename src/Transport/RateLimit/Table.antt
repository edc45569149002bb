-- ===== src/Transport/RateLimit/Table.antt =====
-- What a call answers and takes, and what a full bucket is worth (src/transport/rate_limit.rs).
use voxloop.Prelude.{
  Bool-cases, Option-cases, inl, inr, find, length, ◌<◌, ◌&&◌, if◌then◌else◌, some, none, ap, ◌∙◌,
  find-push, find-update, any-find, eq_of_==, find-passes, ==-refl, ◌==◌, any-NoneOf_complete,
  Option, Bool, sym, find-push_other, find-update_other, any-find-some, any, ◌≡◌, refl, true, false,
  arith,
}
use mathlib.Core.Option as Option
use voxloop.Names.{Instant}
use voxloop.Transport.RateLimit.{
  Allowance, Bucket, full, is_full, take, throttled, IpAddr, RateLimits, admit_at,
  under_the_ceiling, source_passes, count_source, Sources, sources_at, make_room, entered, is_of,
  permitted, taken_by,
}

-- A bucket that is full answers, and is left, exactly as the one that its source is given anew when
-- it is forgotten: forgetting a full bucket changes no answer.
pub take-full :
    (a : Allowance) (b : Bucket) (now : Instant)
    → is_full a b ≡ true
    → take a now b ≡ take a now (full a now)
unfolding take is_full full
take-full a b now h = ground arith

abbrev pub or_full : Allowance → Instant → Option (IpAddr × Bucket) → Bucket
or_full a now none = full a now
or_full a now (some entry) = entry.1

-- The bucket that a source's token is taken from: its own, or a full one.
abbrev pub bucket_of : IpAddr → Instant → RateLimits → Bucket
bucket_of source now limits =
    or_full limits.source_allowance now (find (is_of source) limits.sources)

find-entered_other :
    (source other : IpAddr) (a : Allowance) (now : Instant) (sources : Sources)
    → (source == other) ≡ false
    → find (is_of other) (entered source a now sources) ≡ find (is_of other) sources
unfolding entered
find-entered_other source other a now sources apart =
    elim (Bool-cases (any (is_of source) sources)) [
      | inl known ↦ rw (known, entered) refl
      | inr new ↦
          rw (new, entered) (find-push_other (is_of other) sources (source, full a now) apart)
    ]

find-entered :
    (source : IpAddr) (now : Instant) (limits : RateLimits)
    → find (is_of source) (entered source limits.source_allowance now limits.sources)
      ≡ some (source, bucket_of source now limits)
unfolding entered
find-entered source now limits =
    let bucket : Option (IpAddr × Bucket) → Option (IpAddr × Bucket) =
      λ found. some (source, or_full limits.source_allowance now found) in
    elim (Option-cases (find (is_of source) limits.sources)) [
      | inl nobody ↦
          let new = any-find (is_of source) limits.sources nobody in
          rw (new, entered)
            (find-push (is_of source) limits.sources (source, full limits.source_allowance now)
              (any-NoneOf_complete _ _ new) (==-refl source))
          ∙ ap bucket (sym nobody)
      | inr (entry, there) ↦
          let same : entry.0 ≡ source =
            eq_of_== _ _ (find-passes (is_of source) limits.sources entry there) in
          rw (any-find-some (is_of source) limits.sources entry there, entered) there
          ∙ ap (λ s. some (s, entry.1)) same
          ∙ ap bucket (sym there)
    ]

sources_at-room :
    (source : IpAddr) (now : Instant) (limits : RateLimits)
    → length limits.sources < limits.remembered
    → sources_at source now limits ≡ entered source limits.source_allowance now limits.sources
unfolding sources_at make_room
sources_at-room source now limits room = ground arith

source_passes_lem :
    (source : IpAddr) (now : Instant) (limits : RateLimits)
    → length limits.sources < limits.remembered
    → source_passes source now limits
      ≡ (take limits.source_allowance now (bucket_of source now limits)).1
unfolding source_passes
source_passes_lem source now limits room =
    ap (λ sources. taken_by limits.source_allowance now (find (is_of source) sources))
      (sources_at-room source now limits room)
    ∙ ap (taken_by limits.source_allowance now) (find-entered source now limits)

abbrev counted_at_call : Allowance → Instant → IpAddr × Bucket → IpAddr × Bucket
counted_at_call a now entry = (entry.0, (take a now entry.1).0)

-- A call counts its source's bucket, and leaves every other one.
count_source-find :
    (source other : IpAddr) (now : Instant) (limits : RateLimits)
    → length limits.sources < limits.remembered
    → (source == other) ≡ false
    → (find (is_of source) (count_source source now limits).sources
        ≡ some (source, (take limits.source_allowance now (bucket_of source now limits)).0))
      × (find (is_of other) (count_source source now limits).sources
          ≡ find (is_of other) limits.sources)
unfolding count_source
count_source-find source other now limits room apart =
    let f = counted_at_call limits.source_allowance now in
    let at_room = sources_at-room source now limits room in
    (
      find-update (is_of source) f (sources_at source now limits) (λ entry h. h)
          ∙ ap (Option.map f) (ap (find (is_of source)) at_room ∙ find-entered source now limits),
      find-update_other (is_of source) (is_of other) f (sources_at source now limits)
            (λ entry h. ground (arith, apart, h)) (λ entry. refl)
          ∙ ap (find (is_of other)) at_room
          ∙ find-entered_other source other limits.source_allowance now limits.sources apart,
    )

under_the_ceiling_lem :
    (passes : Bool) (now : Instant) (limits : RateLimits)
    → let (ceiling, within) = take limits.deployment_allowance now limits.ceiling in
      let (next, answer) = under_the_ceiling passes now limits in
      (answer ≡ (if passes && within then permitted else throttled))
      × (next.ceiling ≡ (if passes then ceiling else limits.ceiling))
      × (next.sources ≡ limits.sources)
unfolding under_the_ceiling
under_the_ceiling_lem true now limits = (refl, refl, refl)
under_the_ceiling_lem false now limits = (refl, refl, refl)

-- A call's answer, and what it takes, where there is room for its source: it is permitted exactly
-- where its source has a token and the deployment has one; the ceiling's bucket is counted only
-- when the source's gave a token, so a throttled source costs the others nothing; the source's own
-- bucket is counted either way, and no other source's is touched.
pub admit_at-find :
    (source other : IpAddr) (now : Instant) (limits : RateLimits)
    → length limits.sources < limits.remembered
    → (source == other) ≡ false
    → let (left, own) = take limits.source_allowance now (bucket_of source now limits) in
      let (ceiling, within) = take limits.deployment_allowance now limits.ceiling in
      let (next, answer) = admit_at source now limits in
      (answer ≡ (if own && within then permitted else throttled))
      × (next.ceiling ≡ (if own then ceiling else limits.ceiling))
      × (find (is_of source) next.sources ≡ some (source, left))
      × (find (is_of other) next.sources ≡ find (is_of other) limits.sources)
unfolding admit_at count_source
admit_at-find source other now limits room apart =
    let counted = count_source source now limits in
    let ceiling = under_the_ceiling_lem (source_passes source now limits) now counted in
    let passes = source_passes_lem source now limits room in
    let found = count_source-find source other now limits room apart in
    let within = (take limits.deployment_allowance now limits.ceiling).1 in
    let spent = (take limits.deployment_allowance now limits.ceiling).0 in
    (
      ceiling.0 ∙ ap (λ own. if own && within then permitted else throttled) passes,
      ceiling.1 ∙ ap (λ own. if own then spent else limits.ceiling) passes,
      ap (find (is_of source)) ceiling.2 ∙ found.0,
      ap (find (is_of other)) ceiling.2 ∙ found.1,
    )
