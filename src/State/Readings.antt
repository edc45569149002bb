-- ===== src/State/Readings.antt =====
-- What the state authority measures: connection state, media path, loop health and the reasons
-- for not hearing a loop (src/state.rs, lines 62 to 431).
use voxloop.Prelude.{
  ℕ, Bool, true, false, not, ◌&&◌, Option, none, some, leb, ltb, ◌==◌, if◌then◌else◌, List, [], ◌∷◌,
}
use voxloop.Names.{LoopId, Instant, Duration, from_secs, since}

pub data Connection : Type 0 where
  confirmed unconfirmed disconnected : Connection

-- The derived order of `Connection`, worst last.
abbrev pub connection_rank : Connection → ℕ
connection_rank confirmed = 0
connection_rank unconfirmed = 1
connection_rank disconnected = 2

-- `self != Self::Disconnected`.
abbrev pub carries_emission : Connection → Bool
carries_emission disconnected = false
carries_emission _ = true

abbrev pub is_confirmed : Connection → Bool
is_confirmed confirmed = true
is_confirmed _ = false

pub data MediaPath : Type 0 where
  connected impaired lost : MediaPath

-- The derived order of `MediaPath`, worst last.
abbrev pub path_rank : MediaPath → ℕ
path_rank connected = 0
path_rank impaired = 1
path_rank lost = 2

-- `self.max(other)`.
unfoldable pub pessimistically_with : MediaPath → MediaPath → MediaPath
pessimistically_with self other = if leb (path_rank self) (path_rank other) then other else self

abbrev pub the_beacon_sounds_every : Duration
the_beacon_sounds_every = from_secs 5

abbrev pub a_beacon_is_lost_after : Duration
a_beacon_is_lost_after = from_secs 15

pub data LoopHealth : Type 0 where
  receiving checking not_receiving : LoopHealth

pub data NotHearing : Type 0 where
  unreachable off_console not_subscribed is_not_receiving muted : NotHearing

-- The order a reason is chosen in.
abbrev pub furthest_upstream_first : List NotHearing
furthest_upstream_first = unreachable ∷ off_console ∷ not_subscribed ∷ is_not_receiving ∷ muted ∷ []

-- One subscribed loop's beacon, as a session's client has counted it.
pub record Counting : Type 0 where
  pub held_on : LoopId
  pub count : ℕ
  pub arrived : Option Instant
  pub started : Instant

abbrev pub starting : LoopId → Instant → Counting
starting held_on now = record { held_on = held_on; count = 0; arrived = none; started = now }

-- `Counting::counted`: a count that moved, and not to zero, is an arrival.
unfoldable pub counted : ℕ → Instant → Counting → Counting
counted packets now c = record c {
  arrived = if not (packets == c.count) && ltb 0 packets then some now else c.arrived;
  count = packets;
}

-- `Counting::again`.
unfoldable pub again : Instant → Counting → Counting
again now c = record c { arrived = none; started = now }

health_from : Option Instant → Instant → Instant → LoopHealth
health_from (some at) started now =
    if ltb (since now at) a_beacon_is_lost_after then receiving else not_receiving
health_from none started now =
    if ltb (since now started) a_beacon_is_lost_after then checking else not_receiving

-- `Counting::health`.
unfoldable pub health : Counting → Instant → LoopHealth
unfolding health_from
health c now = health_from c.arrived c.started now
