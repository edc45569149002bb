-- ===== src/Names.antt =====
-- Identifiers, texts and times (state.rs, configuration/*.rs). An identifier is a newtype over an
-- opaque string that the program mints and compares, and a text here is one that it only copies
-- and compares; both are numbers, one for each string. Times are in nanoseconds, as `Duration`
-- and `Instant` hold them.
use voxloop.Prelude.{ℕ, ◌-◌, ◌*◌, ◌%◌, ◌^◌}

abbrev pub Text : Type 0
Text = ℕ

abbrev pub SessionId : Type 0
SessionId = Text

abbrev pub LoopId : Type 0
LoopId = Text

abbrev pub RoleId : Type 0
RoleId = Text

abbrev pub UserId : Type 0
UserId = Text

abbrev pub SignInToken : Type 0
SignInToken = Text

abbrev pub Instant : Type 0
Instant = ℕ

abbrev pub Duration : Type 0
Duration = ℕ

abbrev pub nanos_per_second : ℕ
nanos_per_second = 1_000_000_000

-- `Duration::from_secs`.
abbrev pub from_secs : ℕ → Duration
from_secs s = s * nanos_per_second

-- `now.saturating_duration_since(at)`: zero where `at` is the later one.
abbrev pub since : Instant → Instant → Duration
since now at = now - at

-- A `u64` keeps its wrap-around.
abbrev pub u64 : ℕ → ℕ
u64 n = n % 2 ^ 64
