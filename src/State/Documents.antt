-- ===== src/State/Documents.antt =====
-- The values that the state authority hands out: the presence document, the routing and the
-- beacons, and what a press leaves behind (src/state.rs, lines 317 to 375 and 904 to 1335).
use voxloop.Prelude.{ℕ, Bool, Option, List, ℕ_discrete}
use voxloop.Names.{Text, SessionId, LoopId, RoleId, UserId, Duration, Instant}
use voxloop.Configuration.Permission.{Permission, Volume}
use voxloop.State.Readings.{MediaPath, Connection, LoopHealth, NotHearing}

-- The roles that are to staff a loop.
pub record StaffedBy : Type 0 where
  pub held_on : LoopId
  pub roles : List RoleId

pub data Staffing : Type 0 where
  staffed : Staffing
  away : List (NotHearing × ℕ) → Staffing
  vacant : Staffing

pub record InReach : Type 0 where
  pub id : LoopId
  pub name : Text
  pub permission : Permission

pub record Asserted : Type 0 where
  pub last_active : Duration

pub record Standing : Type 0 where
  pub held_on : InReach
  pub subscribed : Bool
  pub armed : Bool
  pub talking : Bool
  pub priority : Bool
  pub muted : Bool
  pub volume : Volume
  pub health : Option LoopHealth
  pub staffing : Option Staffing
  pub staffs : Bool

pub record Presence : Type 0 where
  pub session : SessionId
  pub role : RoleId
  pub media_path : MediaPath
  pub connection : Connection
  pub keyed : Bool
  pub priority : Bool
  pub off_console : Option Asserted
  pub loops : List Standing

pub record WhoCounts : Type 0 where
  pub listener : SessionId
  pub on : List LoopId

pub record Heard : Type 0 where
  pub listener : SessionId
  pub on : LoopId

pub record WhoHears : Type 0 where
  pub talker : SessionId
  pub listeners : List Heard

-- What an ended priority press leaves for the audit log. `at` is the wall clock's reading.
pub record Pressed : Type 0 where
  pub occupant : UserId
  pub role : RoleId
  pub armed_on : List Text
  pub at : Instant
  pub lasted : Duration

unfoldable pub Staffing-discrete : Discrete Staffing
Staffing-discrete = hlevel ℕ_discrete

unfoldable pub Standing-discrete : Discrete Standing
Standing-discrete = hlevel (ℕ_discrete, Staffing-discrete)

-- The derived `PartialEq` of the document.
unfoldable pub Presence-discrete : Discrete Presence
Presence-discrete = hlevel (ℕ_discrete, Standing-discrete)

unfoldable pub routing-discrete : Discrete (List WhoHears)
routing-discrete = hlevel ℕ_discrete

unfoldable pub beacons-discrete : Discrete (List WhoCounts)
beacons-discrete = hlevel ℕ_discrete
