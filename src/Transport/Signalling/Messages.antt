-- ===== src/Transport/Signalling/Messages.antt =====
-- What the client and the server say to each other (src/transport/signalling.rs). What the media
-- library negotiates is a text here; a refusal's text is the reason that it words, for the message
-- that was received; a document keeps the values that the source writes as texts.
use voxloop.Prelude.{ℕ, Bool, true, false, Option, List, ℕ_discrete}
use voxloop.Names.{Text, LoopId, RoleId, SessionId}
use voxloop.Configuration.Permission.{monitor, emit}
use voxloop.Configuration.Tables.{Role}
use voxloop.Authorisation.{Requirement, signed_in, session, grid}
use voxloop.State.Readings.{MediaPath}
use voxloop.State.Documents.{Staffing, Staffing-discrete, Presence, Heard}
use voxloop.State.Live.{Ended}

-- A media path is what its text reads as, where it does.
pub data Incoming : Type 0 where
  heartbeat hello relinquish key unkey key_priority unkey_priority off_console on_console : Incoming
  assume : RoleId → Incoming
  subscribe unsubscribe arm disarm mute unmute : LoopId → Incoming
  media_path : Option MediaPath → Incoming
  media_can_decode media_speaks media_hears : Text → Incoming
  media_connect : Bool → Text → Incoming
  set_volume : LoopId → ℕ → Incoming
  beacons_counted : List (LoopId × ℕ) → Incoming

unfoldable pub requirement : Incoming → Requirement
requirement Incoming.heartbeat = signed_in
requirement Incoming.hello = signed_in
requirement (Incoming.assume _) = signed_in
requirement (Incoming.arm on) = grid emit on
requirement (Incoming.disarm on) = grid emit on
requirement (Incoming.subscribe on) = grid monitor on
requirement (Incoming.unsubscribe on) = grid monitor on
requirement _ = session

unfoldable pub was_a_deliberate_act : Incoming → Bool
was_a_deliberate_act Incoming.heartbeat = false
was_a_deliberate_act (Incoming.media_path _) = false
was_a_deliberate_act (Incoming.media_can_decode _) = false
was_a_deliberate_act (Incoming.media_connect _ _) = false
was_a_deliberate_act (Incoming.media_speaks _) = false
was_a_deliberate_act (Incoming.media_hears _) = false
was_a_deliberate_act (Incoming.beacons_counted _) = false
was_a_deliberate_act _ = true

pub record StaffedLoop : Type 0 where
  pub id : LoopId
  pub name : Text
  pub staffing : Staffing

pub record Seat : Type 0 where
  pub id : RoleId
  pub name : Text
  pub max_occupants : Option ℕ
  pub occupants : List Text
  pub staffs : List StaffedLoop

pub record Lobby : Type 0 where
  pub roles : List Seat

unfoldable pub StaffedLoop-discrete : Discrete StaffedLoop
StaffedLoop-discrete = hlevel (ℕ_discrete, Staffing-discrete)

unfoldable pub Seat-discrete : Discrete Seat
Seat-discrete = hlevel (ℕ_discrete, StaffedLoop-discrete)

unfoldable pub Lobby-discrete : Discrete Lobby
Lobby-discrete = hlevel (Seat-discrete)

-- The reasons that a refusal words.
pub data Reason : Type 0 where
  no_such_message not_a_role_you_may_assume not_a_volume not_a_media_path : Reason
  unmet : Requirement → Reason
  is_occupied : Text → ℕ → Reason

-- `Outgoing`, of the messages that the conversation itself composes.
pub data Outgoing : Type 0 where
  lobby : ℕ → Lobby → Outgoing
  presence : ℕ → Role → Presence → Outgoing
  session_ended : Option Ended → Outgoing
  refused : Reason → Outgoing
  closing_the_sign_in_ended closing_unanswered : Outgoing

-- What the media plane is told.
pub data Instruction : Type 0 where
  open_a_path_for close_the_path_of : SessionId → Instruction
  these_should_hear : SessionId → List Heard → Instruction
  these_beacons_reach : SessionId → List LoopId → Instruction
  the_client_says : SessionId → Incoming → Instruction
