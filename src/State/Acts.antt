-- ===== src/State/Acts.antt =====
-- Every operation of the state authority that writes, as one step of a history (src/state.rs).
use voxloop.Prelude.{ℕ, List}
use voxloop.Names.{SessionId, LoopId, Instant}
use voxloop.Configuration.Permission.{Volume}
use voxloop.State.Readings.{MediaPath}
use voxloop.State.Documents.{StaffedBy, InReach}
use voxloop.State.Live.{Live}
use voxloop.State.Seats.{Assuming, assume, ended_by_its_own_holder, why_it_ended}
use voxloop.State.Console.{
  subscribe, unsubscribe, mute, unmute, off_console, a_deliberate_act, set_the_volume, arm, disarm,
  the_client_keys, the_client_unkeys, the_client_keys_priority, the_client_unkeys_priority,
}
use voxloop.State.Channel.{
  the_client_is_there, the_client_counted, the_channel_is_gone, the_client_says, the_server_sees,
  nothing_is_carried,
}
use voxloop.State.Projections.{the_routing_if_it_moved, the_beacons_if_they_moved, presence}

-- What a session's console, its channel or the media plane asks for, on a session that is named.
pub data Request : Type 0 where
  subscribes unsubscribes mutes unmutes arms disarms : LoopId → Request
  goes_off_console acts keys unkeys unkeys_priority heartbeats closes : Request
  sets_the_volume : LoopId → Volume → Request
  keys_priority : Instant → Request
  counts : List (LoopId × ℕ) → Request
  says sees : MediaPath → Request
  presents : List InReach → List StaffedBy → Request

pub data Act : Type 0 where
  assumes : SessionId → Assuming → Act
  relinquishes asks_why : SessionId → Act
  requests : SessionId → Request → Act
  routes beacons carries_nothing : Act

unfoldable pub serve : SessionId → Instant → Request → Live → Live
serve s now (subscribes l) live = (subscribe s l now live).0
serve s now (unsubscribes l) live = (unsubscribe s l live).0
serve s now (mutes l) live = (mute s l live).0
serve s now (unmutes l) live = (unmute s l live).0
serve s now (arms l) live = (arm s l live).0
serve s now (disarms l) live = (disarm s l live).0
serve s now goes_off_console live = (off_console s live).0
serve s now acts live = a_deliberate_act s now live
serve s now keys live = (the_client_keys s live).0
serve s now unkeys live = (the_client_unkeys s live).0
serve s now unkeys_priority live = (the_client_unkeys_priority s now live).0
serve s now heartbeats live = the_client_is_there s now live
serve s now closes live = (the_channel_is_gone s now live).0
serve s now (sets_the_volume l v) live = (set_the_volume s l v live).0
serve s now (keys_priority wall_clock) live = (the_client_keys_priority s now wall_clock live).0
serve s now (counts reported) live = the_client_counted s reported now live
serve s now (says path) live = the_client_says s path live
serve s now (sees path) live = the_server_sees s path live
serve s now (presents within staffed) live = (presence s within staffed now live).0

-- One operation, at the time that it reads off the clock.
unfoldable pub step : Instant × Act → Live → Live
step (now, assumes minted assuming) live = (assume minted assuming now live).0
step (now, relinquishes s) live = (ended_by_its_own_holder s now live).0
step (now, asks_why s) live = (why_it_ended s now live).0
step (now, requests s request) live = serve s now request live
step (now, routes) live = (the_routing_if_it_moved now live).0
step (now, beacons) live = (the_beacons_if_they_moved live).0
step (now, carries_nothing) live = nothing_is_carried live
