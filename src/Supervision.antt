-- ===== src/Supervision.antt =====
-- What the media plane's reports mean (src/supervision.rs). The channel is the list of the reports
-- that are read off it before it closes; what other callers write between two reports is left out.
-- The reports are those of src/media_plane/mod.rs, without the detail that is only logged.
pub mod Laws
use voxloop.Prelude.{Bool, true, false, not, ◌||◌, List, [], ◌∷◌, ◌++◌, retain}
use voxloop.Names.{SessionId}
use voxloop.State.Readings.{MediaPath}
use voxloop.State.Live.{Live}
use voxloop.State.Console.{is_keyed}
use voxloop.State.Channel.{the_server_sees, nothing_is_carried}

pub data Reported : Type 0 where
  the_path : SessionId → MediaPath → Reported
  carries_nothing nobody_is_audible : Reported
  these_are_audible : List SessionId → Reported

-- The live state, whether the process has been asked to stop, and the sessions that were warned of.
pub record Watching : Type 0 where
  pub state : Live
  pub asked_to_stop : Bool
  pub warned_of : List SessionId

-- `notify_one` leaves a permit, so asking is remembered.
unfoldable pub heed : Reported → Watching → Watching
heed (the_path of is) w = record w { state = the_server_sees of is w.state }
heed carries_nothing w = record w { state = nothing_is_carried w.state; asked_to_stop = true }
heed (these_are_audible talkers) w = record w {
  warned_of = w.warned_of ++ retain (λ talker. not (is_keyed w.state talker)) talkers;
}
heed nobody_is_audible w = w

-- `watch`: the `while let` over the channel.
unfoldable pub watch : List Reported → Watching → Watching
unfolding heed
watch [] w = w
watch (reported ∷ rest) w = watch rest (heed reported w)
