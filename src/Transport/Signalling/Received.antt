-- ===== src/Transport/Signalling/Received.antt =====
-- One message, and one turn of the conversation's loop (src/transport/signalling.rs).
use voxloop.Prelude.{Bool, true, false, Option, none, some, if◌then◌else◌, List, [], ◌∷◌}
use voxloop.Authorisation.{Answer, ok, unavailable}
use voxloop.State.Channel as Channel
use voxloop.Transport.Signalling.Messages.{
  Incoming, Outgoing, requirement, was_a_deliberate_act, no_such_message, unmet,
}
use voxloop.Transport.Signalling.Scene.{Given, Scene, Turn, ◌>>=◌, ◌>>◌, done, permitted_to}
use voxloop.Transport.Signalling.Documents.{
  presence, whatever_this_socket_renders, pushed_lobby, pushed_presence,
}
use voxloop.Transport.Signalling.Taking.{assume, relinquish}
use voxloop.Transport.Signalling.Acts.{
  swallowed, monitoring, arming, muting, off_console, setting_the_volume, keying, keying_priority,
  audited, the_client_reports, the_client_counted, the_client_is_there, the_media_plane,
  note_a_deliberate_act, hand_down_the_routing,
}

-- The `match` on a message that is permitted.
unfoldable pub obeyed : Given → Incoming → Turn (List Outgoing)
obeyed at Incoming.heartbeat = the_client_is_there at
obeyed at Incoming.hello = whatever_this_socket_renders at
obeyed at (Incoming.assume role) = assume at role
obeyed at Incoming.relinquish = relinquish at
obeyed at (Incoming.subscribe on) = monitoring at on true
obeyed at (Incoming.unsubscribe on) = monitoring at on false
obeyed at (Incoming.media_path path) = the_client_reports at path
obeyed at (Incoming.arm on) = arming at on true
obeyed at (Incoming.disarm on) = arming at on false
obeyed at Incoming.key = keying at true
obeyed at Incoming.unkey = keying at false
obeyed at Incoming.key_priority = keying_priority at true
obeyed at Incoming.unkey_priority = keying_priority at false
obeyed at (Incoming.mute on) = muting at on true
obeyed at (Incoming.unmute on) = muting at on false
obeyed at (Incoming.set_volume on percent) = setting_the_volume at on percent
obeyed at Incoming.off_console = off_console at
obeyed at Incoming.on_console = presence false at
obeyed at (Incoming.beacons_counted counts) = the_client_counted at counts
obeyed at (Incoming.media_can_decode what) = the_media_plane (Incoming.media_can_decode what)
obeyed at (Incoming.media_connect way keys) = the_media_plane (Incoming.media_connect way keys)
obeyed at (Incoming.media_speaks what) = the_media_plane (Incoming.media_speaks what)
obeyed at (Incoming.media_hears carriage) = the_media_plane (Incoming.media_hears carriage)

abbrev pub noted : Given → Incoming → Turn (Unit {0})
noted at message = if was_a_deliberate_act message then note_a_deliberate_act at else done tt

-- What follows from whether the message is permitted.
abbrev pub ruled : Given → Incoming → Bool → Turn (List Outgoing)
ruled at message true = noted at message >> obeyed at message
ruled at message false = done (Outgoing.refused (unmet (requirement message)) ∷ [])

-- A text that is no message is none.
unfoldable pub received : Given → Option Incoming → Turn (List Outgoing)
received at none = done (Outgoing.refused no_such_message ∷ [])
received at (some message) = permitted_to at (requirement message) >>= ruled at message

-- What wakes the conversation, of what changes anything: a text, or one of its two ticks.
pub data Event : Type 0 where
  says : Option Incoming → Event
  lobby_tick presence_tick : Event

unfoldable pub woken : Given → Event → Turn (List Outgoing)
unfolding received
woken at (Event.says said) = received at said
woken at Event.lobby_tick = pushed_lobby at
woken at Event.presence_tick = pushed_presence at

abbrev pub said_of : Answer (List Outgoing) → List Outgoing
said_of (ok said) = said
said_of unavailable = Outgoing.closing_unanswered ∷ []

-- One turn of `talk`: the event, the routing, and what goes out.
unfoldable pub talk : Given → Event → Scene → Scene × List Outgoing
unfolding woken
talk at event s =
    let (next, answer) = woken at event s in (hand_down_the_routing at next, said_of answer)

-- The socket is gone.
unfoldable pub the_channel_went : Given → Scene → Scene
the_channel_went at s = elim s.own.session [
  | none ↦ s
  | some session ↦
      let (live, pressed) = Channel.the_channel_is_gone session at.now s.live in
      (swallowed (audited pressed) (hand_down_the_routing at (record s { live = live }))).0
]
