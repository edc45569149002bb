-- ===== src/Transport/Signalling/Acts.antt =====
-- What a console asks for on the session that its socket holds (src/transport/signalling.rs).
use voxloop.Prelude.{
  ℕ, Bool, true, false, Option, none, some, leb, if◌then◌else◌, List, [], ◌∷◌, ◌++◌, map,
}
use voxloop.Names.{SessionId, RoleId, LoopId}
use voxloop.Configuration.Permission.{Volume, presented}
use voxloop.Configuration.Personalisation.{
  remember_a_subscription, forget_a_subscription, remember_a_volume,
}
use voxloop.Configuration.SignIns as SignIns
use voxloop.Authorisation.{ok}
use voxloop.State.Readings.{MediaPath}
use voxloop.State.Documents.{Pressed, WhoHears, WhoCounts}
use voxloop.State.Live.{Live}
use voxloop.State.Seats.{the_role_of}
use voxloop.State.Console as Console
use voxloop.State.Channel as Channel
use voxloop.State.Projections.{the_routing_if_it_moved, the_beacons_if_they_moved}
use voxloop.Transport.Signalling.Messages.{
  Incoming, Outgoing, Instruction, not_a_volume, not_a_media_path, these_should_hear,
  these_beacons_reach,
}
use voxloop.Transport.Signalling.Scene.{Given, Scene, Turn, ◌>>=◌, ◌>>◌, done, writing, press_entry}
use voxloop.Transport.Signalling.Documents.{presence}

-- An act on the live state that answers whether it was taken.
abbrev pub lived : (Live → Live × Bool) → Turn Bool
lived act s = let (live, applied) = act s.live in (record s { live = live }, ok applied)

abbrev pub lived_silently : (Live → Live) → Turn (Unit {0})
lived_silently act s = (record s { live = act s.live }, ok tt)

-- Nothing is done, and nothing said, where the socket holds no session.
abbrev pub in_session : (SessionId → Turn (List Outgoing)) → Turn (List Outgoing)
in_session act s = elim s.own.session [ none ↦ done [] s | some session ↦ act session s ]

-- A write whose failure is only logged.
abbrev pub swallowed : Turn (Unit {0}) → Turn (Unit {0})
swallowed m s = ((m s).0, ok tt)

unfoldable pub write_down : Given → RoleId → LoopId → Bool → Turn (Unit {0})
write_down at role on subscribed = writing (λ s. record s {
  tables =
      if subscribed
      then remember_a_subscription s.own.user role on at.wall_clock s.tables
      else forget_a_subscription s.own.user role on s.tables;
})

unfoldable pub remember : Given → SessionId → LoopId → Bool → Turn (Unit {0})
unfolding write_down
remember at session on subscribed s = elim (the_role_of s.live session) [
  | none ↦ done tt s
  | some role ↦ swallowed (write_down at role on subscribed) s
]

abbrev pub subscription_act : Given → SessionId → LoopId → Bool → Live → Live × Bool
subscription_act at session on true live = Console.subscribe session on at.now live
subscription_act at session on false live = Console.unsubscribe session on live

unfoldable pub monitoring : Given → LoopId → Bool → Turn (List Outgoing)
unfolding remember
monitoring at on subscribed = in_session (λ session. do
  applied ← lived (subscription_act at session on subscribed)
  if applied then remember at session on subscribed else done tt
  presence false at)

abbrev pub arming_act : SessionId → LoopId → Bool → Live → Live × Bool
arming_act session on true live = Console.arm session on live
arming_act session on false live = Console.disarm session on live

unfoldable pub arming : Given → LoopId → Bool → Turn (List Outgoing)
arming at on armed =
    in_session (λ session. lived (arming_act session on armed) >>= λ _. presence false at)

abbrev pub muting_act : SessionId → LoopId → Bool → Live → Live × Bool
muting_act session on true live = Console.mute session on live
muting_act session on false live = Console.unmute session on live

unfoldable pub muting : Given → LoopId → Bool → Turn (List Outgoing)
muting at on muted =
    in_session (λ session. lived (muting_act session on muted) >>= λ _. presence false at)

unfoldable pub off_console : Given → Turn (List Outgoing)
off_console at =
    in_session (λ session. lived (Console.off_console session) >>= λ _. presence false at)

unfoldable pub remember_the_volume : Given → SessionId → LoopId → Volume → Turn (Unit {0})
remember_the_volume at session on volume s = elim (the_role_of s.live session) [
  | none ↦ done tt s
  | some role ↦
      swallowed
        (writing (λ w. record w {
          tables = remember_a_volume w.own.user role on volume at.wall_clock w.tables;
        }))
        s
]

-- `u8::try_from(percent)`, and then the volume that it presents.
abbrev pub volume_of : ℕ → Option Volume
unfolding presented
volume_of percent = if leb percent 255 then presented percent else none

unfoldable pub setting_the_volume : Given → LoopId → ℕ → Turn (List Outgoing)
unfolding remember_the_volume
setting_the_volume at on percent = in_session (λ session. elim (volume_of percent) [
  | none ↦ done (Outgoing.refused not_a_volume ∷ [])
  | some volume ↦ do
    applied ← lived (Console.set_the_volume session on volume)
    if applied then remember_the_volume at session on volume else done tt
    presence false at
])

abbrev pub keying_act : SessionId → Bool → Live → Live × Bool
keying_act session true live = Console.the_client_keys session live
keying_act session false live = Console.the_client_unkeys session live

unfoldable pub keying : Given → Bool → Turn (List Outgoing)
keying at keyed =
    in_session (λ session. lived (keying_act session keyed) >>= λ _. presence false at)

unfoldable pub audit_the_press : Pressed → Turn (Unit {0})
audit_the_press pressed =
    writing (λ s. record s { log = s.log ++ press_entry s.tables pressed ∷ [] })

abbrev pub audited : Option Pressed → Turn (Unit {0})
audited none = done tt
audited (some pressed) = audit_the_press pressed

-- A press that ends is in the log before the document goes out.
unfoldable pub let_go_of_priority : Given → SessionId → Turn (Unit {0})
let_go_of_priority at session s =
    let (live, pressed) = Console.the_client_unkeys_priority session at.now s.live in
    audited pressed (record s { live = live })

unfoldable pub keying_priority : Given → Bool → Turn (List Outgoing)
unfolding let_go_of_priority
keying_priority at true = in_session (λ session.
    lived (Console.the_client_keys_priority session at.now at.wall_clock) >>= λ _.
    presence false at)
keying_priority at false =
    in_session (λ session. let_go_of_priority at session >> presence false at)

unfoldable pub the_client_reports : Given → Option MediaPath → Turn (List Outgoing)
the_client_reports at none = in_session (λ session. done (Outgoing.refused not_a_media_path ∷ []))
the_client_reports at (some path) =
    in_session
      (λ session. lived_silently (Channel.the_client_says session path) >> presence true at)

unfoldable pub the_client_counted : Given → List (LoopId × ℕ) → Turn (List Outgoing)
the_client_counted at counts = in_session (λ session.
    lived_silently (Channel.the_client_counted session counts at.now) >> presence true at)

unfoldable pub the_client_is_there : Given → Turn (List Outgoing)
the_client_is_there at =
    in_session (λ session. lived_silently (Channel.the_client_is_there session at.now) >> done [])

-- What the media library of the client says is passed on as it is.
unfoldable pub the_media_plane : Incoming → Turn (List Outgoing)
the_media_plane said = in_session (λ session s.
    done [] (record s { media = s.media ++ Instruction.the_client_says session said ∷ [] }))

abbrev pub acted : Given → Option SessionId → Live → Live
acted at none live = live
acted at (some session) live = Console.a_deliberate_act session at.now live

-- The live act stands where the store's note of it fails.
unfoldable pub note_a_deliberate_act : Given → Turn (Unit {0})
note_a_deliberate_act at s =
    writing
      (λ w. record w {
        tables = record w.tables {
          sign_ins =
              SignIns.note_a_deliberate_act at.fingerprint w.own.sign_in at.wall_clock
                w.tables.sign_ins;
        };
      })
      (record s { live = acted at s.own.session s.live })

abbrev pub routing_told : Option (List WhoHears) → List Instruction
routing_told none = []
routing_told (some routing) = map (λ who. these_should_hear who.talker who.listeners) routing

abbrev pub beacons_told : Option (List WhoCounts) → List Instruction
beacons_told none = []
beacons_told (some counting) = map (λ who. these_beacons_reach who.listener who.on) counting

unfoldable pub hand_down_the_routing : Given → Scene → Scene
hand_down_the_routing at s =
    let (routed, routing) = the_routing_if_it_moved at.now s.live in
    let (live, beacons) = the_beacons_if_they_moved routed in
    record s { live = live; media = s.media ++ routing_told routing ++ beacons_told beacons }
