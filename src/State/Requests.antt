-- ===== src/State/Requests.antt =====
-- The well-formedness of every session, under each request (src/state.rs).
use voxloop.Prelude.{List, All, All-update, Option-cases, inl, inr}
use voxloop.Names.{SessionId, Instant}
use voxloop.State.Documents.{StaffedBy, InReach}
use voxloop.State.Session.{Session, take_the_arms_out_of_reach, let_go, may_emit}
use voxloop.State.Live.{Live}
use voxloop.State.Console.{
  is_named, session_of, change, subscribe, unsubscribe, mute, unmute, off_console, a_deliberate_act,
  set_the_volume, arm, disarm, the_client_keys, the_client_unkeys, the_client_keys_priority,
  the_client_unkeys_priority,
}
use voxloop.State.Channel.{
  the_client_is_there, the_client_counted, the_channel_is_gone, the_client_says, the_server_sees,
  count_each,
}
use voxloop.State.Projections.{presence, brought_within, document}
use voxloop.State.Acts.{
  Request, subscribes, unsubscribes, mutes, unmutes, arms, disarms, goes_off_console, acts, keys,
  unkeys, unkeys_priority, heartbeats, closes, sets_the_volume, keys_priority, counts, says, sees,
  presents, serve,
}
use voxloop.State.Sound.{
  IsSound, subscribed-IsSound, unsubscribed-IsSound, muted-IsSound, unmuted-IsSound, armed-IsSound,
  fewer_arms-IsSound,
}
use voxloop.State.Sound.Measured.{
  with_volume-IsSound, recounted-IsSound, loops_counted-each, heard_from_now-IsSound,
  pressed_down-IsSound, published-IsSound,
}

abbrev pub AllSound : Live → Type 0
AllSound live = All IsSound live.sessions

change-AllSound :
    (session : SessionId) (f : Session → Session) (live : Live)
    → ((s : Session) → IsSound s → IsSound (f s))
    → AllSound live
    → AllSound (change session f live)
change-AllSound session f live keep h = All-update IsSound (is_named session) f live.sessions keep h

presence-AllSound :
    (session : SessionId) (within : List InReach) (staffed : List StaffedBy) (now : Instant)
    (live : Live)
    → AllSound live
    → AllSound (presence session within staffed now live).0
unfolding presence brought_within take_the_arms_out_of_reach
presence-AllSound session within staffed now live h =
    let narrowed = change session (brought_within within) live in
    let first =
      change-AllSound session (brought_within within) live
        (λ s k. fewer_arms-IsSound (may_emit within) (record s { reach = within }) k) h in
    elim (Option-cases (session_of narrowed session)) [
      | inl gone ↦ rw (gone, presence) first
      | inr (held, there) ↦
          rw (there, presence)
            (change-AllSound session _ narrowed
              (published-IsSound (document narrowed staffed held now)) first)
    ]

pub serve-AllSound :
    (session : SessionId) (now : Instant) (request : Request) (live : Live)
    → AllSound live
    → AllSound (serve session now request live)
unfolding serve subscribe unsubscribe mute unmute arm disarm off_console a_deliberate_act
    the_client_keys the_client_unkeys the_client_unkeys_priority let_go the_client_is_there
    the_channel_is_gone set_the_volume the_client_keys_priority the_client_counted the_client_says
    the_server_sees
serve-AllSound session now (subscribes l) live h =
    change-AllSound session _ live (subscribed-IsSound l now) h
serve-AllSound session now (unsubscribes l) live h =
    change-AllSound session _ live (unsubscribed-IsSound l) h
serve-AllSound session now (mutes l) live h = change-AllSound session _ live (muted-IsSound l) h
serve-AllSound session now (unmutes l) live h = change-AllSound session _ live (unmuted-IsSound l) h
serve-AllSound session now (arms l) live h = change-AllSound session _ live (armed-IsSound l) h
serve-AllSound session now (disarms l) live h =
    change-AllSound session _ live (fewer_arms-IsSound _) h
serve-AllSound session now goes_off_console live h = change-AllSound session _ live (λ s k. k) h
serve-AllSound session now acts live h = change-AllSound session _ live (λ s k. k) h
serve-AllSound session now keys live h = change-AllSound session _ live (λ s k. k) h
serve-AllSound session now unkeys live h = change-AllSound session _ live (λ s k. k) h
serve-AllSound session now unkeys_priority live h = change-AllSound session _ live (λ s k. k) h
serve-AllSound session now heartbeats live h =
    change-AllSound session _ live (heard_from_now-IsSound live.ladder now) h
serve-AllSound session now closes live h = change-AllSound session _ live (λ s k. k) h
serve-AllSound session now (sets_the_volume l v) live h =
    change-AllSound session _ live (with_volume-IsSound l v) h
serve-AllSound session now (keys_priority wall_clock) live h =
    change-AllSound session _ live (pressed_down-IsSound now wall_clock) h
serve-AllSound session now (counts reported) live h =
    change-AllSound session _ live
      (λ s k.
        recounted-IsSound (count_each now reported s.beacons) s
          (loops_counted-each now reported s.beacons) k)
      h
serve-AllSound session now (says path) live h = change-AllSound session _ live (λ s k. k) h
serve-AllSound session now (sees path) live h = change-AllSound session _ live (λ s k. k) h
serve-AllSound session now (presents within staffed) live h =
    presence-AllSound session within staffed now live h
