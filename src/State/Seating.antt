-- ===== src/State/Seating.antt =====
-- Who holds which session, in which role, from which sign-in, under each request (src/state.rs).
use voxloop.Prelude.{◌≡◌, refl, ◌∙◌, List, map, map-update, arith, inl, inr, Option-cases}
use voxloop.Names.{SessionId, RoleId, UserId, SignInToken, Instant}
use voxloop.State.Documents.{StaffedBy, InReach}
use voxloop.State.Session.{Session, take_the_arms_out_of_reach, let_go}
use voxloop.State.Live.{Live}
use voxloop.State.Console.{
  is_named, session_of, change, subscribe, unsubscribe, mute, unmute, off_console, a_deliberate_act,
  set_the_volume, arm, disarm, the_client_keys, the_client_unkeys, the_client_keys_priority,
  the_client_unkeys_priority, subscribed, unsubscribed, muted, unmuted, armed, pressed_down,
}
use voxloop.State.Channel.{
  the_client_is_there, the_client_counted, the_channel_is_gone, the_client_says, the_server_sees,
  heard_from_now,
}
use voxloop.State.Projections.{presence, published, brought_within, document}
use voxloop.State.Acts.{
  Request, subscribes, unsubscribes, mutes, unmutes, arms, disarms, goes_off_console, acts, keys,
  unkeys, unkeys_priority, heartbeats, closes, sets_the_volume, keys_priority, counts, says, sees,
  presents, serve,
}

-- What a session is: its name, the sign-in it was assumed from, who holds it and the role.
pub record Seat : Type 0 where
  pub id : SessionId
  pub sign_in : SignInToken
  pub occupant : UserId
  pub role : RoleId

abbrev pub seat : Session → Seat
seat s = record { id = s.id; sign_in = s.sign_in; occupant = s.occupant; role = s.role }

abbrev pub seats : Live → List Seat
seats live = map seat live.sessions

-- What a request may not touch.
pub record LeavesSeats (before after : Live) : Type 0 where
  pub same_seats : seats after ≡ seats before
  pub same_tombstones : after.tombstones ≡ before.tombstones
  pub same_ladder : after.ladder ≡ before.ladder

pub change-LeavesSeats :
    (session : SessionId) (f : Session → Session) (live : Live)
    → ((s : Session) → seat (f s) ≡ seat s)
    → LeavesSeats live (change session f live)
change-LeavesSeats session f live same = record {
  same_seats = map-update seat (is_named session) f same live.sessions;
  same_tombstones = refl;
  same_ladder = refl;
}

presence-LeavesSeats :
    (session : SessionId) (within : List InReach) (staffed : List StaffedBy) (now : Instant)
    (live : Live)
    → LeavesSeats live (presence session within staffed now live).0
unfolding presence published brought_within take_the_arms_out_of_reach
presence-LeavesSeats session within staffed now live =
    let narrowed = change session (brought_within within) live in
    let first = change-LeavesSeats session (brought_within within) live (λ s. refl) in
    elim (Option-cases (session_of narrowed session)) [
      | inl gone ↦ rw (gone, presence) first
      | inr (held, there) ↦
          let said = document narrowed staffed held now in
          let second = change-LeavesSeats session (published said) narrowed (λ s. ground arith) in
          rw (there, presence)
            (record {
              same_seats = second.same_seats ∙ first.same_seats;
              same_tombstones = refl;
              same_ladder = refl;
            })
    ]

-- No request on a session moves a seat, a tombstone or the ladder.
pub serve-LeavesSeats :
    (session : SessionId) (now : Instant) (request : Request) (live : Live)
    → LeavesSeats live (serve session now request live)
unfolding serve subscribe subscribed unsubscribe unsubscribed mute muted unmute unmuted arm armed
    disarm off_console a_deliberate_act the_client_keys the_client_unkeys the_client_unkeys_priority
    let_go the_client_is_there heard_from_now the_channel_is_gone set_the_volume
    the_client_keys_priority pressed_down the_client_counted the_client_says the_server_sees
serve-LeavesSeats session now (subscribes l) live =
    change-LeavesSeats session (subscribed l now) live (λ s. ground arith)
serve-LeavesSeats session now (unsubscribes l) live = change-LeavesSeats session _ live (λ s. refl)
serve-LeavesSeats session now (mutes l) live =
    change-LeavesSeats session (muted l) live (λ s. ground arith)
serve-LeavesSeats session now (unmutes l) live = change-LeavesSeats session _ live (λ s. refl)
serve-LeavesSeats session now (arms l) live =
    change-LeavesSeats session (armed l) live (λ s. ground arith)
serve-LeavesSeats session now (disarms l) live = change-LeavesSeats session _ live (λ s. refl)
serve-LeavesSeats session now goes_off_console live = change-LeavesSeats session _ live (λ s. refl)
serve-LeavesSeats session now acts live = change-LeavesSeats session _ live (λ s. refl)
serve-LeavesSeats session now keys live = change-LeavesSeats session _ live (λ s. refl)
serve-LeavesSeats session now unkeys live = change-LeavesSeats session _ live (λ s. refl)
serve-LeavesSeats session now unkeys_priority live = change-LeavesSeats session _ live (λ s. refl)
serve-LeavesSeats session now heartbeats live = change-LeavesSeats session _ live (λ s. refl)
serve-LeavesSeats session now closes live = change-LeavesSeats session _ live (λ s. refl)
serve-LeavesSeats session now (sets_the_volume l v) live =
    change-LeavesSeats session _ live (λ s. refl)
serve-LeavesSeats session now (keys_priority wall_clock) live =
    change-LeavesSeats session (pressed_down now wall_clock) live (λ s. ground arith)
serve-LeavesSeats session now (counts reported) live = change-LeavesSeats session _ live (λ s. refl)
serve-LeavesSeats session now (says path) live = change-LeavesSeats session _ live (λ s. refl)
serve-LeavesSeats session now (sees path) live = change-LeavesSeats session _ live (λ s. refl)
serve-LeavesSeats session now (presents within staffed) live =
    presence-LeavesSeats session within staffed now live
