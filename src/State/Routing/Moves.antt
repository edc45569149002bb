-- ===== src/State/Routing/Moves.antt =====
-- What moves the routing, and what leaves it (src/state.rs, the_routing_if_it_moved).
use voxloop.Prelude.{
  ◌≡◌, refl, ap, ap₂, fun_ext, ◌∙◌, ◌↔◌, Bool, not, ◌&&◌, List, [], ◌∷◌, ◌++◌, map, flat_map,
  map-update, none, some, contains, update_first, is_the_last, is_the_last_sound,
  is_the_last_complete, arith, if◌then◌else◌, Bool-cases, inl, inr, ◌⊎◌,
}
use voxloop.Names.{SessionId, LoopId, Instant, since}
use voxloop.State.Readings.{disconnected}
use voxloop.State.Documents.{InReach, Heard, WhoHears, routing-discrete}
use voxloop.State.Session.{Session, connection, connection_after, hears, within_reach, let_go}
use voxloop.State.Live.{Live, who_hears, heard_on}
use voxloop.State.Console.{
  is_named, change, off_console, a_deliberate_act, set_the_volume, the_client_keys,
  the_client_unkeys, the_client_keys_priority, the_client_unkeys_priority, pressed_down,
}
use voxloop.State.Channel.{the_client_counted, the_client_says, the_server_sees}
use voxloop.State.Projections.{the_routing, the_routing_if_it_moved}
use voxloop.State.Acts.{
  Request, goes_off_console, acts, keys, unkeys, unkeys_priority, sets_the_volume, keys_priority,
  counts, says, sees, serve,
}
use voxloop.State.Routing.{IsQuiet}

module _ (f : Session → Session) (quiet : IsQuiet f) where
  heard_on-change :
      (talker : SessionId) (p : Session → Bool) (armed : LoopId) (xs : List Session)
      → heard_on talker (update_first p f xs) armed ≡ heard_on talker xs armed
  heard_on-change talker p armed [] = refl
  heard_on-change talker p armed (x ∷ xs) =
      ground (arith, quiet.same_id x, quiet.same_hearing x armed, heard_on-change talker p armed xs)

  flat_map-change :
      (talker : SessionId) (p : Session → Bool) (xs : List Session) (arms : List LoopId)
      → flat_map (heard_on talker (update_first p f xs)) arms ≡ flat_map (heard_on talker xs) arms
  unfolding flat_map
  flat_map-change talker p xs [] = refl
  flat_map-change talker p xs (armed ∷ arms) =
      ap₂ ◌++◌ (heard_on-change talker p armed xs) (flat_map-change talker p xs arms)

  who_hears-change :
      (session : SessionId) (live : Live) (talker : Session) (now : Instant)
      → who_hears (change session f live) talker now ≡ who_hears live talker now
  unfolding who_hears
  who_hears-change session live talker now =
      rw (flat_map-change talker.id (is_named session) live.sessions talker.arms)

  who_hears-changed :
      (live : Live) (talker : Session) (now : Instant)
      → who_hears live (f talker) now ≡ who_hears live talker now
  unfolding who_hears
  who_hears-changed live talker now =
      rw
        (quiet.same_connection talker live.ladder now, quiet.same_id talker, quiet.same_arms talker)

  the_routing-change :
      (session : SessionId) (live : Live) (now : Instant)
      → the_routing (change session f live) now ≡ the_routing live now
  unfolding the_routing
  the_routing-change session live now =
      map-update _ (is_named session) f
        (λ x. ap₂ told (quiet.same_id x) (who_hears-changed (change session f live) x now))
        live.sessions
      ∙ ap (λ g. map g live.sessions)
          (fun_ext (λ x. ap (told x.id) (who_hears-change session live x now)))
    where
      told : SessionId → List Heard → WhoHears
      told id heard = record { talker = id; listeners = heard }

-- The requests that say nothing of a route: keys, priority keys, volumes, presence at the console,
-- beacon counts and both ends of the media path.
abbrev pub IsRouteless : Request → Type 0
IsRouteless keys = Unit
IsRouteless unkeys = Unit
IsRouteless unkeys_priority = Unit
IsRouteless (keys_priority wall_clock) = Unit
IsRouteless (sets_the_volume l v) = Unit
IsRouteless goes_off_console = Unit
IsRouteless acts = Unit
IsRouteless (counts reported) = Unit
IsRouteless (says path) = Unit
IsRouteless (sees path) = Unit
IsRouteless _ = ⊥

-- What the fan-out reads of a session.
record Route : Type 0 where
  id : SessionId
  arms : List LoopId
  subscriptions : List LoopId
  mutes : List LoopId
  reach : List InReach
  heard_from : Instant
  the_channel_is_gone : Bool

abbrev route : Session → Route
route x = record {
  id = x.id;
  arms = x.arms;
  subscriptions = x.subscriptions;
  mutes = x.mutes;
  reach = x.reach;
  heard_from = x.heard_from;
  the_channel_is_gone = x.the_channel_is_gone;
}

route-IsQuiet : (f : Session → Session) → ((x : Session) → route (f x) ≡ route x) → IsQuiet f
unfolding hears connection
route-IsQuiet f same = record {
  same_id = λ x. ap (λ (r : Route). r.id) (same x);
  same_arms = λ x. ap (λ (r : Route). r.arms) (same x);
  same_hearing = λ x held_on.
      ap
        (λ (r : Route).
          contains r.subscriptions held_on
          && not (contains r.mutes held_on)
          && within_reach r.reach held_on)
        (same x);
  same_connection = λ x by now.
      ap
        (λ (r : Route).
          if r.the_channel_is_gone
          then disconnected
          else connection_after by (since now r.heard_from))
        (same x);
}

unrouted :
    (session : SessionId) (later : Instant) (f : Session → Session) (live : Live)
    → ((x : Session) → route (f x) ≡ route x)
    → the_routing (change session f live) later ≡ the_routing live later
unrouted session later f live same = the_routing-change f (route-IsQuiet f same) session live later

-- Transmission is not routing: pressing or releasing a key, ordinary or priority, turning a loop up
-- or down, leaving the console or acting on it, and what is said of beacons and media paths leave
-- the routing of every session, at every later time, exactly as it was.
pub the_routing-serve :
    (session : SessionId) (now later : Instant) (request : Request) (live : Live)
    → IsRouteless request
    → the_routing (serve session now request live) later ≡ the_routing live later
unfolding serve off_console a_deliberate_act the_client_keys the_client_unkeys
    the_client_unkeys_priority let_go set_the_volume the_client_keys_priority pressed_down
    the_client_counted the_client_says the_server_sees
the_routing-serve session now later keys live h = unrouted session later _ live (λ x. refl)
the_routing-serve session now later unkeys live h = unrouted session later _ live (λ x. refl)
the_routing-serve session now later unkeys_priority live h =
    unrouted session later _ live (λ x. refl)
the_routing-serve session now later (keys_priority wall_clock) live h =
    unrouted session later (pressed_down now wall_clock) live (λ x. ground arith)
the_routing-serve session now later (sets_the_volume l v) live h =
    unrouted session later _ live (λ x. refl)
the_routing-serve session now later goes_off_console live h =
    unrouted session later _ live (λ x. refl)
the_routing-serve session now later acts live h = unrouted session later _ live (λ x. refl)
the_routing-serve session now later (counts reported) live h =
    unrouted session later _ live (λ x. refl)
the_routing-serve session now later (says path) live h = unrouted session later _ live (λ x. refl)
the_routing-serve session now later (sees path) live h = unrouted session later _ live (λ x. refl)
the_routing-serve session now later _ live h = absurd h

the_routing_if_it_moved-none :
    (now : Instant) (live : Live)
    → live.last_routing ≡ some (the_routing live now)
    → (the_routing_if_it_moved now live).1 ≡ none
unfolding the_routing_if_it_moved
the_routing_if_it_moved-none now live e =
    rw (is_the_last_complete routing-discrete live.last_routing _ e, the_routing_if_it_moved)

-- The routing is answered exactly when it is not the one that was last answered, and then it is
-- remembered: asking again at once answers nothing. No session changes.
pub the_routing_if_it_moved-last :
    (now : Instant) (live : Live)
    → let (next, answer) = the_routing_if_it_moved now live in
      ((answer ≡ none) ↔ (live.last_routing ≡ some (the_routing live now)))
      × ((answer ≡ none) ⊎ (answer ≡ some (the_routing live now)))
      × (next.last_routing ≡ some (the_routing live now))
      × (next.sessions ≡ live.sessions)
      × ((the_routing_if_it_moved now next).1 ≡ none)
unfolding the_routing_if_it_moved the_routing who_hears
the_routing_if_it_moved-last now live =
    let routing = the_routing live now in
    elim (Bool-cases (is_the_last routing-discrete live.last_routing routing)) [
      | inl same ↦
          let e = is_the_last_sound routing-discrete live.last_routing routing same in
          rw (same, the_routing_if_it_moved)
            ((λ _. e, λ _. refl), inl refl, e, refl, the_routing_if_it_moved-none now live e)
      | inr moved ↦
          rw (moved, the_routing_if_it_moved)
            (
              (
                λ h. absurd (cc),
                λ h.
                    absurd (cc (is_the_last_complete routing-discrete live.last_routing routing h)),
              ),
              inr refl,
              refl,
              refl,
              the_routing_if_it_moved-none now (record live { last_routing = some routing }) refl,
            )
    ]
