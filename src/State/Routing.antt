-- ===== src/State/Routing.antt =====
-- Who hears whom: the fan-out of one talker (src/state.rs, who_hears).
pub mod Moves
use voxloop.Prelude.{
  ◌≡◌, refl, ap, ap₂, fun_ext, ◌∙◌, ◌↔◌, Bool, not, ◌&&◌, ◌||◌, ◌==◌, List, [], ◌∷◌, ◌++◌, map,
  flat_map, map-update, none, some, any, contains, any-append, update_first, is_the_last,
  is_the_last_sound, is_the_last_complete, arith, ltb, if◌then◌else◌, Bool-cases, inl, inr, ◌⊎◌,
}
use voxloop.Names.{SessionId, LoopId, Instant, from_secs, since}
use voxloop.Configuration.Ladder.{Ladder}
use voxloop.State.Readings.{carries_emission, disconnected}
use voxloop.State.Documents.{InReach, Heard, WhoHears, routing-discrete}
use voxloop.State.Session.{Session, connection, connection_after, hears, within_reach, let_go}
use voxloop.State.Live.{Live, who_hears, heard_on}
use voxloop.State.Console.{
  is_named, change, off_console, a_deliberate_act, set_the_volume, the_client_keys,
  the_client_unkeys, the_client_keys_priority, the_client_unkeys_priority, pressed_down,
}
use voxloop.State.Channel.{the_client_counted, the_client_says, the_server_sees}
use voxloop.State.Projections.{the_routing, the_routing_if_it_moved}
use voxloop.State.Acts.{
  Request, goes_off_console, acts, keys, unkeys, unkeys_priority, sets_the_volume, keys_priority,
  counts, says, sees, serve,
}

-- Whether a fan-out reaches a session on a loop.
abbrev pub reaches : SessionId → LoopId → List Heard → Bool
reaches session held_on = any (λ heard. heard.listener == session && heard.on == held_on)

reaches-heard_on :
    (talker session : SessionId) (armed held_on : LoopId) (xs : List Session)
    → reaches session held_on (heard_on talker xs armed)
      ≡ (armed == held_on)
        && not (session == talker)
        && any (λ x. x.id == session && hears x held_on) xs
reaches-heard_on talker session armed held_on [] = ground arith
reaches-heard_on talker session armed held_on (x ∷ xs) =
    ground (arith, reaches-heard_on talker session armed held_on xs)

reaches-arms :
    (talker session : SessionId) (held_on : LoopId) (xs : List Session) (arms : List LoopId)
    → reaches session held_on (flat_map (heard_on talker xs) arms)
      ≡ contains arms held_on
        && not (session == talker)
        && any (λ x. x.id == session && hears x held_on) xs
unfolding flat_map
reaches-arms talker session held_on xs [] = refl
reaches-arms talker session held_on xs (armed ∷ arms) =
    any-append _ (heard_on talker xs armed) (flat_map (heard_on talker xs) arms)
    ∙ ground (
      arith,
      reaches-heard_on talker session armed held_on xs,
      reaches-arms talker session held_on xs arms,
    )

hears_lem :
    (x : Session) (held_on : LoopId)
    → hears x held_on
      ≡ contains x.subscriptions held_on
        && not (contains x.mutes held_on)
        && any (λ within. within.id == held_on) x.reach
unfolding hears
hears_lem x held_on = refl

carries_emission-connection :
    (x : Session) (by : Ladder) (now : Instant)
    → carries_emission (connection x by now)
      ≡ not x.the_channel_is_gone && ltb (since now x.heard_from) (from_secs by.disconnected)
unfolding connection connection_after
carries_emission-connection x by now = ground arith

-- A talker reaches a session on a loop exactly when the talker's channel is not gone and was heard
-- from more recently than the ladder's last rung, the talker has the loop armed, the session is
-- another one, and a session of that name subscribes to the loop, does not mute it, and has it in
-- reach. Whether anybody keys does not count.
pub reaches-who_hears :
    (live : Live) (talker : Session) (now : Instant) (session : SessionId) (held_on : LoopId)
    → reaches session held_on (who_hears live talker now)
      ≡ (not talker.the_channel_is_gone
          && ltb (since now talker.heard_from) (from_secs live.ladder.disconnected))
        && contains talker.arms held_on
        && not (session == talker.id)
        && any
            (λ x.
              x.id == session
              && (contains x.subscriptions held_on
                  && not (contains x.mutes held_on)
                  && any (λ within. within.id == held_on) x.reach))
            live.sessions
unfolding who_hears
reaches-who_hears live talker now session held_on =
    fan_out
    ∙ ap₂
        (λ up hearing.
          up
          && contains talker.arms held_on
          && not (session == talker.id)
          && any hearing live.sessions)
        (carries_emission-connection talker live.ladder now)
        (fun_ext (λ x. ap (λ hears_it. x.id == session && hears_it) (hears_lem x held_on)))
  where
    fan_out :
        reaches session held_on (who_hears live talker now)
        ≡ carries_emission (connection talker live.ladder now)
          && contains talker.arms held_on
          && not (session == talker.id)
          && any (λ x. x.id == session && hears x held_on) live.sessions
    fan_out = elim (Bool-cases (carries_emission (connection talker live.ladder now))) [
      | inl up ↦
          rw (up, who_hears) (reaches-arms talker.id session held_on live.sessions talker.arms)
      | inr down ↦ rw (down, who_hears)
    ]

-- A change that leaves a session's name, arms, hearing and connection alone.
record IsQuiet (f : Session → Session) : Type 0 where
  pub same_id : (x : Session) → (f x).id ≡ x.id
  pub same_arms : (x : Session) → (f x).arms ≡ x.arms
  pub same_hearing : (x : Session) (held_on : LoopId) → hears (f x) held_on ≡ hears x held_on
  pub same_connection :
      (x : Session) (by : Ladder) (now : Instant) → connection (f x) by now ≡ connection x by now
