-- ===== src/State/Pressing/Kept.antt =====
-- A press of the priority key stays held through every act that leaves it (src/state.rs).
use voxloop.Prelude.{
  ◌≡◌, true, ◌≢◌, refl, List, [], ◌∷◌, All, find, ◌==◌, arith, Option-cases, inl, inr, subst, sym,
}
use voxloop.Names.{SessionId, UserId, RoleId, Instant}
use voxloop.State.Session.{Session, Pressing, let_go, take_the_arms_out_of_reach}
use voxloop.State.Documents.{InReach, StaffedBy}
use voxloop.State.Live.{Live, remember}
use voxloop.State.Seats.{
  Assuming, assume, take_the_seat, displace, is_full, ended_by_its_own_holder,
}
use voxloop.State.Console.{
  session_of, change, subscribe, subscribed, unsubscribe, unsubscribed, mute, muted, unmute,
  unmuted, arm, armed, disarm, off_console, a_deliberate_act, set_the_volume, the_client_keys,
  the_client_unkeys, the_client_keys_priority, the_client_unkeys_priority, pressed_down, keying,
}
use voxloop.State.Channel.{
  the_client_is_there, heard_from_now, the_client_counted, the_channel_is_gone, the_client_says,
  the_server_sees, nothing_is_carried,
}
use voxloop.State.Projections.{
  presence, brought_within, published, document, the_routing_if_it_moved, the_beacons_if_they_moved,
}
use voxloop.State.Acts.{
  Request, Act, subscribes, mutes, arms, unkeys_priority, closes, keys_priority, presents, assumes,
  relinquishes, asks_why, requests, routes, beacons, carries_nothing, step, serve,
}
use voxloop.State.Pressing.{
  LeavesThePress, HoldsThePress, IsPressing, untouched, of_another, IsPressing-update,
  IsPressing-push, IsPressing-remove, IsPressing-unseen,
}
use voxloop.State.History.{run, why_it_ended-sessions}

module _ (session : SessionId) (user : UserId) (role : RoleId) (press : Pressing) where
  pressed_down-HoldsThePress :
      (now wall_clock : Instant) (x : Session)
      → HoldsThePress session user role press x
      → HoldsThePress session user role press (pressed_down now wall_clock x)
  unfolding pressed_down
  pressed_down-HoldsThePress now wall_clock x h =
      let same : pressed_down now wall_clock x ≡ x = ground (arith, h.held) in
      subst (HoldsThePress session user role press) (sym same) h

  presence-IsPressing :
      (s : SessionId) (within : List InReach) (staffed : List StaffedBy) (now : Instant)
      (live : Live)
      → IsPressing session user role press live.sessions
      → IsPressing session user role press (presence s within staffed now live).0.sessions
  unfolding presence brought_within take_the_arms_out_of_reach published
  presence-IsPressing s within staffed now live h =
      let narrowed = change s (brought_within within) live in
      let brought =
        untouched session user role press s (brought_within within) live (λ x. refl) (λ x. refl)
          (λ x. refl) (λ x. refl) h in
      elim (Option-cases (session_of narrowed s)) [
        | inl nobody ↦ rw (nobody, presence) brought
        | inr (held, there) ↦
            rw (there, presence)
              (untouched session user role press s (published (document narrowed staffed held now))
                narrowed (λ x. ground arith) (λ x. ground arith) (λ x. ground arith)
                (λ x. ground arith) brought)
      ]

  serve-IsPressing :
      (s : SessionId) (now : Instant) (request : Request) (live : Live)
      → LeavesThePress session user (requests s request)
      → IsPressing session user role press live.sessions
      → IsPressing session user role press (serve s now request live).sessions
  unfolding serve subscribe subscribed unsubscribe unsubscribed mute muted unmute unmuted arm armed
      disarm off_console a_deliberate_act set_the_volume the_client_keys the_client_unkeys keying
      the_client_keys_priority the_client_unkeys_priority pressed_down let_go the_client_is_there
      heard_from_now the_client_counted the_channel_is_gone the_client_says the_server_sees
  serve-IsPressing s now unkeys_priority live leaves h =
      of_another session user role press s (λ held. (let_go now held).0) live (λ x. refl) leaves h
  serve-IsPressing s now closes live leaves h =
      of_another session user role press s
        (λ held. (let_go now (record held { the_channel_is_gone = true })).0) live (λ x. refl)
        leaves h
  serve-IsPressing s now (keys_priority wall_clock) live leaves h =
      IsPressing-update session user role press s (pressed_down now wall_clock) (λ x. ground arith)
        (λ x holds _. pressed_down-HoldsThePress now wall_clock x holds) live.sessions h
  serve-IsPressing s now (presents within staffed) live leaves h =
      presence-IsPressing s within staffed now live h
  serve-IsPressing s now (subscribes l) live leaves h =
      untouched session user role press s (subscribed l now) live (λ x. ground arith)
        (λ x. ground arith) (λ x. ground arith) (λ x. ground arith) h
  serve-IsPressing s now (mutes l) live leaves h =
      untouched session user role press s (muted l) live (λ x. ground arith) (λ x. ground arith)
        (λ x. ground arith) (λ x. ground arith) h
  serve-IsPressing s now (arms l) live leaves h =
      untouched session user role press s (armed l) live (λ x. ground arith) (λ x. ground arith)
        (λ x. ground arith) (λ x. ground arith) h
  serve-IsPressing s now _ live leaves h =
      untouched session user role press s _ live (λ x. refl) (λ x. refl) (λ x. refl) (λ x. refl) h

  assume-IsPressing :
      (minted : SessionId) (assuming : Assuming) (now : Instant) (live : Live)
      → assuming.occupant ≢ user
      → IsPressing session user role press live.sessions
      → IsPressing session user role press (assume minted assuming now live).0.sessions
  unfolding assume take_the_seat displace remember
  assume-IsPressing minted assuming now live another h =
      elim (Option-cases (is_full assuming live.sessions)) [
        | inr (limit, full) ↦ rw (full, assume) h
        | inl room ↦
            elim (Option-cases (find (λ x. x.occupant == assuming.occupant) live.sessions)) [
              | inl nobody ↦
                  rw (room, assume)
                    (rw (nobody, displace) (IsPressing-push session user role press _ _ h))
              | inr (gone, there) ↦
                  rw (room, assume)
                    (rw (there, displace)
                      (IsPressing-push session user role press _ _ (
                        IsPressing-remove session user role press _
                          (λ x holds. ground (arith, holds.occupied_by, another)) live.sessions h)))
            ]
      ]

  ended-IsPressing :
      (s : SessionId) (now : Instant) (live : Live)
      → s ≢ session
      → IsPressing session user role press live.sessions
      → IsPressing session user role press (ended_by_its_own_holder s now live).0.sessions
  unfolding ended_by_its_own_holder
  ended-IsPressing s now live another h =
      elim (Option-cases (find (λ x. x.id == s) live.sessions)) [
        | inl nobody ↦ rw (nobody, ended_by_its_own_holder) h
        | inr (gone, there) ↦
            rw (there, ended_by_its_own_holder)
              (IsPressing-remove session user role press _
                (λ x holds. ground (arith, holds.named, another)) live.sessions h)
      ]

  same-IsPressing :
      (before after : List Session)
      → after ≡ before
      → IsPressing session user role press before
      → IsPressing session user role press after
  same-IsPressing before after same h = subst (IsPressing session user role press) (sym same) h

  step-IsPressing :
      (e : Instant × Act) (live : Live)
      → LeavesThePress session user e.1
      → IsPressing session user role press live.sessions
      → IsPressing session user role press (step e live).sessions
  unfolding step the_routing_if_it_moved the_beacons_if_they_moved nothing_is_carried
  step-IsPressing (now, assumes minted assuming) live leaves h =
      assume-IsPressing minted assuming now live leaves h
  step-IsPressing (now, relinquishes s) live leaves h = ended-IsPressing s now live leaves h
  step-IsPressing (now, asks_why s) live leaves h =
      same-IsPressing live.sessions _ (why_it_ended-sessions s now live) h
  step-IsPressing (now, requests s request) live leaves h =
      serve-IsPressing s now request live leaves h
  step-IsPressing (now, routes) live leaves h = same-IsPressing live.sessions _ (ground arith) h
  step-IsPressing (now, beacons) live leaves h = same-IsPressing live.sessions _ (ground arith) h
  step-IsPressing (now, carries_nothing) live leaves h =
      IsPressing-unseen session user role press live.sessions h

  pub run-IsPressing :
      (es : List (Instant × Act)) (live : Live)
      → All (λ e. LeavesThePress session user e.1) es
      → IsPressing session user role press live.sessions
      → IsPressing session user role press (run es live).sessions
  unfolding run
  run-IsPressing [] live leaves h = h
  run-IsPressing (e ∷ es) live leaves h =
      run-IsPressing es (step e live) leaves.1 (step-IsPressing e live leaves.0 h)
