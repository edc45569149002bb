-- ===== src/Transport/Signalling/Permitted.antt =====
-- Which messages act at all (src/transport/signalling.rs, received).
use voxloop.Prelude.{◌≡◌, ◌⊎◌, refl, ap, inl, inr, some}
use voxloop.Names.{UserId, SignInToken}
use voxloop.Authorisation.{
  Directory, Answer, ok, unavailable, public, Outcome, permitted, refused, nobody, user, evaluate,
}
use voxloop.Authorisation.Entitlement.{IsEntitled}
use voxloop.Authorisation.Laws.{evaluate-permitted, evaluate-nobody}
use voxloop.Transport.Signalling.Messages.{Incoming, requirement}
use voxloop.Transport.Signalling.Scene.{
  Given, Scene, carry, forecast, passed, directory, presented, is_permitted, permitted_to,
}
use voxloop.Transport.Signalling.Received.{ruled, received}

-- No message is open to everybody.
never_public : (message : Incoming) → requirement message ≡ public → ⊥
unfolding requirement
never_public Incoming.heartbeat e = cc
never_public Incoming.hello e = cc
never_public Incoming.relinquish e = cc
never_public Incoming.key e = cc
never_public Incoming.unkey e = cc
never_public Incoming.key_priority e = cc
never_public Incoming.unkey_priority e = cc
never_public Incoming.off_console e = cc
never_public Incoming.on_console e = cc
never_public (Incoming.assume _) e = cc
never_public (Incoming.subscribe _) e = cc
never_public (Incoming.unsubscribe _) e = cc
never_public (Incoming.arm _) e = cc
never_public (Incoming.disarm _) e = cc
never_public (Incoming.mute _) e = cc
never_public (Incoming.unmute _) e = cc
never_public (Incoming.media_path _) e = cc
never_public (Incoming.media_can_decode _) e = cc
never_public (Incoming.media_speaks _) e = cc
never_public (Incoming.media_hears _) e = cc
never_public (Incoming.media_connect _ _) e = cc
never_public (Incoming.set_volume _ _) e = cc
never_public (Incoming.beacons_counted _) e = cc

-- What the store answers the evaluator, for the message that comes next.
abbrev pub asked_of : Given → Scene → Directory
asked_of at s = directory at s.tables (forecast s.weather).0

-- A message changes nothing at all, the state authority, the store, the log, the media plane and
-- what the socket holds included, unless the rules entitle somebody, by the sign-in and the session
-- of this socket, to what the message requires: a signed-in user, their own session, or a role of
-- theirs that holds the rung on the loop.
pub received-IsEntitled :
    (at : Given) (message : Incoming) (s : Scene)
    → ((received at (some message) s).0 ≡ passed s)
      ⊎ ((id : UserId) × (token : SignInToken) × IsEntitled
            (asked_of at s)
            s.live
            (presented s.own)
            id
            token
            (requirement message))
unfolding received permitted_to
received-IsEntitled at message s =
    go (evaluate (asked_of at s) (requirement message) (presented s.own) s.live) refl
  where
    go :
        (outcome : Answer Outcome)
        → evaluate (asked_of at s) (requirement message) (presented s.own) s.live ≡ outcome
        → ((received at (some message) s).0 ≡ passed s)
          ⊎ ((id : UserId) × (token : SignInToken) × IsEntitled
                (asked_of at s)
                s.live
                (presented s.own)
                id
                token
                (requirement message))
    go (ok (permitted (user id token))) e = inr (
      id,
      token,
      evaluate-permitted (asked_of at s) (requirement message) (presented s.own) s.live id token e,
    )
    go (ok (permitted nobody)) e = absurd (
        never_public message
          ((evaluate-nobody (asked_of at s) (requirement message) (presented s.own) s.live).0.0
            e).0)
    go (ok refused) e = inl (ap (λ o. (carry (ruled at message) (passed s, is_permitted o)).0) e)
    go unavailable e = inl (ap (λ o. (carry (ruled at message) (passed s, is_permitted o)).0) e)
