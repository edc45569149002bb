-- ===== src/State/Pressing.antt =====
-- What leaves a press of the priority key held: everything but its release, the end of its channel
-- and the end of its session (src/state.rs, the struct Pressing).
pub mod Kept
use voxloop.Prelude.{
  ◌≡◌, ◌≢◌, refl, ◌∙◌, ◌⊎◌, Bool, true, false, Option, none, some, List, [], ◌∷◌, ◌++◌, map, All,
  find, update_first, remove_first, ◌==◌, arith, Bool-cases, Option-cases, inl, inr, subst, sym,
}
use voxloop.Names.{SessionId, UserId, RoleId, Instant}
use voxloop.State.Session.{Session, Pressing, let_go, take_the_arms_out_of_reach}
use voxloop.State.Documents.{InReach, StaffedBy}
use voxloop.State.Live.{Live, ended, remember}
use voxloop.State.Seats.{
  Assuming, assume, take_the_seat, displace, seated, is_full, ended_by_its_own_holder, why_it_ended,
}
use voxloop.State.Console.{
  is_named, session_of, change, subscribe, subscribed, unsubscribe, unsubscribed, mute, muted,
  unmute, unmuted, arm, armed, disarm, off_console, a_deliberate_act, set_the_volume,
  the_client_keys, the_client_unkeys, the_client_keys_priority, the_client_unkeys_priority,
  pressed_down, keying,
}
use voxloop.State.Channel.{
  the_client_is_there, heard_from_now, the_client_counted, the_channel_is_gone, the_client_says,
  the_server_sees, nothing_is_carried, unseen,
}
use voxloop.State.Projections.{
  presence, brought_within, published, document, the_routing_if_it_moved, the_beacons_if_they_moved,
}
use voxloop.State.Acts.{
  Request, Act, subscribes, unsubscribes, mutes, unmutes, arms, disarms, goes_off_console, acts,
  keys, unkeys, unkeys_priority, heartbeats, closes, sets_the_volume, keys_priority, counts, says,
  sees, presents, assumes, relinquishes, asks_why, requests, routes, beacons, carries_nothing, step,
  serve,
}
use voxloop.State.History.{run, why_it_ended-sessions}

-- An act that neither releases the session's priority key, nor closes its channel, nor ends it.
abbrev pub LeavesThePress : SessionId → UserId → Act → Type 0
LeavesThePress session user (assumes minted assuming) = assuming.occupant ≢ user
LeavesThePress session user (relinquishes s) = s ≢ session
LeavesThePress session user (requests s unkeys_priority) = s ≢ session
LeavesThePress session user (requests s closes) = s ≢ session
LeavesThePress session user _ = Unit

module _ (session : SessionId) (user : UserId) (role : RoleId) (press : Pressing) where
  -- The session of that name, in its user's hands, with the press held.
  pub record HoldsThePress (x : Session) : Type 0 where
    pub named : x.id ≡ session
    pub occupied_by : x.occupant ≡ user
    pub in_role : x.role ≡ role
    pub held : x.pressing ≡ some press

  abbrev pub IsPressing : List Session → Type 0
  IsPressing xs = (x : Session) × (find (is_named session) xs ≡ some x) × HoldsThePress x

  first : (y : Session) (ys : List Session) → HoldsThePress y → IsPressing (y ∷ ys)
  first y ys holds = (y, ground arith, holds)

  later :
      (y : Session) (ys : List Session)
      → is_named session y ≡ false
      → IsPressing ys
      → IsPressing (y ∷ ys)
  later y ys other (x, there, holds) = (x, ground arith, holds)

  first_or_later :
      (y : Session) (ys : List Session)
      → IsPressing (y ∷ ys)
      → HoldsThePress y ⊎ ((is_named session y ≡ false) × IsPressing ys)
  first_or_later y ys (x, there, holds) = elim (Bool-cases (is_named session y)) [
    | inl this ↦ let same : x ≡ y = ground arith in inl (subst HoldsThePress same holds)
    | inr other ↦ inr (other, (x, ground arith, holds))
  ]

  pub IsPressing-update :
      (s : SessionId) (f : Session → Session)
      → ((x : Session) → (f x).id ≡ x.id)
      → ((x : Session) → HoldsThePress x → is_named s x ≡ true → HoldsThePress (f x))
      → (xs : List Session) → IsPressing xs
      → IsPressing (update_first (is_named s) f xs)
  IsPressing-update s f same keep [] (x, there, holds) = cc
  IsPressing-update s f same keep (y ∷ ys) h = elim (Bool-cases (is_named s y)) [
    | inl changed ↦ rw changed (elim (first_or_later y ys h) [
      | inl holds ↦ first (f y) ys (keep y holds changed)
      | inr (other, rest) ↦ later (f y) ys (rw (same y) other) rest
    ])
    | inr kept ↦ rw kept (elim (first_or_later y ys h) [
      | inl holds ↦ first y _ holds
      | inr (other, rest) ↦ later y _ other (IsPressing-update s f same keep ys rest)
    ])
  ]

  pub IsPressing-remove :
      (p : Session → Bool)
      → ((x : Session) → HoldsThePress x → p x ≡ false)
      → (xs : List Session) → IsPressing xs
      → IsPressing (remove_first p xs)
  IsPressing-remove p spared [] (x, there, holds) = cc
  IsPressing-remove p spared (y ∷ ys) h = elim (first_or_later y ys h) [
    | inl holds ↦ rw (spared y holds) (first y _ holds)
    | inr (other, rest) ↦ elim (Bool-cases (p y)) [
      | inl removed ↦ rw removed rest
      | inr kept ↦ rw kept (later y _ other (IsPressing-remove p spared ys rest))
    ]
  ]

  pub IsPressing-push :
      (y : Session) (xs : List Session) → IsPressing xs → IsPressing (xs ++ y ∷ [])
  IsPressing-push y [] (x, there, holds) = cc
  IsPressing-push y (z ∷ zs) h = elim (first_or_later z zs h) [
    | inl holds ↦ first z _ holds
    | inr (other, rest) ↦ later z _ other (IsPressing-push y zs rest)
  ]

  pub IsPressing-unseen : (xs : List Session) → IsPressing xs → IsPressing (map unseen xs)
  IsPressing-unseen [] (x, there, holds) = cc
  IsPressing-unseen (z ∷ zs) h = elim (first_or_later z zs h) [
    | inl holds ↦ first (unseen z) _ (ground arith)
    | inr (other, rest) ↦ later (unseen z) _ other (IsPressing-unseen zs rest)
  ]

  -- A change that says nothing of a press, nor of whose session it is.
  pub untouched :
      (s : SessionId) (f : Session → Session) (live : Live)
      → ((x : Session) → (f x).id ≡ x.id)
      → ((x : Session) → (f x).occupant ≡ x.occupant)
      → ((x : Session) → (f x).role ≡ x.role)
      → ((x : Session) → (f x).pressing ≡ x.pressing)
      → IsPressing live.sessions
      → IsPressing (change s f live).sessions
  untouched s f live same_id same_occupant same_role same_press =
      IsPressing-update s f same_id
        (λ x h _. record {
          named = same_id x ∙ h.named;
          occupied_by = same_occupant x ∙ h.occupied_by;
          in_role = same_role x ∙ h.in_role;
          held = same_press x ∙ h.held;
        })
        live.sessions

  -- A change of another session.
  pub of_another :
      (s : SessionId) (f : Session → Session) (live : Live)
      → ((x : Session) → (f x).id ≡ x.id)
      → s ≢ session
      → IsPressing live.sessions
      → IsPressing (change s f live).sessions
  of_another s f live same other =
      IsPressing-update s f same (λ x h at_it. absurd (other (ground (arith, h.named))))
        live.sessions
