-- ===== src/State/Versions.antt =====
-- The presence document: its version, and what a reach takes (src/state.rs, presence).
use voxloop.Prelude.{
  ℕ, ◌+◌, ◌≡◌, ◌≢◌, refl, ap, ◌∙◌, List, some, find-update, retain, is_the_last, is_the_last_sound,
  is_the_last_complete, arith, Bool-cases, inl, inr,
}
use mathlib.Core.Option as Option
use voxloop.Names.{SessionId, Instant, u64}
use voxloop.State.Documents.{InReach, StaffedBy, Presence, Presence-discrete}
use voxloop.State.Session.{Session, take_the_arms_out_of_reach, may_emit}
use voxloop.State.Live.{Live}
use voxloop.State.Console.{is_named, session_of, change}
use voxloop.State.Projections.{presence, published, brought_within, document}

-- What is written to a session that stands is what is found there next.
pub session_of-change :
    (session : SessionId) (f : Session → Session) (live : Live) (held : Session)
    → ((x : Session) → (f x).id ≡ x.id)
    → session_of live session ≡ some held
    → session_of (change session f live) session ≡ some (f held)
session_of-change session f live held same there =
    find-update (is_named session) f live.sessions (λ x e. rw (same x) e) ∙ ap (Option.map f) there

published-id : (said : Presence) (x : Session) → (published said x).id ≡ x.id
unfolding published
published-id said x = ground arith

brought_within-id : (within : List InReach) (x : Session) → (brought_within within x).id ≡ x.id
unfolding brought_within take_the_arms_out_of_reach
brought_within-id within x = refl

-- The document that `presence` gives, for a session that stands.
abbrev pub said_of : SessionId → List InReach → List StaffedBy → Instant → Live → Session → Presence
said_of session within staffed now live held =
    document (change session (brought_within within) live) staffed (brought_within within held) now

pub presence-some :
    (session : SessionId) (within : List InReach) (staffed : List StaffedBy) (now : Instant)
    (live : Live) (held : Session)
    → session_of live session ≡ some held
    → let said = said_of session within staffed now live held in
      presence session within staffed now live ≡ (
        change session (published said) (change session (brought_within within) live),
        some ((published said (brought_within within held)).version, said),
      )
unfolding presence
presence-some session within staffed now live held there = rw (
  session_of-change session (brought_within within) live held (brought_within-id within) there,
  presence,
)

published-last : (said : Presence) (x : Session) → (published said x).last ≡ some said
unfolding published
published-last said x = elim (Bool-cases (is_the_last Presence-discrete x.last said)) [
  | inl same ↦ rw (same, published) (is_the_last_sound Presence-discrete x.last said same)
  | inr moved ↦ rw (moved, published) refl
]

published-same :
    (said : Presence) (x : Session) → x.last ≡ some said → (published said x).version ≡ x.version
unfolding published
published-same said x e = rw (is_the_last_complete Presence-discrete x.last said e, published) refl

published-moved :
    (said : Presence) (x : Session)
    → x.last ≢ some said
    → (published said x).version ≡ u64 (x.version + 1)
unfolding published
published-moved said x ne = elim (Bool-cases (is_the_last Presence-discrete x.last said)) [
  | inl same ↦ absurd (ne (is_the_last_sound Presence-discrete x.last said same))
  | inr moved ↦ rw (moved, published) refl
]

-- The version of a session's document moves, by one, exactly when the document is not the one that
-- the session was last given; the document is then the one that the session keeps.
pub presence-version :
    (session : SessionId) (within : List InReach) (staffed : List StaffedBy) (now : Instant)
    (live : Live) (held : Session)
    → session_of live session ≡ some held
    → let said = said_of session within staffed now live held in
      let (next, answer) = presence session within staffed now live in
      (v : ℕ) × (kept : Session) × (answer ≡ some (v, said))
      × (session_of next session ≡ some kept)
      × (kept.version ≡ v)
      × (kept.last ≡ some said)
      × (held.last ≡ some said → v ≡ held.version)
      × (held.last ≢ some said → v ≡ u64 (held.version + 1))
unfolding brought_within take_the_arms_out_of_reach
presence-version session within staffed now live held there =
    let narrowed = brought_within within held in
    let said = said_of session within staffed now live held in
    rw (presence-some session within staffed now live held there) (
      (published said narrowed).version,
      published said narrowed,
      refl,
      session_of-change session (published said) (change session (brought_within within) live)
          narrowed (published-id said)
          (session_of-change session (brought_within within) live held (brought_within-id within)
            there),
      refl,
      published-last said narrowed,
      published-same said narrowed,
      published-moved said narrowed,
    )

published-arms : (said : Presence) (x : Session) → (published said x).arms ≡ x.arms
unfolding published
published-arms said x = ground arith

published-reach : (said : Presence) (x : Session) → (published said x).reach ≡ x.reach
unfolding published
published-reach said x = ground arith

published-subscriptions :
    (said : Presence) (x : Session) → (published said x).subscriptions ≡ x.subscriptions
unfolding published
published-subscriptions said x = ground arith

published-mutes : (said : Presence) (x : Session) → (published said x).mutes ≡ x.mutes
unfolding published
published-mutes said x = ground arith

-- What one document leaves of a session.
presence-kept :
    (session : SessionId) (within : List InReach) (staffed : List StaffedBy) (now : Instant)
    (live : Live) (held : Session)
    → session_of live session ≡ some held
    → (kept : Session) × (session_of (presence session within staffed now live).0 session
        ≡ some kept)
      × (kept.arms ≡ retain (may_emit within) held.arms)
      × (kept.reach ≡ within)
      × (kept.subscriptions ≡ held.subscriptions)
      × (kept.mutes ≡ held.mutes)
unfolding brought_within take_the_arms_out_of_reach
presence-kept session within staffed now live held there =
    let narrowed = brought_within within held in
    let said = said_of session within staffed now live held in
    rw (presence-some session within staffed now live held there) (
      published said narrowed,
      session_of-change session (published said) (change session (brought_within within) live)
          narrowed (published-id said)
          (session_of-change session (brought_within within) live held (brought_within-id within)
            there),
      published-arms said narrowed,
      published-reach said narrowed,
      published-subscriptions said narrowed,
      published-mutes said narrowed,
    )

-- A reach takes the arms that it may not emit on, and for good: after a document within a narrower
-- reach, a later one within a wider reach arms only what both let through. Subscriptions and mutes
-- are kept whatever the reach.
pub presence-arms :
    (session : SessionId) (within later_within : List InReach) (staffed : List StaffedBy)
    (now later : Instant) (live : Live) (held : Session)
    → session_of live session ≡ some held
    → let next = (presence session within staffed now live).0 in
      (kept : Session) × (session_of (presence session later_within staffed later next).0 session
        ≡ some kept)
      × (kept.arms ≡ retain (may_emit later_within) (retain (may_emit within) held.arms))
      × (kept.reach ≡ later_within)
      × (kept.subscriptions ≡ held.subscriptions)
      × (kept.mutes ≡ held.mutes)
presence-arms session within later_within staffed now later live held there =
    let one = presence-kept session within staffed now live held there in
    let two = presence-kept session later_within staffed later _ one.0 one.1 in
    (
      two.0,
      two.1,
      two.2 ∙ ap (retain (may_emit later_within)) one.2,
      two.3,
      two.4 ∙ one.4,
      two.5 ∙ one.5,
    )
