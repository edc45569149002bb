-- ===== src/State/Displacement.antt =====
-- What an assume grants, whom it displaces, and what relinquishing leaves (src/state.rs, assume,
-- ended_by_its_own_holder and why_it_ended).
use voxloop.Prelude.{
  ◌<◌, ◌≡◌, refl, ◌∙◌, Bool, true, false, ◌&&◌, ◌==◌, ==-refl, ltb, List, [], ◌∷◌, ◌++◌, map,
  All-map, All-retain, none, some, find, find-passes, contains, contains-removed, find-key-contains,
  remove_first, retain, NoneOf, find-NoneOf, any-NoneOf, find-push, remove-push, retain-push,
  any-push, find-update, NoneOf-key, arith,
}
use voxloop.Names.{SessionId, UserId, Instant, since}
use voxloop.State.Documents.{InReach, StaffedBy}
use voxloop.State.Session.{Session, take_the_arms_out_of_reach}
use voxloop.State.Live.{
  Live, Tombstone, tombstones_are_kept_for, assumed_elsewhere, relinquished, ended, remember,
  forget_the_old_tombstones,
}
use voxloop.State.Seats.{
  Assuming, assumed, seated, displace, take_the_seat, assume, is_full, ended_by_its_own_holder,
  why_it_ended, forget_tombstones_of, is_held_by, the_role_of,
}
use voxloop.State.Projections.{presence, brought_within}
use voxloop.State.Console.{is_named, session_of}
use voxloop.State.Occupancy.{AreSeated, IsFresh, IsReady}
use voxloop.State.Occupancy.Taking.{seat-IsReady}

-- A session that was just pushed is the one its name and its occupant find.
pub pushed-is_held :
    (s : Session) (live : Live)
    → IsReady s.id s.occupant live
    → let next = record live { sessions = live.sessions ++ s ∷ [] } in
      (is_held_by next s.id s.occupant ≡ true)
      × (the_role_of next s.id ≡ some s.role)
      × ((other : SessionId) → is_held_by next other s.occupant ≡ true → other ≡ s.id)
unfolding is_held_by the_role_of
pushed-is_held s live ready = (
  any-push _ live.sessions s unnamed ∙ ground (arith, ==-refl s.id, ==-refl s.occupant),
  rw
      (find-push (λ x. x.id == s.id) live.sessions s
        (NoneOf-key (λ x. x.id) _ s.id live.sessions (λ x h. h) ready.fresh.not_live)
        (==-refl s.id))
      refl,
  λ other h. ground (
    arith,
    any-push (λ x. x.id == other && x.occupant == s.occupant) live.sessions s
        (NoneOf-key (λ x. x.occupant) _ s.occupant live.sessions (λ x e. ground arith)
          ready.unseated),
  ),
)
  where
    unnamed : NoneOf (λ x. x.id == s.id && x.occupant == s.occupant) live.sessions
    unnamed = NoneOf-key (λ x. x.id) _ s.id live.sessions (λ x e. ground arith) ready.fresh.not_live

-- Where the limit leaves room, the caller holds the minted session, in the role that was asked for,
-- and holds no other: whatever they held before is over.
pub assume-is_held_by :
    (minted : SessionId) (assuming : Assuming) (now : Instant) (live : Live)
    → AreSeated live
    → IsFresh minted live
    → is_full assuming live.sessions ≡ none
    → let next = (assume minted assuming now live).0 in
      (is_held_by next minted assuming.occupant ≡ true)
      × (the_role_of next minted ≡ some assuming.role)
      × ((other : SessionId) → is_held_by next other assuming.occupant ≡ true → other ≡ minted)
unfolding assume take_the_seat seated
assume-is_held_by minted assuming now live h fresh room =
    rw (room, assume)
      (pushed-is_held (seated minted assuming now) _
        (seat-IsReady minted assuming.occupant now live h fresh))

abbrev young_at : Instant → Tombstone → Bool
young_at later t = ltb (since later t.at) tombstones_are_kept_for

abbrev of_session : SessionId → Tombstone → Bool
of_session session t = t.session == session

why_it_ended-some :
    (session : SessionId) (later : Instant) (live : Live) (t : Tombstone)
    → find (of_session session) (retain (young_at later) live.tombstones) ≡ some t
    → why_it_ended session later live ≡ (
      record live {
        tombstones = remove_first (of_session session) (retain (young_at later) live.tombstones);
      },
      some t.why,
    )
unfolding why_it_ended forget_the_old_tombstones
why_it_ended-some session later live t e = rw (e, why_it_ended)

pub why_it_ended-none :
    (session : SessionId) (later : Instant) (live : Live)
    → NoneOf (of_session session) live.tombstones
    → (why_it_ended session later live).1 ≡ none
unfolding why_it_ended forget_the_old_tombstones
why_it_ended-none session later live unnamed =
    rw (find-NoneOf _ _ (All-retain _ (young_at later) live.tombstones unnamed), why_it_ended)

-- A tombstone that is young enough is read once, and then it is gone.
why_it_ended_once :
    (session : SessionId) (later after : Instant) (t : Tombstone) (rest : List Tombstone)
    (live : Live)
    → live.tombstones ≡ rest ++ t ∷ []
    → t.session ≡ session
    → since later t.at < tombstones_are_kept_for
    → NoneOf (of_session session) rest
    → ((why_it_ended session later live).1 ≡ some t.why)
      × ((why_it_ended session after (why_it_ended session later live).0).1 ≡ none)
why_it_ended_once session later after t rest live shape named young unnamed =
    rw (why_it_ended-some session later live t found)
      (refl, why_it_ended-none session after _ (rw (kept, gone) left))
  where
    left : NoneOf (of_session session) (retain (young_at later) rest)
    left = All-retain _ (young_at later) rest unnamed

    kept : retain (young_at later) live.tombstones ≡ retain (young_at later) rest ++ t ∷ []
    kept = rw shape (retain-push (young_at later) rest t (ground arith))

    found : find (of_session session) (retain (young_at later) live.tombstones) ≡ some t
    found =
        rw kept
          (find-push (of_session session) (retain (young_at later) rest) t left (ground arith))

    gone :
        remove_first (of_session session) (retain (young_at later) rest ++ t ∷ [])
        ≡ retain (young_at later) rest
    gone = remove-push (of_session session) (retain (young_at later) rest) t left (ground arith)

-- The user's session that is displaced by an assume comes back in its answer, and whoever asks
-- within fifteen minutes is told that it was assumed elsewhere, once: a second question, at any
-- time, has no answer.
pub assume-why_it_ended :
    (minted : SessionId) (assuming : Assuming) (now later after : Instant) (live : Live)
    (held : Session)
    → AreSeated live
    → is_full assuming live.sessions ≡ none
    → find (λ s. s.occupant == assuming.occupant) live.sessions ≡ some held
    → since later now < tombstones_are_kept_for
    → let next = (assume minted assuming now live).0 in
      ((assume minted assuming now live).1
        ≡ assumed
            (record { session = minted; displaced = some (ended held assumed_elsewhere now) }))
      × ((why_it_ended held.id later next).1 ≡ some assumed_elsewhere)
      × ((why_it_ended held.id after (why_it_ended held.id later next).0).1 ≡ none)
unfolding assume take_the_seat displace ended remember forget_the_old_tombstones
assume-why_it_ended minted assuming now later after live held h room there soon =
    let told =
      why_it_ended_once held.id later after
        (record { session = held.id; occupant = held.occupant; why = assumed_elsewhere; at = now })
        (retain (young_at now) (forget_tombstones_of assuming.occupant live).tombstones)
        (assume minted assuming now live).0 (rw (room, assume) (rw (there, displace) refl)) refl
        soon (All-retain _ (young_at now) _ (All-retain _ _ live.tombstones unnamed)) in
    (rw (room, assume) (rw (there, displace) refl), told.0, told.1)
  where
    unnamed : NoneOf (of_session held.id) live.tombstones
    unnamed =
        All-map (λ t over. ground (arith, find-key-contains (λ s. s.id) _ live.sessions held there))
          live.tombstones h.tombstones_over

presence-none :
    (session : SessionId) (within : List InReach) (staffed : List StaffedBy) (now : Instant)
    (live : Live)
    → session_of live session ≡ none
    → (presence session within staffed now live).1 ≡ none
unfolding presence brought_within take_the_arms_out_of_reach
presence-none session within staffed now live nobody =
    rw (find-update (is_named session) (brought_within within) live.sessions (λ x e. e), presence)
      (rw (nobody, presence))

-- Giving a role up answers with what was given up, and leaves nothing: the session is held by
-- nobody, has no role and no presence document, its ending cannot be repeated, and no tombstone of
-- it stands.
pub ended_by_its_own_holder-is_held_by :
    (session : SessionId) (now later : Instant) (live : Live) (held : Session)
    → AreSeated live
    → find (λ s. s.id == session) live.sessions ≡ some held
    → let (next, answer) = ended_by_its_own_holder session now live in
      (answer ≡ some (ended held relinquished now))
      × ((user : UserId) → is_held_by next session user ≡ false)
      × (the_role_of next session ≡ none)
      × ((within : List InReach) (staffed : List StaffedBy)
          → (presence session within staffed later next).1 ≡ none)
      × ((ended_by_its_own_holder session later next).1 ≡ none)
      × ((why_it_ended session later next).1 ≡ none)
unfolding ended_by_its_own_holder is_held_by the_role_of presence
ended_by_its_own_holder-is_held_by session now later live held h there =
    rw (there, ended_by_its_own_holder)
      (
        refl,
        λ user.
            any-NoneOf _ left (NoneOf-key (λ s. s.id) _ session left (λ x e. ground arith) gone),
        rw nobody refl,
        λ within staffed. presence-none session within staffed later _ nobody,
        rw (nobody, ended_by_its_own_holder) refl,
        why_it_ended-none session later _ unnamed,
      )
  where
    left : List Session
    left = remove_first (λ s. s.id == session) live.sessions

    gone : contains (map (λ s. s.id) left) session ≡ false
    gone = contains-removed (λ s. s.id) session live.sessions h.one_id_each

    nobody : find (λ s. s.id == session) left ≡ none
    nobody = find-NoneOf _ left (NoneOf-key (λ s. s.id) _ session left (λ x e. e) gone)

    unnamed : NoneOf (of_session session) live.tombstones
    unnamed =
        All-map
          (λ t over. ground (
            arith,
            find-passes (λ s. s.id == session) live.sessions held there,
            find-key-contains (λ s. s.id) _ live.sessions held there,
          ))
          live.tombstones h.tombstones_over
