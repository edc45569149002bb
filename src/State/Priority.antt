-- ===== src/State/Priority.antt =====
-- The priority key: what a press leaves, and what a document says of it (src/state.rs,
-- the_client_keys_priority, the_client_unkeys_priority and presence).
use voxloop.Prelude.{
  ℕ, ◌≡◌, ◌≢◌, refl, ◌∙◌, Bool, true, ◌&&◌, List, map, none, some, is_some, arith, contains, any,
  All, find, find-passes, eq_of_==, ◌==◌, flat_map, retain, [], ◌∷◌, ◌++◌, ◌||◌, Bool-cases, inl,
  inr,
}
use voxloop.Names.{SessionId, LoopId, Instant, since}
use voxloop.State.Readings.{disconnected, carries_emission}
use voxloop.State.Documents.{InReach, StaffedBy, Pressed}
use voxloop.State.Session.{Session, connection, is_transmitting, is_at_priority, let_go}
use voxloop.State.Live.{Live, the_loops_being_spoken_on, the_loops_spoken_on_at_priority}
use voxloop.State.Console.{
  session_of, name_within, pressed_down, the_client_keys_priority, the_client_unkeys_priority,
}
use voxloop.State.Channel.{the_channel_is_gone}
use voxloop.State.Projections.{document, standing}
use voxloop.State.Acts.{Act}
use voxloop.State.History.{run}
use voxloop.State.Pressing.{LeavesThePress, IsPressing}
use voxloop.State.Pressing.Kept.{run-IsPressing}
use voxloop.State.Versions.{session_of-change}

-- What a press that went down at `began` and `wall_clock` leaves when it ends: every loop that was
-- armed as it went down, by the name that it had in reach then.
abbrev pub press_left : Session → Instant → Instant → Instant → Pressed
press_left held began wall_clock ended = record {
  occupant = held.occupant;
  role = held.role;
  armed_on =
      map
        (λ armed. elim (find (λ within. within.id == armed) held.reach) [
          | none ↦ armed
          | some within ↦ within.name
        ])
        held.arms;
  at = wall_clock;
  lasted = since ended began;
}

pressed_down-HoldsThePress :
    (session : SessionId) (began wall_clock : Instant) (live : Live) (held : Session)
    → session_of live session ≡ some held
    → held.pressing ≡ none
    → IsPressing session held.occupant held.role
        (record {
          began = began;
          at = wall_clock;
          armed_on = map (name_within held.reach) held.arms;
        })
        (the_client_keys_priority session began wall_clock live).0.sessions
unfolding the_client_keys_priority pressed_down
pressed_down-HoldsThePress session began wall_clock live held there idle = (
  pressed_down began wall_clock held,
  session_of-change session (pressed_down began wall_clock) live held (λ x. ground arith) there,
  record {
    named = ground (arith, eq_of_== held.id session (find-passes _ live.sessions held there));
    occupied_by = ground arith;
    in_role = ground arith;
    held = ground arith;
  },
)

-- Where the session holds no press, a press that it begins is audited once, with what was true when
-- the key went down: the armed loops by the names that they had in reach then, the wall clock, and
-- how long it lasted from there. So it is whatever is armed, disarmed, brought within reach, pressed
-- again or done to other sessions before it ends, as long as the session does not release the key, lose its
-- channel or relinquish, and its user asks for no other seat. It is audited when the key comes up,
-- and when the channel goes; and then there is no press left to end.
pub the_client_unkeys_priority-press :
    (session : SessionId) (began wall_clock ended after : Instant) (between : List (Instant × Act))
    (live : Live) (held : Session)
    → session_of live session ≡ some held
    → held.pressing ≡ none
    → All (λ e. LeavesThePress session held.occupant e.1) between
    → let held_down = run between (the_client_keys_priority session began wall_clock live).0 in
      let (up, pressed) = the_client_unkeys_priority session ended held_down in
      let (closed, cut) = the_channel_is_gone session ended held_down in
      (pressed ≡ some (press_left held began wall_clock ended))
      × (cut ≡ some (press_left held began wall_clock ended))
      × ((the_client_unkeys_priority session after up).1 ≡ none)
      × ((the_client_unkeys_priority session after closed).1 ≡ none)
unfolding the_client_unkeys_priority the_channel_is_gone let_go
the_client_unkeys_priority-press session began wall_clock ended after between live held there idle
      leaves =
    let down = (the_client_keys_priority session began wall_clock live).0 in
    let held_down = run between down in
    let (x, found, holds) =
      run-IsPressing session held.occupant held.role
        (record {
          began = began;
          at = wall_clock;
          armed_on = map (name_within held.reach) held.arms;
        })
        between down leaves
        (pressed_down-HoldsThePress session began wall_clock live held there idle) in
    (
      rw found (ground (arith, holds.held, holds.occupied_by, holds.in_role)),
      rw found (ground (arith, holds.held, holds.occupied_by, holds.in_role)),
      rw (session_of-change session (λ y. (let_go ended y).0) held_down x (λ y. refl) found) refl,
      rw
          (session_of-change session
            (λ y. (let_go ended (record y { the_channel_is_gone = true })).0) held_down x
            (λ y. refl) found)
          refl,
    )

contains-append : (xs ys : List ℕ) (l : ℕ) → contains (xs ++ ys) l ≡ contains xs l || contains ys l
contains-append [] ys l = refl
contains-append (x ∷ xs) ys l = ground (arith, contains-append xs ys l)

contains-arms :
    (p : Session → Bool) (l : LoopId) (xs : List Session)
    → contains (flat_map (λ s. s.arms) (retain p xs)) l ≡ any (λ s. p s && contains s.arms l) xs
unfolding flat_map
contains-arms p l [] = refl
contains-arms p l (x ∷ xs) = elim (Bool-cases (p x)) [
  | inl passes ↦ rw passes (
      contains-append x.arms (flat_map (λ s. s.arms) (retain p xs)) l
      ∙ rw (contains-arms p l xs) refl)
  | inr fails ↦ rw fails (contains-arms p l xs)
]

-- A loop is shown as talked on exactly when some session says it is keyed, has a channel that
-- carries emission and has the loop armed, and as talked on at priority exactly when one of those
-- is holding its priority key; a document says priority only of a session that it says is keyed.
pub standing-talking :
    (live : Live) (staffed : List StaffedBy) (held : Session) (now : Instant) (held_on : InReach)
    → let talks = λ (s : Session). s.keyed && carries_emission (connection s live.ladder now) in
      ((standing live staffed held now held_on).talking
        ≡ any (λ s. talks s && contains s.arms held_on.id) live.sessions)
      × ((standing live staffed held now held_on).priority
          ≡ any (λ s. (is_some s.pressing && talks s) && contains s.arms held_on.id) live.sessions)
      × ((document live staffed held now).priority ≡ true
          → ((document live staffed held now).keyed ≡ true)
            × ((document live staffed held now).connection ≢ disconnected))
unfolding standing document the_loops_being_spoken_on the_loops_spoken_on_at_priority is_at_priority
    is_transmitting
standing-talking live staffed held now held_on = (
  contains-arms _ held_on.id live.sessions,
  contains-arms _ held_on.id live.sessions,
  λ h. (ground arith, ground arith),
)
