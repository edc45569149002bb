-- ===== src/Transport/Signalling/Returning.antt =====
-- The way back to the lobby, and what its document shows (src/transport/signalling.rs,
-- back_to_the_lobby and the_lobby).
use mathlib.Core.List.{map-map}
use voxloop.Prelude.{
  List, ◌≢◌, map, is_the_last_sound, is_the_last_complete, arith, ℕ, ◌≡◌, refl, ap, ◌∙◌, Option,
  some, [], ◌∷◌, ◌==◌, inl, inr, retain, ◌+◌, ap₂, Bool-cases,
}
use voxloop.Names.{Text, RoleId, u64, SessionId, Instant}
use voxloop.Authorisation.{Answer, ok}
use voxloop.State.Live.{the_staffing_of, staffing_of, Live, Ended, forget_the_old_tombstones}
use voxloop.State.Seats.{occupants_of, why_it_ended}
use voxloop.Transport.Signalling.Messages.{Outgoing, Lobby, Lobby-discrete}
use voxloop.Transport.Signalling.Scene.{
  Given, Scene, Conversation, carry, passed, forecast, unless_failed,
}
use voxloop.Transport.Signalling.Documents.{
  names_of, roles_open, seat, back_to_the_lobby, lobby_of, the_lobby, lobby, sent_again, said_with,
  versioned, already_sent,
}

-- The version that a lobby goes out under: the one it went out under last, where it is unchanged,
-- and the next where it is not.
pub record IsVersionOf (own : Conversation) (l : Lobby) (version : ℕ) : Type 0 where
  pub unchanged : own.sent_lobby ≡ some l → version ≡ own.lobby_version
  pub moved : own.sent_lobby ≢ some l → version ≡ u64 (own.lobby_version + 1)

sent_again-ok :
    (l : Lobby) (s : Scene)
    → (version : ℕ) × ((sent_again l s).1 ≡ ok (Outgoing.lobby version l))
      × IsVersionOf s.own l version
unfolding versioned
sent_again-ok l s = elim (Bool-cases (already_sent s.own l)) [
  | inl sent ↦
      let same = is_the_last_sound Lobby-discrete s.own.sent_lobby l sent in
      (
        s.own.lobby_version,
        rw sent refl,
        record { unchanged = λ _. refl; moved = λ other. absurd (other same) },
      )
  | inr fresh ↦ (
    u64 (s.own.lobby_version + 1),
    rw fresh refl,
    record {
      unchanged = λ same. absurd (cc (is_the_last_complete Lobby-discrete s.own.sent_lobby l same));
      moved = λ _. refl;
    },
  )
]

-- In fair weather the way back to the lobby has both of its messages.
pub back_to_the_lobby-ok :
    (why : Option Ended) (at : Given) (s : Scene)
    → s.weather ≡ []
    → (version : ℕ) × ((back_to_the_lobby why at s).1
        ≡ ok (Outgoing.session_ended why ∷ Outgoing.lobby version (lobby_of at s) ∷ []))
      × IsVersionOf s.own (lobby_of at s) version
unfolding back_to_the_lobby the_lobby lobby
back_to_the_lobby-ok why at s fair =
    let (version, e, numbered) = sent_again-ok (lobby_of at s) (passed s) in
    (
      version,
      ap
            (λ f.
              (carry (said_with why)
                (carry sent_again (passed s, unless_failed f (lobby_of at s)))).1)
            (ap (λ w. (forecast w).0) fair)
          ∙ after_ok (sent_again (lobby_of at s) (passed s)) e,
      numbered,
    )
  where
    after_ok :
        (p : Scene × Answer Outgoing)
        → {said : Outgoing} → p.1 ≡ ok said
        → (carry (said_with why) p).1 ≡ ok (Outgoing.session_ended why ∷ said ∷ [])
    after_ok p e = ap (λ a. (carry (said_with why) (p.0, a)).1) e

-- The lobby is read off the sessions, the ladder, the store and the user.
pub lobby_of-same :
    (at : Given) (s : Scene) (own : Conversation) (live : Live)
    → own.user ≡ s.own.user
    → live.sessions ≡ s.live.sessions
    → live.ladder ≡ s.live.ladder
    → lobby_of at (record s { own = own; live = live }) ≡ lobby_of at s
unfolding lobby_of seat the_staffing_of staffing_of occupants_of
lobby_of-same at s own live same_user same_sessions same_ladder =
    ap (λ user. lobby_of at (record s { own = record own { user = user }; live = live })) same_user
    ∙ ap₂
        (λ sessions ladder.
          lobby_of at (record s { live = record live { sessions = sessions; ladder = ladder } }))
        same_sessions same_ladder

pub why_it_ended-ladder :
    (session : SessionId) (now : Instant) (live : Live)
    → (why_it_ended session now live).0.ladder ≡ live.ladder
unfolding why_it_ended forget_the_old_tombstones
why_it_ended-ladder session now live = ground arith

-- The lobby has a seat for each role that is open to the user, with the names of those who hold it.
pub lobby_of-occupants :
    (at : Given) (s : Scene)
    → map {B = RoleId × List Text} (λ seat. (seat.id, seat.occupants)) (lobby_of at s).roles
      ≡ map {B = RoleId × List Text}
          (λ role. (
            role.id,
            names_of s.tables
                (map (λ x. x.occupant) (retain (λ x. x.role == role.id) s.live.sessions)),
          ))
          (roles_open at s)
unfolding lobby_of occupants_of seat
lobby_of-occupants at s = map-map _ _ (roles_open at s)
