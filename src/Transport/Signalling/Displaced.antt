-- ===== src/Transport/Signalling/Displaced.antt =====
-- What a socket is told when its seat was taken elsewhere (src/transport/signalling.rs).
use voxloop.Prelude.{
  List, ◌≢◌, map, ℕ, ◌≡◌, ◌<◌, refl, ap, sym, ◌∙◌, true, none, some, [], ◌∷◌, find, ◌==◌, ltb,
  Option-cases, inl, inr, retain, All-retain, find-All, find-passes, eq_of_==, contains, is_some,
  ◌+◌, some≢none, find-NoneOf, NoneOf-key, subst, ap₂, ◌&&◌, if◌then◌else◌,
}
use voxloop.Names.{Text, RoleId, u64, SessionId, Instant, since}
use voxloop.Authorisation.{ok}
use voxloop.State.Session.{Session}
use voxloop.State.Live.{
  Live, Ended, assumed_elsewhere, tombstones_are_kept_for, forget_the_old_tombstones,
}
use voxloop.State.Seats.{Assuming, assume, is_full, the_role_of, why_it_ended}
use voxloop.State.Occupancy.{AreSeated, IsFresh, IsOver, ids}
use voxloop.State.Occupancy.Taking.{assume-AreSeated}
use voxloop.State.History.{why_it_ended-sessions}
use voxloop.State.Displacement.{assume-why_it_ended}
use voxloop.Transport.Signalling.Keeping.{back_to_the_lobby-KeepsLive}
use voxloop.Transport.Signalling.Returning.{
  back_to_the_lobby-ok, lobby_of-same, lobby_of-occupants, why_it_ended-ladder,
}
use voxloop.Transport.Signalling.Messages.{Outgoing}
use voxloop.Transport.Signalling.Scene.{Given, Scene, done}
use voxloop.Transport.Signalling.Documents.{
  names_of, roles_open, presence, presence_for, presence_in, pushed_presence, the_session_ended,
  back_to_the_lobby, lobby_of, ended_with,
}

-- A session whose end is remembered has no role.
mourned_roleless :
    (session : SessionId) (later : Instant) (live : Live) (why : Ended)
    → AreSeated live
    → (why_it_ended session later live).1 ≡ some why
    → the_role_of live session ≡ none
unfolding why_it_ended forget_the_old_tombstones the_role_of
mourned_roleless session later live why h told =
    elim (Option-cases (
      find (λ t. t.session == session)
        (retain (λ t. ltb (since later t.at) tombstones_are_kept_for) live.tombstones))) [
          | inl forgotten ↦
              let unknown : (why_it_ended session later live).1 ≡ none =
                rw (forgotten, why_it_ended) refl in
              absurd (some≢none (sym told ∙ unknown))
          | inr (t, found) ↦
              let over =
                find-All (IsOver (ids live)) (λ t. t.session == session) _ t
                  (All-retain (IsOver (ids live)) _ live.tombstones h.tombstones_over) found in
              let named = eq_of_== t.session session (
                find-passes (λ x. x.session == session)
                  (retain (λ x. ltb (since later x.at) tombstones_are_kept_for) live.tombstones) t
                  found) in
              let gone = ap (contains (ids live)) (sym named) ∙ over in
              rw
                (find-NoneOf (λ x. x.id == session) live.sessions
                  (NoneOf-key (λ x. x.id) (λ x. x.id == session) session live.sessions (λ x e. e)
                    gone))
                refl
        ]

-- A tick of a socket that holds a session and has shown its document works it out again.
pushed :
    (at : Given) (s : Scene) {session : SessionId} {version : ℕ}
    → s.own.session ≡ some session
    → s.own.sent_presence ≡ some version
    → pushed_presence at s ≡ presence true at s
unfolding pushed_presence
pushed at s has sent =
    ap₂ (λ a b. if is_some a && is_some b then presence true at s else done [] s) has sent

-- Whose seat was taken by their own assume elsewhere, which the limit let through under a name that
-- was nobody's, is told so on the next tick of the socket that lost it, where that socket had shown
-- its document, within fifteen minutes and where the store answers: that the session ended because
-- it was assumed elsewhere, and then the lobby as it stands for the user, with a seat for each role
-- that is open to them and the names of those who hold it. The lobby has the version that it had
-- where it was sent before and is unchanged, and otherwise the next. The socket holds no session
-- from then on.
pub pushed_presence-displaced :
    (at : Given) (minted : SessionId) (assuming : Assuming) (taken : Instant) (live : Live)
    (held : Session) (s : Scene) (sent : ℕ)
    → AreSeated live
    → IsFresh minted live
    → is_full assuming live.sessions ≡ none
    → find (λ x. x.occupant == assuming.occupant) live.sessions ≡ some held
    → since at.now taken < tombstones_are_kept_for
    → s.live ≡ (assume minted assuming taken live).0
    → s.own.session ≡ some held.id
    → s.own.sent_presence ≡ some sent
    → s.weather ≡ []
    → let shown = lobby_of at s in
      (version : ℕ) × ((pushed_presence at s).1
        ≡ ok (Outgoing.session_ended (some assumed_elsewhere) ∷ Outgoing.lobby version shown ∷ []))
      × (s.own.sent_lobby ≡ some shown → version ≡ s.own.lobby_version)
      × (s.own.sent_lobby ≢ some shown → version ≡ u64 (s.own.lobby_version + 1))
      × (map {B = RoleId × List Text} (λ seat. (seat.id, seat.occupants)) shown.roles
          ≡ map {B = RoleId × List Text}
              (λ role. (
                role.id,
                names_of s.tables
                    (map (λ x. x.occupant) (retain (λ x. x.role == role.id) s.live.sessions)),
              ))
              (roles_open at s))
      × ((pushed_presence at s).0.own.session ≡ none)
unfolding pushed_presence presence the_session_ended back_to_the_lobby
pushed_presence-displaced at minted assuming taken live held s sent h fresh room there soon now_live
      has shown_before fair =
    let told : (why_it_ended held.id at.now s.live).1 ≡ some assumed_elsewhere =
      ap (λ l. (why_it_ended held.id at.now l).1) now_live
      ∙ (assume-why_it_ended minted assuming taken at.now at.now live held h room there soon).1 in
    let seated =
      subst AreSeated (sym now_live) (assume-AreSeated minted assuming taken live h fresh) in
    let roleless = mourned_roleless held.id at.now s.live assumed_elsewhere seated told in
    let alone = record s.own { session = none; sent_presence = none } in
    let left = record s { own = alone; live = (why_it_ended held.id at.now s.live).0 } in
    let whole : pushed_presence at s ≡ back_to_the_lobby (some assumed_elsewhere) at left =
      pushed at s has shown_before
      ∙ ap (λ o. presence_for true at o s) has
      ∙ ap (λ o. presence_in true at held.id o s) roleless
      ∙ ap (λ o. ended_with at o (record s { own = alone })) has
      ∙ ap (λ why. back_to_the_lobby why at left) told in
    let (version, answer, numbered) = back_to_the_lobby-ok (some assumed_elsewhere) at left fair in
    let same : lobby_of at left ≡ lobby_of at s =
      lobby_of-same at s alone left.live refl (why_it_ended-sessions held.id at.now s.live)
        (why_it_ended-ladder held.id at.now s.live) in
    (
      version,
      ap (λ p. p.1) whole
          ∙ answer
          ∙ ap
              (λ l.
                ok
                  (Outgoing.session_ended (some assumed_elsewhere) ∷ Outgoing.lobby version l ∷ []))
              same,
      λ unchanged. numbered.unchanged (unchanged ∙ sym (ap some same)),
      λ moved. numbered.moved (λ unchanged. moved (unchanged ∙ ap some same)),
      lobby_of-occupants at s,
      ap (λ p. p.0.own.session) whole
          ∙ (back_to_the_lobby-KeepsLive (some assumed_elsewhere) at left).session,
    )
