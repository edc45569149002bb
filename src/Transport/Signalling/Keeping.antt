-- ===== src/Transport/Signalling/Keeping.antt =====
-- What composing a document leaves alone (src/transport/signalling.rs).
use voxloop.Prelude.{ℕ, ◌≡◌, refl, ◌∙◌, Bool, Option, none, some, List, Bool-cases, inl, inr}
use voxloop.Names.{SessionId, RoleId}
use voxloop.Configuration.Tables.{Role}
use voxloop.Authorisation.{Answer, ok, unavailable}
use voxloop.State.Documents.{StaffedBy, InReach, Presence}
use voxloop.State.Live.{Ended, Live}
use voxloop.State.Seats.{the_role_of, why_it_ended}
use voxloop.State.Projections as Projections
use voxloop.Transport.Signalling.Messages.{Lobby}
use voxloop.Transport.Signalling.Scene.{Given, Conversation, Scene, Turn, carry, reading}
use voxloop.Transport.Signalling.Documents.{
  lobby, already_sent, versioned, sent_again, said_with, the_lobby, back_to_the_lobby,
  the_session_ended, standing_of, is_unmoved, present, presence, ended_with, shown_as, presence_in,
  presence_for,
}

-- The store, the log and the media plane are as they were.
pub record Keeps (before after : Scene) : Type 0 where
  pub log : after.log ≡ before.log
  pub tables : after.tables ≡ before.tables
  pub media : after.media ≡ before.media

-- And so are the live state and the session that the socket holds.
pub record KeepsLive (before after : Scene) : Type 0 where
  pub live : after.live ≡ before.live
  pub session : after.own.session ≡ before.own.session
  pub rest : Keeps before after

abbrev unchanged : (s : Scene) → Keeps s s
unchanged s = record { log = refl; tables = refl; media = refl }

abbrev all_unchanged : (s : Scene) → KeepsLive s s
all_unchanged s = record { live = refl; session = refl; rest = unchanged s }

Keeps-trans : (a b c : Scene) → Keeps a b → Keeps b c → Keeps a c
Keeps-trans a b c h k = record {
  log = k.log ∙ h.log;
  tables = k.tables ∙ h.tables;
  media = k.media ∙ h.media;
}

KeepsLive-trans : (a b c : Scene) → KeepsLive a b → KeepsLive b c → KeepsLive a c
KeepsLive-trans a b c h k = record {
  live = k.live ∙ h.live;
  session = k.session ∙ h.session;
  rest = Keeps-trans a b c h.rest k.rest;
}

-- What follows a turn keeps what both keep.
carry-KeepsLive {ℓ κ} :
    {A : Type ℓ} {B : Type κ} (f : A → Turn B) (s : Scene) (p : Scene × Answer A)
    → KeepsLive s p.0
    → ((a : A) → KeepsLive p.0 (f a p.0).0)
    → KeepsLive s (carry f p).0
carry-KeepsLive f s (next, ok a) h k = KeepsLive-trans s next _ h (k a)
carry-KeepsLive f s (next, unavailable) h k = h

carry-Keeps {ℓ κ} :
    {A : Type ℓ} {B : Type κ} (f : A → Turn B) (s : Scene) (p : Scene × Answer A)
    → Keeps s p.0
    → ((a : A) → Keeps p.0 (f a p.0).0)
    → Keeps s (carry f p).0
carry-Keeps f s (next, ok a) h k = Keeps-trans s next _ h (k a)
carry-Keeps f s (next, unavailable) h k = h

lobby-KeepsLive : (at : Given) (s : Scene) → KeepsLive s (lobby at s).0
unfolding lobby
lobby-KeepsLive at s = record {
  live = refl;
  session = refl;
  rest = record { log = refl; tables = refl; media = refl };
}

sent_again-KeepsLive : (l : Lobby) (s : Scene) → KeepsLive s (sent_again l s).0
unfolding versioned
sent_again-KeepsLive l s = elim (Bool-cases (already_sent s.own l)) [
  | inl sent ↦ rw sent (all_unchanged s)
  | inr moved ↦ rw moved (record {
    live = refl;
    session = refl;
    rest = record { log = refl; tables = refl; media = refl };
  })
]

pub back_to_the_lobby-KeepsLive :
    (why : Option Ended) (at : Given) (s : Scene) → KeepsLive s (back_to_the_lobby why at s).0
unfolding back_to_the_lobby the_lobby
back_to_the_lobby-KeepsLive why at s =
    carry-KeepsLive (said_with why) s (carry sent_again (lobby at s))
      (carry-KeepsLive sent_again s (lobby at s) (lobby-KeepsLive at s)
        (λ l. sent_again-KeepsLive l (lobby at s).0))
      (λ said. all_unchanged _)

-- What a change of the socket's own, or of the live state, is followed by.
from_here :
    (s : Scene) (own : Conversation) (live : Live) (after : Scene)
    → Keeps (record s { own = own; live = live }) after
    → Keeps s after
from_here s own live after k = record { log = k.log; tables = k.tables; media = k.media }

ended_with-Keeps :
    (at : Given) (held : Option SessionId) (s : Scene) → Keeps s (ended_with at held s).0
ended_with-Keeps at none s = (back_to_the_lobby-KeepsLive none at s).rest
ended_with-Keeps at (some session) s =
    let (live, why) = why_it_ended session at.now s.live in
    from_here s s.own live _ (back_to_the_lobby-KeepsLive why at (record s { live = live })).rest

the_session_ended-Keeps : (at : Given) (s : Scene) → Keeps s (the_session_ended at s).0
unfolding the_session_ended
the_session_ended-Keeps at s =
    from_here s (record s.own { session = none; sent_presence = none }) s.live _
      (ended_with-Keeps at s.own.session _)

shown_as-Keeps :
    (only : Bool) (at : Given) (named : Role) (shown : Option (ℕ × Presence)) (s : Scene)
    → Keeps s (shown_as only at named shown s).0
shown_as-Keeps only at named none s = the_session_ended-Keeps at s
shown_as-Keeps only at named (some (version, document)) s =
    elim (Bool-cases (is_unmoved only s.own.sent_presence version)) [
      | inl same ↦ rw same (unchanged s)
      | inr moved ↦ rw moved (record { log = refl; tables = refl; media = refl })
    ]

present-Keeps :
    (only : Bool) (at : Given) (session : SessionId)
    (standing : Option Role × List InReach × List StaffedBy) (s : Scene)
    → Keeps s (present only at session standing s).0
present-Keeps only at session (none, within, staffed) s = the_session_ended-Keeps at s
present-Keeps only at session (some named, within, staffed) s =
    let (live, shown) = Projections.presence session within staffed at.now s.live in
    from_here s s.own live _ (shown_as-Keeps only at named shown (record s { live = live }))

presence_in-Keeps :
    (only : Bool) (at : Given) (session : SessionId) (role : Option RoleId) (s : Scene)
    → Keeps s (presence_in only at session role s).0
presence_in-Keeps only at session none s = the_session_ended-Keeps at s
presence_in-Keeps only at session (some role) s =
    carry-Keeps (present only at session) s (reading (standing_of role) s)
      (record { log = refl; tables = refl; media = refl })
      (λ standing. present-Keeps only at session standing _)

presence_for-Keeps :
    (only : Bool) (at : Given) (held : Option SessionId) (s : Scene)
    → Keeps s (presence_for only at held s).0
presence_for-Keeps only at none s = unchanged s
presence_for-Keeps only at (some session) s =
    presence_in-Keeps only at session (the_role_of s.live session) s

pub presence-Keeps : (only : Bool) (at : Given) (s : Scene) → Keeps s (presence only at s).0
unfolding presence
presence-Keeps only at s = presence_for-Keeps only at s.own.session s
