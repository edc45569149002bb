-- ===== src/Transport/Signalling/Ledger.antt =====
-- What the audit log, the store and the media plane are owed as a seat is taken or given up, written
-- from the session that ends and the rows of the tables (src/transport/signalling.rs, assume,
-- relinquish and record_the_end_of).
use mathlib.Core.Option as Option
use voxloop.Prelude.{
  ◌+◌, ◌≡◌, refl, ap₂, ◌&&◌, Option, none, some, List, [], ◌∷◌, ◌++◌, map, find, ◌==◌, ltb,
  if◌then◌else◌, Option-cases, inl, inr,
}
use voxloop.Names.{Text, SessionId, UserId, RoleId, Instant, since}
use voxloop.Configuration.Tables.{Tables, UserRow, RoleRow, a_user, a_role}
use voxloop.Configuration.Roles.{role}
use voxloop.Configuration.Users.{user}
use voxloop.Configuration.SignIns.{SignIn, note_a_deliberate_act, milliseconds}
use voxloop.State.Session.{Session, let_go}
use voxloop.State.Live.{Live, Ended, ended, assumed_elsewhere}
use voxloop.State.Seats.{Assuming, Seating, assume, take_the_seat, displace, is_full}
use voxloop.Transport.Signalling.Messages.{Instruction, close_the_path_of}
use voxloop.Transport.Signalling.Scene.{
  Given, Entry, name_as_it_stands, role_name, the_empty_text, press_entry, end_entries,
}
use voxloop.Transport.Signalling.Taking.{closings, displaced_clock, displaced_entries}

abbrev pub username_in : Tables → UserId → Text
username_in t id = elim (find (λ row. row.id == id) t.users) [
  | none ↦ the_empty_text
  | some row ↦ row.username
]

abbrev pub role_name_in : Tables → RoleId → Text
role_name_in t id = elim (find (λ row. row.id == id) t.roles) [
  | none ↦ the_empty_text
  | some row ↦ row.name
]

-- The press that a session was holding, as it is cut short.
abbrev pub press_cut_short : Tables → Session → Instant → List Entry
press_cut_short t held now = elim held.pressing [
  | none ↦ []
  | some press ↦
      Entry.priority_press held.occupant (username_in t held.occupant) held.role
        (role_name_in t held.role) press.armed_on press.at (since now press.began)
      ∷ []
]

-- A session's end, after the press that it cut short.
abbrev pub end_of : Tables → Instant → Ended → Session → List Entry
end_of t now why held =
    press_cut_short t held now
    ++ Entry.session_ended held.occupant (username_in t held.occupant) held.role
        (role_name_in t held.role) why
      ∷ []

-- The session that the user held before, where there was one, as the log has its end.
abbrev pub end_of_the_displaced : Tables → Instant → Option Session → List Entry
end_of_the_displaced t now none = []
end_of_the_displaced t now (some held) = end_of t now assumed_elsewhere held

-- Its sign-in is stamped, where it was last stamped more than a minute ago.
abbrev pub stamped : Given → Option Session → List SignIn → List SignIn
stamped at none table = table
stamped at (some held) table =
    map
      (λ row.
        if row.fingerprint == at.fingerprint held.sign_in
          && ltb (row.last_active_at + 60_000) at.wall_clock
        then record row { last_active_at = at.wall_clock }
        else row)
      table

-- Its media path is closed.
abbrev pub path_of_the_displaced : Option Session → List Instruction
path_of_the_displaced none = []
path_of_the_displaced (some held) = close_the_path_of held.id ∷ []

pub username_in-name_as_it_stands :
    (t : Tables) (id : UserId) → name_as_it_stands t id the_empty_text ≡ username_in t id
unfolding user
username_in-name_as_it_stands t id = read_as (find (λ row. row.id == id) t.users)
  where
    read_as :
        (found : Option UserRow)
        → elim (Option.map a_user found) [
          | none ↦ the_empty_text
          | some record_of ↦ record_of.username
        ]
          ≡ elim found [ none ↦ the_empty_text | some row ↦ row.username ]
    read_as none = refl
    read_as (some row) = refl

role_name_in-role_name :
    (t : Tables) (id : RoleId) → role_name t id the_empty_text ≡ role_name_in t id
unfolding role
role_name_in-role_name t id = read_as (find (λ row. row.id == id) t.roles)
  where
    read_as :
        (found : Option RoleRow)
        → elim (Option.map a_role found) [ none ↦ the_empty_text | some record_of ↦ record_of.name ]
          ≡ elim found [ none ↦ the_empty_text | some row ↦ row.name ]
    read_as none = refl
    read_as (some row) = refl

-- What `assume` hands back of the session that it displaced.
pub assume-displaced :
    (minted : SessionId) (asked : Assuming) (now : Instant) (live : Live) (before : Option Session)
    → is_full asked live.sessions ≡ none
    → find (λ x. x.occupant == asked.occupant) live.sessions ≡ before
    → (assume minted asked now live).1
      ≡ Seating.assumed (record {
        session = minted;
        displaced = Option.map (λ held. ended held assumed_elsewhere now) before;
      })
unfolding assume take_the_seat displace
assume-displaced minted asked now live none room there =
    rw (room, assume) (rw (there, displace) refl)
assume-displaced minted asked now live (some held) room there =
    rw (room, assume) (rw (there, displace) refl)

pub end_entries-end_of :
    (t : Tables) (now : Instant) (why : Ended) (held : Session)
    → end_entries t (ended held why now) ≡ end_of t now why held
unfolding ended let_go press_entry end_entries
end_entries-end_of t now why held = elim (Option-cases held.pressing) [
  | inl idle ↦ rw idle (
      ap₂ (λ called in_role. Entry.session_ended held.occupant called held.role in_role why ∷ [])
        (username_in-name_as_it_stands t held.occupant) (role_name_in-role_name t held.role))
  | inr (press, there) ↦ rw there (
      ap₂
        (λ called in_role.
          Entry.priority_press held.occupant called held.role in_role press.armed_on press.at
            (since now press.began)
          ∷ Entry.session_ended held.occupant called held.role in_role why
          ∷ [])
        (username_in-name_as_it_stands t held.occupant) (role_name_in-role_name t held.role))
]

pub displaced_entries-end_of_the_displaced :
    (t : Tables) (now : Instant) (before : Option Session)
    → displaced_entries t (Option.map (λ held. ended held assumed_elsewhere now) before)
      ≡ end_of_the_displaced t now before
displaced_entries-end_of_the_displaced t now none = refl
displaced_entries-end_of_the_displaced t now (some held) =
    end_entries-end_of t now assumed_elsewhere held

pub displaced_clock-stamped :
    (at : Given) (t : Tables) (before : Option Session)
    → displaced_clock at (Option.map (λ held. ended held assumed_elsewhere at.now) before) t
      ≡ record t { sign_ins = stamped at before t.sign_ins }
unfolding ended note_a_deliberate_act milliseconds
displaced_clock-stamped at t none = refl
displaced_clock-stamped at t (some held) = refl

pub closings-path_of_the_displaced :
    (now : Instant) (before : Option Session)
    → closings (Option.map (λ held. ended held assumed_elsewhere now) before)
      ≡ path_of_the_displaced before
unfolding ended
closings-path_of_the_displaced now none = refl
closings-path_of_the_displaced now (some held) = refl
