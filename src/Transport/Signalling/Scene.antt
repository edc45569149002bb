-- ===== src/Transport/Signalling/Scene.antt =====
-- The conversation and what it acts on: the live state, the store and the media plane
-- (src/transport/signalling.rs). A transaction either runs through or fails where its fault says;
-- the weather is the faults of the transactions to come, and fair from its end on.
use voxloop.Prelude.{ℕ, Bool, true, false, Option, none, some, List, [], ◌∷◌, ◌++◌}
use voxloop.Names.{Text, SessionId, UserId, RoleId, SignInToken, Instant, Duration}
use voxloop.Configuration.Tables.{Tables}
use voxloop.Configuration.Roles as Roles
use voxloop.Configuration.Users as Users
use voxloop.Configuration.Grid as Grid
use voxloop.Configuration.SignIns as SignIns
use voxloop.Authorisation.{
  Answer, ok, unavailable, Directory, Requirement, Presented, Outcome, permitted, refused, evaluate,
}
use voxloop.State.Documents.{Pressed}
use voxloop.State.Live.{Live, Ended, Relinquished}
use voxloop.Transport.Signalling.Messages.{Lobby, Instruction}

-- What a turn of the conversation is given: the clocks, the session name that `assume` mints, the
-- fingerprints of tokens and the store's order of names.
pub record Given : Type 0 where
  pub now : Instant
  pub wall_clock : ℕ
  pub minted : SessionId
  pub fingerprint : SignInToken → Text
  pub collate : Text → ℕ

pub record Conversation : Type 0 where
  pub user : UserId
  pub sign_in : SignInToken
  pub session : Option SessionId
  pub sent_presence : Option ℕ
  pub lobby_version : ℕ
  pub sent_lobby : Option Lobby

-- Where a transaction fails: as it begins, at a statement, at a statement and then at its roll back,
-- or as it ends.
pub data Fault : Type 0 where
  cannot_begin cannot_run cannot_undo cannot_finish : Fault

-- What the audit log is given.
pub data Entry : Type 0 where
  session_started : UserId → Text → RoleId → Text → Entry
  session_ended : UserId → Text → RoleId → Text → Ended → Entry
  priority_press : UserId → Text → RoleId → Text → List Text → Instant → Duration → Entry

pub record Scene : Type 0 where
  pub own : Conversation
  pub live : Live
  pub tables : Tables
  pub log : List Entry
  pub media : List Instruction
  pub weather : List (Option Fault)

abbrev pub Turn {ℓ} : Type ℓ → Type ℓ
Turn A = Scene → Scene × Answer A

-- What follows a turn that answered; a turn that failed is the end.
abbrev pub carry {ℓ κ} :
    {A : Type ℓ} {B : Type κ} → (A → Turn B) → Scene × Answer A → Scene × Answer B
carry f (next, ok a) = f a next
carry f (next, unavailable) = (next, unavailable)

infixl 5 ◌>>=◌ ◌>>◌
abbrev pub ◌>>=◌ {ℓ κ} : {A : Type ℓ} {B : Type κ} → Turn A → (A → Turn B) → Turn B
(m >>= f) s = carry f (m s)

abbrev pub ◌>>◌ {ℓ} : {B : Type ℓ} → Turn (Unit {0}) → Turn B → Turn B
m >> k = m >>= λ _. k

abbrev pub done {ℓ} : {A : Type ℓ} → A → Turn A
done a s = (s, ok a)

abbrev pub forecast : List (Option Fault) → Option Fault × List (Option Fault)
forecast [] = (none, [])
forecast (fault ∷ later) = (fault, later)

abbrev pub passed : Scene → Scene
passed s = record s { weather = (forecast s.weather).1 }

abbrev pub unless_failed {ℓ} : {A : Type ℓ} → Option Fault → A → Answer A
unless_failed none a = ok a
unless_failed (some _) a = unavailable

-- A transaction that reads, and is rolled back.
abbrev pub reading {ℓ} : {A : Type ℓ} → (Scene → A) → Turn A
reading read s = (passed s, unless_failed (forecast s.weather).0 (read s))

-- A transaction that writes to the tables and the log: what it wrote stands where it was committed.
abbrev pub committed : Option Fault → (Scene → Scene) → Turn (Unit {0})
committed none write s = (write (passed s), ok tt)
committed (some _) write s = (passed s, unavailable)

abbrev pub writing : (Scene → Scene) → Turn (Unit {0})
writing write s = committed (forecast s.weather).0 write s

abbrev pub fails_at_begin : Option Fault → Answer (Unit {0})
fails_at_begin (some Fault.cannot_begin) = unavailable
fails_at_begin _ = ok tt

abbrev pub fails_at_end : Option Fault → Answer (Unit {0})
fails_at_end (some Fault.cannot_finish) = unavailable
fails_at_end (some Fault.cannot_undo) = unavailable
fails_at_end _ = ok tt

-- What the evaluator reads of the store.
unfoldable pub directory : Given → Tables → Option Fault → Directory
directory at t fault = record {
  begin = fails_at_begin fault;
  roll_back = fails_at_end fault;
  holder_of = λ token. unless_failed fault (SignIns.holder_of at.fingerprint token t.sign_ins);
  user = λ id. unless_failed fault (Users.user t id);
  held_by = λ role on. unless_failed fault (Grid.held_by t role on);
}

abbrev pub presented : Conversation → Presented
presented own = record {
  sign_in = some own.sign_in;
  service_token = none;
  session = own.session;
  acting_role = none;
}

abbrev pub is_permitted : Answer Outcome → Answer Bool
is_permitted (ok (permitted _)) = ok true
is_permitted (ok refused) = ok false
is_permitted unavailable = unavailable

-- `permitted`.
unfoldable pub permitted_to : Given → Requirement → Turn Bool
unfolding directory
permitted_to at requirement s = (
  passed s,
  is_permitted (
      evaluate (directory at s.tables (forecast s.weather).0) requirement (presented s.own) s.live),
)

abbrev pub name_as_it_stands : Tables → UserId → Text → Text
name_as_it_stands t id empty = elim (Users.user t id) [ none ↦ empty | some found ↦ found.username ]

abbrev pub role_name : Tables → RoleId → Text → Text
role_name t id empty = elim (Roles.role t id) [ none ↦ empty | some found ↦ found.name ]

abbrev pub the_empty_text : Text
the_empty_text = 0

-- What `record_the_press` writes.
unfoldable pub press_entry : Tables → Pressed → Entry
press_entry t pressed =
    Entry.priority_press pressed.occupant (name_as_it_stands t pressed.occupant the_empty_text)
      pressed.role (role_name t pressed.role the_empty_text) pressed.armed_on pressed.at
      pressed.lasted

abbrev pub press_entries : Tables → Option Pressed → List Entry
press_entries t none = []
press_entries t (some pressed) = press_entry t pressed ∷ []

-- What `record_the_end_of` writes: a press that the end cut short comes first.
unfoldable pub end_entries : Tables → Relinquished → List Entry
end_entries t ended =
    press_entries t ended.pressed
    ++ Entry.session_ended ended.occupant (name_as_it_stands t ended.occupant the_empty_text)
        ended.role (role_name t ended.role the_empty_text) ended.why
      ∷ []

abbrev pub the_clock_starts_now : Given → SignInToken → Tables → Tables
the_clock_starts_now at token t = record t {
  sign_ins = SignIns.the_clock_starts_now at.fingerprint token at.wall_clock t.sign_ins;
}
