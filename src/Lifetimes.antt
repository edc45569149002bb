-- ===== src/Lifetimes.antt =====
-- The clock that ends sign-ins nobody ended (src/lifetimes.rs). The users' names are a parameter,
-- since the users' table is not modelled; of an audit entry, the parts that the sweep fills in.
pub mod Laws
use voxloop.Prelude.{ℕ, ◌*◌, Option, none, some, List, ◌++◌, map}
use voxloop.Names.{Text, UserId, SignInToken, Duration, from_secs}
use voxloop.State.Live.{Live}
use voxloop.State.Seats.{sign_ins_holding_a_session}
use voxloop.Configuration.SignIns.{SignIn, end_sign_ins_idle_for}

abbrev pub the_window : Duration
the_window = from_secs (24 * 60 * 60)

abbrev pub the_empty_text : Text
the_empty_text = 0

pub data AuditEvent : Type 0 where
  sign_in_expired : AuditEvent

pub record AuditEntry : Type 0 where
  pub event : AuditEvent
  pub actor : Option UserId
  pub actor_name : Text

-- What the durable state holds for the sweep.
pub record Durable : Type 0 where
  pub sign_ins : List SignIn
  pub log : List AuditEntry

abbrev pub name_or_empty : Option Text → Text
name_or_empty none = the_empty_text
name_or_empty (some name) = name

abbrev pub expired : (UserId → Option Text) → UserId → AuditEntry
expired username user = record {
  event = sign_in_expired;
  actor = some user;
  actor_name = name_or_empty (username user);
}

module _ (fingerprint : SignInToken → Text) (username : UserId → Option Text) where
  -- The state authority is asked first, and what it answers is handed to the write.
  unfoldable pub end_abandoned_sign_ins : Live → Duration → ℕ → Durable → Durable
  end_abandoned_sign_ins live window now durable =
      let (left, ended) =
        end_sign_ins_idle_for fingerprint window (sign_ins_holding_a_session live) now
          durable.sign_ins in
      record { sign_ins = left; log = durable.log ++ map (expired username) ended }
