-- ===== src/Configuration/Enrolment.antt =====
-- Enrolment codes (src/configuration/enrolment.rs). `secrets::fingerprint` is a parameter, and the
-- code that `secrets::unguessable` mints an argument. A statement that the store refuses ends the
-- transaction, and with it what is modelled here. Times are whole milliseconds.
pub mod Laws
use voxloop.Prelude.{
  ℕ, ◌+◌, ◌*◌, ◌-◌, ◌^◌, Bool, not, ◌&&◌, ◌||◌, Option, none, some, ltb, leb, ◌==◌, if◌then◌else◌,
  List, [], ◌∷◌, ◌++◌, map, retain, any, find,
}
use Prim.Native.Nat.{min}
use mathlib.Core.Option as Option
use voxloop.Names.{Text, UserId}
use voxloop.Configuration.Tables.{CodeRow, Tables}
use voxloop.Configuration.Users.{is_user}

abbrev pub EnrolmentCode : Type 0
EnrolmentCode = Text

-- A week, in milliseconds.
abbrev pub good_for : ℕ
good_for = 7 * 24 * 60 * 60 * 1000

pub record Outstanding : Type 0 where
  pub expires_at : ℕ

pub record Issued : Type 0 where
  pub code : EnrolmentCode
  pub outstanding : Outstanding
  pub replaced : Option Outstanding

abbrev pub outstanding_of : CodeRow → Outstanding
outstanding_of row = record { expires_at = row.expires_at }

-- `expires_at > now`.
abbrev pub is_good : ℕ → CodeRow → Bool
is_good now row = ltb now row.expires_at

-- `saturating_add`, on an i64.
abbrev pub good_until : ℕ → ℕ
good_until now = min (now + good_for) (2 ^ 63 - 1)

abbrev pub is_for : UserId → CodeRow → Bool
is_for id row = row.user == id

unfoldable pub outstanding_enrolments : ℕ → Tables → List (UserId × Outstanding)
outstanding_enrolments now t =
    map (λ row. (row.user, outstanding_of row)) (retain (is_good now) t.codes)

module _ (fingerprint : EnrolmentCode → Text) where
  -- The fingerprint is the table's primary key, and the user a foreign one.
  unfoldable pub issue_enrolment_code :
      EnrolmentCode → UserId → ℕ → Tables → Option (Tables × Issued)
  issue_enrolment_code code id now t =
      let good = retain (is_good now) t.codes in
      let rest = retain (λ row. not (is_for id row)) good in
      if not (any (is_user id) t.users) || any (λ row. row.fingerprint == fingerprint code) rest
      then none
      else some (
        record t {
          codes =
              rest
              ++ record {
                fingerprint = fingerprint code;
                user = id;
                issued_at = now;
                expires_at = good_until now;
              }
                ∷ [];
        },
        record {
          code = code;
          outstanding = record { expires_at = good_until now };
          replaced = Option.map outstanding_of (find (is_for id) good);
        },
      )

  abbrev pub is_spent_by : EnrolmentCode → ℕ → CodeRow → Bool
  is_spent_by code now row = row.fingerprint == fingerprint code && is_good now row

  unfoldable pub spend_enrolment_code : EnrolmentCode → ℕ → Tables → Tables × Option UserId
  spend_enrolment_code code now t = (
    record t { codes = retain (λ row. not (is_spent_by code now row)) t.codes },
    Option.map (λ row. row.user) (find (is_spent_by code now) t.codes),
  )
