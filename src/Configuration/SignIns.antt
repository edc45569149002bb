-- ===== src/Configuration/SignIns.antt =====
-- The table of sign-ins (src/configuration/sign_ins.rs), a list of rows in the order the store
-- reads them. `secrets::fingerprint` is a parameter. Times are whole milliseconds, as the store
-- holds them; the arithmetic on them, signed in the source, is written without subtraction. A
-- statement that the store refuses ends the transaction, and with it what is modelled here.
pub mod Laws
pub mod Window
use voxloop.Prelude.{
  ℕ, ◌+◌, ◌-◌, ◌/◌, ◌^◌, Bool, not, ◌&&◌, Option, none, some, ltb, leb, ◌==◌, if◌then◌else◌, List,
  [], ◌∷◌, ◌++◌, map, retain, any, find, contains,
}
use Prim.Native.Nat.{min}
use mathlib.Core.Option as Option
use voxloop.Names.{Text, UserId, SignInToken, Duration, from_secs}

abbrev pub to_the_minute : Duration
to_the_minute = from_secs 60

-- Saturating at the largest i64.
unfoldable pub milliseconds : Duration → ℕ
milliseconds window = min (window / 1_000_000) (2 ^ 63 - 1)

pub record SignIn : Type 0 where
  pub fingerprint : Text
  pub user_id : UserId
  pub started_at : ℕ
  pub last_active_at : ℕ

-- Whether a row has been idle for the window: `last_active_at <= cutoff`.
abbrev pub is_idle : Duration → ℕ → SignIn → Bool
is_idle idle_for now row = leb (row.last_active_at + milliseconds idle_for) now

-- `DELETE FROM sign_ins WHERE fingerprint = ?`.
unfoldable pub delete_fingerprint : Text → List SignIn → List SignIn
delete_fingerprint print = retain (λ row. not (row.fingerprint == print))

-- The `for` over the idle rows, with whom it signs out.
unfoldable pub end_each : List Text → List SignIn → List SignIn → List SignIn × List UserId
unfolding delete_fingerprint
end_each held [] table = (table, [])
end_each held (row ∷ rest) table =
    let kept = end_each held rest table in
    let (left, ended) = end_each held rest (delete_fingerprint row.fingerprint table) in
    if contains held row.fingerprint then kept else (left, row.user_id ∷ ended)

module _ (fingerprint : SignInToken → Text) where
  abbrev pub is_signed_by : SignInToken → SignIn → Bool
  is_signed_by token row = row.fingerprint == fingerprint token

  -- The fingerprint is the table's primary key: a second row for it is refused. The token that
  -- `secrets::unguessable` mints is an argument.
  unfoldable pub open_sign_in : SignInToken → UserId → ℕ → List SignIn → Option (List SignIn)
  open_sign_in token user now table =
      if any (is_signed_by token) table
      then none
      else some (
          table
          ++ record {
            fingerprint = fingerprint token;
            user_id = user;
            started_at = now;
            last_active_at = now;
          }
            ∷ [])

  unfoldable pub holder_of : SignInToken → List SignIn → Option UserId
  holder_of token table = Option.map (λ row. row.user_id) (find (is_signed_by token) table)

  unfoldable pub end_sign_in : SignInToken → List SignIn → List SignIn × Option UserId
  unfolding delete_fingerprint
  end_sign_in token table = (delete_fingerprint (fingerprint token) table, holder_of token table)

  -- The `UPDATE`, on the rows that were last stamped more than a minute ago.
  unfoldable pub note_a_deliberate_act : SignInToken → ℕ → List SignIn → List SignIn
  note_a_deliberate_act token now = map (λ row.
      if is_signed_by token row && ltb (row.last_active_at + milliseconds to_the_minute) now
      then record row { last_active_at = now }
      else row)

  abbrev pub the_clock_starts_now : SignInToken → ℕ → List SignIn → List SignIn
  the_clock_starts_now = note_a_deliberate_act

  unfoldable pub end_sign_ins_idle_for :
      Duration → List SignInToken → ℕ → List SignIn → List SignIn × List UserId
  unfolding end_each
  end_sign_ins_idle_for idle_for spared now table =
      end_each (map fingerprint spared) (retain (is_idle idle_for now) table) table

unfoldable pub end_every_sign_in : UserId → List SignIn → List SignIn
end_every_sign_in user = retain (λ row. not (row.user_id == user))
