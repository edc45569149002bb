-- ===== src/Configuration/SignIns/Laws.antt =====
-- Whom a sign-in signs in, and which sign-ins a sweep ends (src/configuration/sign_ins.rs).
use voxloop.Prelude.{
  ℕ, ◌≡◌, refl, ap, ◌∙◌, Bool, false, not, ◌&&◌, Option, none, some, ◌==◌, if◌then◌else◌, List, [],
  ◌∷◌, map, retain, find, contains, contains-keep, Distinct, arith,
}
use mathlib.Core.Option as Option
use voxloop.Names.{Text, UserId, SignInToken, Duration}
use voxloop.Configuration.SignIns.{
  SignIn, is_idle, delete_fingerprint, end_each, holder_of, end_sign_ins_idle_for,
}

abbrev pub fingerprints : List SignIn → List Text
fingerprints = map (λ row. row.fingerprint)

abbrev pub has : Text → SignIn → Bool
has print row = row.fingerprint == print

-- A row that the sweep ends: it is idle, and nobody spares it.
abbrev pub is_abandoned : List Text → Duration → ℕ → SignIn → Bool
is_abandoned held window now row = is_idle window now row && not (contains held row.fingerprint)

abbrev unspared : List Text → SignIn → Bool
unspared held row = not (contains held row.fingerprint)

pub find-delete_fingerprint :
    (print gone : Text) (table : List SignIn)
    → find (has print) (delete_fingerprint gone table)
      ≡ (if gone == print then none else find (has print) table)
unfolding delete_fingerprint
find-delete_fingerprint print gone [] = ground arith
find-delete_fingerprint print gone (row ∷ rest) =
    ground (arith, find-delete_fingerprint print gone rest)

find-end_each :
    (held : List Text) (print : Text) (rows table : List SignIn)
    → find (has print) (end_each held rows table).0 ≡ (
        if contains (fingerprints (retain (unspared held) rows)) print
        then none
        else find (has print) table)
unfolding end_each
find-end_each held print [] table = refl
find-end_each held print (row ∷ rest) table = ground (
  arith,
  find-end_each held print rest table,
  find-end_each held print rest (delete_fingerprint row.fingerprint table),
  find-delete_fingerprint print row.fingerprint table,
)

-- Which prints the sweep ends, by the one row that bears each.
contains-abandoned :
    (held : List Text) (window : Duration) (now : ℕ) (print : Text) (table : List SignIn)
    → Distinct (fingerprints table)
    → contains (fingerprints (retain (unspared held) (retain (is_idle window now) table))) print
      ≡ elim (find (has print) table) [ none ↦ false | some row ↦ is_abandoned held window now row ]
contains-abandoned held window now print [] h = refl
contains-abandoned held window now print (row ∷ rest) h =
    let idle = retain (is_idle window now) rest in
    let not_idle =
      contains-keep (λ r. r.fingerprint) (is_idle window now) rest row.fingerprint h.0 in
    let not_left =
      contains-keep (λ r. r.fingerprint) (unspared held) idle row.fingerprint not_idle in
    ground (arith, contains-abandoned held window now print rest h.1, not_left)

end_each-ended :
    (held : List Text) (rows table : List SignIn)
    → (end_each held rows table).1 ≡ map (λ row. row.user_id) (retain (unspared held) rows)
unfolding end_each
end_each-ended held [] table = refl
end_each-ended held (row ∷ rest) table = ground (
  arith,
  end_each-ended held rest table,
  end_each-ended held rest (delete_fingerprint row.fingerprint table),
)

-- Whom a token signs in after a sweep, by its row before.
abbrev pub held_after : List Text → Duration → ℕ → Option SignIn → Option UserId
held_after held window now none = none
held_after held window now (some row) =
    if is_abandoned held window now row then none else some row.user_id

abbrev pub row_of : (SignInToken → Text) → SignInToken → List SignIn → Option SignIn
row_of fingerprint token = find (has (fingerprint token))

left-held_after :
    (held : List Text) (window : Duration) (now : ℕ) (found : Option SignIn) (ends : Bool)
    → ends ≡ elim found [ none ↦ false | some row ↦ is_abandoned held window now row ]
    → Option.map (λ row. row.user_id) (if ends then none else found)
      ≡ held_after held window now found
left-held_after held window now none ends e = ground arith
left-held_after held window now (some row) ends e = rw e (ground arith)

-- A sweep ends exactly the sign-ins that have been idle for the window and that nobody spares: each
-- token then signs in whom it did before, unless its row is one of those, and then nobody. It
-- answers with the users of those rows, one for each, and of no others.
pub end_sign_ins_idle_for-holder_of :
    (fingerprint : SignInToken → Text) (window : Duration) (spared : List SignInToken) (now : ℕ)
    (table : List SignIn) (token : SignInToken)
    → Distinct (fingerprints table)
    → let (left, ended) = end_sign_ins_idle_for fingerprint window spared now table in
      (holder_of fingerprint token left
        ≡ held_after (map fingerprint spared) window now (row_of fingerprint token table))
      × (ended
          ≡ map
              (λ row. row.user_id)
              (retain (unspared (map fingerprint spared)) (retain (is_idle window now) table)))
unfolding end_sign_ins_idle_for holder_of
end_sign_ins_idle_for-holder_of fingerprint window spared now table token h =
    let held = map fingerprint spared in
    let print = fingerprint token in
    (
      ap (Option.map (λ row. row.user_id))
            (find-end_each held print (retain (is_idle window now) table) table)
          ∙ left-held_after held window now (find (has print) table) _
              (contains-abandoned held window now print table h),
      end_each-ended held (retain (is_idle window now) table) table,
    )
