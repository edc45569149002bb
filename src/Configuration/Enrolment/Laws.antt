-- ===== src/Configuration/Enrolment/Laws.antt =====
-- The life of an enrolment code (src/configuration/enrolment.rs).
use voxloop.Prelude.{
  ℕ, ◌≡◌, ◌≤◌, refl, ap, sym, ◌∙◌, Bool, true, false, not, ◌&&◌, ◌==◌, ==-refl, eq_of_==, Option,
  some, none, List, [], ◌∷◌, ◌++◌, map, retain, any, find, arith, Bool-cases, inl, inr,
  if◌then◌else◌, ltb, Distinct, only_if, find-passes, find-both, Distinct-keep, find-retain,
  find-push_other,
}
use mathlib.Core.Option as Option
use mathlib.Core.Option.{some-injective}
use voxloop.Names.{Text, UserId}
use voxloop.Configuration.Tables.{CodeRow, Tables}
use voxloop.Configuration.Enrolment.{
  EnrolmentCode, Issued, good_until, is_good, is_for, is_spent_by, issue_enrolment_code,
  spend_enrolment_code,
}

abbrev has : Text → CodeRow → Bool
has print row = row.fingerprint == print

abbrev pub prints : List CodeRow → List Text
prints = map (λ row. row.fingerprint)

abbrev owner : Option CodeRow → Option UserId
owner = Option.map (λ row. row.user)

-- The user, where it is another than the one.
abbrev pub unless : UserId → Option UserId → Option UserId
unless id = only_if (λ user. not (user == id))

-- A row that is still good later was good before, and was spared where it was somebody else's.
spared :
    (id : UserId) (now later : ℕ) (found : Option CodeRow)
    → now ≤ later
    → owner (
        only_if
          (is_good later)
          (only_if (λ row. not (is_for id row)) (only_if (is_good now) found)))
      ≡ unless id (owner (only_if (is_good later) found))
spared id now later none order = refl
spared id now later (some row) order = elim (Bool-cases (ltb later row.expires_at)) [
  | inl good ↦
      let before : ltb now row.expires_at ≡ true = ground arith in
      elim (Bool-cases (row.user == id)) [
        | inl its ↦ simp (good, before, its)
        | inr other ↦ simp (good, before, other)
      ]
  | inr late ↦ elim (Bool-cases (ltb now row.expires_at)) [
    | inl before ↦ elim (Bool-cases (row.user == id)) [
      | inl its ↦ simp (late, before, its)
      | inr other ↦ simp (late, before, other)
    ]
    | inr expired ↦ simp (late, expired)
  ]
]

unguarded {ℓ} :
    {A : Type ℓ} (refuses : Bool) (x y : A)
    → (if refuses then none else some x) ≡ some y
    → (refuses ≡ false) × (x ≡ y)
unguarded true x y e = absurd (cc)
unguarded false x y e = (refl, some-injective _ _ e)

module _ (fingerprint : EnrolmentCode → Text) (id : UserId) (now : ℕ) (t : Tables) where
  abbrev remaining : List CodeRow
  remaining = retain (λ row. not (is_for id row)) (retain (is_good now) t.codes)

  abbrev fresh : EnrolmentCode → CodeRow
  fresh code = record {
    fingerprint = fingerprint code;
    user = id;
    issued_at = now;
    expires_at = good_until now;
  }

  remaining_differ : Distinct (prints t.codes) → Distinct (prints remaining)
  remaining_differ d =
      Distinct-keep (λ row. row.fingerprint) _ (retain (is_good now) t.codes)
        (Distinct-keep (λ row. row.fingerprint) _ t.codes d)

  -- What an older code is worth after the issue.
  find-remaining :
      (code : EnrolmentCode) (later : ℕ)
      → now ≤ later
      → Distinct (prints t.codes)
      → owner (find (is_spent_by fingerprint code later) remaining)
        ≡ unless id (owner (find (is_spent_by fingerprint code later) t.codes))
  find-remaining code later order d =
      let key : CodeRow → Text = λ row. row.fingerprint in
      let print = fingerprint code in
      ap owner (
        find-both key (is_good later) print remaining (remaining_differ d)
        ∙ ap (only_if (is_good later)) (
            find-retain key (λ row. not (is_for id row)) print (retain (is_good now) t.codes)
              (Distinct-keep key _ t.codes d)
            ∙ ap (only_if (λ row. not (is_for id row)))
                (find-retain key (is_good now) print t.codes d)))
      ∙ spared id now later (find (λ row. row.fingerprint == print) t.codes) order
      ∙ ap (λ o. unless id (owner o)) (sym (find-both key (is_good later) print t.codes d))

  its_own :
      (code : EnrolmentCode) (later : ℕ) (rows : List CodeRow)
      → any (has (fingerprint code)) rows ≡ false
      → owner (find (is_spent_by fingerprint code later) (rows ++ fresh code ∷ []))
        ≡ (if ltb later (good_until now) then some id else none)
  its_own code later [] free = elim (Bool-cases (ltb later (good_until now))) [
    | inl good ↦ rw good (simp (==-refl (fingerprint code)))
    | inr late ↦ rw late (simp (==-refl (fingerprint code)))
  ]
  its_own code later (row ∷ rows) free =
      ground (arith, its_own code later rows (ground (arith, free)))

  issued_codes :
      (code : EnrolmentCode) (next : Tables) (issued : Issued)
      → issue_enrolment_code fingerprint code id now t ≡ some (next, issued)
      → (next.codes ≡ remaining ++ fresh code ∷ [])
        × (any (has (fingerprint code)) remaining ≡ false)
  unfolding issue_enrolment_code
  issued_codes code next issued made =
      let (passed, same) = unguarded _ _ _ made in
      (ap (λ m. m.0.codes) (sym same), ground (arith, passed))

  -- From the moment of an issue on, and where no two codes had one fingerprint, what was issued
  -- enrols the user until it expires and nobody from then on; and a code with another fingerprint
  -- enrols whom it would have enrolled, unless that is this user: then it enrols nobody.
  pub issue_enrolment_code-spend :
      (code other : EnrolmentCode) (later : ℕ) (next : Tables) (issued : Issued)
      → Distinct (prints t.codes)
      → now ≤ later
      → issue_enrolment_code fingerprint code id now t ≡ some (next, issued)
      → (spend_enrolment_code fingerprint other later next).1 ≡ (
          if fingerprint code == fingerprint other
          then (if ltb later (good_until now) then some id else none)
          else unless id (spend_enrolment_code fingerprint other later t).1)
  unfolding spend_enrolment_code
  issue_enrolment_code-spend code other later next issued d order made =
      let (codes, free) = issued_codes code next issued made in
      ap (λ cs. owner (find (is_spent_by fingerprint other later) cs)) codes
      ∙ elim (Bool-cases (fingerprint code == fingerprint other)) [
        | inl same ↦ simp (same) (
            ap
              (λ print. owner (
                find (λ row. row.fingerprint == print && is_good later row)
                  (remaining ++ fresh code ∷ [])))
              (sym (eq_of_== (fingerprint code) (fingerprint other) same))
            ∙ its_own code later remaining free)
        | inr apart ↦ simp (apart) (
            ap owner (
              find-push_other (is_spent_by fingerprint other later) remaining (fresh code)
                (ground (arith, apart)))
            ∙ find-remaining other later order d)
      ]

-- A code is spent once: after it has enrolled somebody it enrols nobody, whenever it is presented.
pub spend_enrolment_code-once :
    (fingerprint : EnrolmentCode → Text) (code : EnrolmentCode) (now later : ℕ) (t : Tables)
    (id : UserId)
    → Distinct (prints t.codes)
    → (spend_enrolment_code fingerprint code now t).1 ≡ some id
    → (spend_enrolment_code fingerprint code later
        (spend_enrolment_code fingerprint code now t).0).1
      ≡ none
unfolding spend_enrolment_code
spend_enrolment_code-once fingerprint code now later t id d spent =
    let key : CodeRow → Text = λ row. row.fingerprint in
    let print = fingerprint code in
    let left = retain (λ row. not (is_spent_by fingerprint code now row)) t.codes in
    ap owner (
      find-both key (is_good later) print left (Distinct-keep key _ t.codes d)
      ∙ ap (only_if (is_good later)) (find-retain key _ print t.codes d))
    ∙ gone (find (has print) t.codes) (λ row found. find-passes (has print) t.codes row found)
        (ap owner (sym (find-both key (is_good now) print t.codes d)) ∙ spent)
  where
    gone :
        (found : Option CodeRow)
        → ((row : CodeRow) → found ≡ some row → has (fingerprint code) row ≡ true)
        → owner (only_if (is_good now) found) ≡ some id
        → owner (
            only_if
              (is_good later)
              (only_if (λ row. not (is_spent_by fingerprint code now row)) found))
          ≡ none
    gone none its e = refl
    gone (some row) its e = elim (Bool-cases (is_good now row)) [
      | inl good ↦ simp (its row refl, good)
      | inr late ↦ absurd (ground (arith, late, e))
    ]
