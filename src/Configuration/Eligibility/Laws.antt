-- ===== src/Configuration/Eligibility/Laws.antt =====
-- What granting and revoking change of who may assume what (src/configuration/eligibility.rs).
use voxloop.Prelude.{
  ℕ, ◌≡◌, refl, ◌∙◌, Bool, true, false, not, ◌&&◌, ◌||◌, ◌==◌, some, none, List, [], ◌∷◌, retain,
  any, arith, Bool-cases, inl, inr, any-append,
}
use voxloop.Names.{UserId, RoleId}
use voxloop.Configuration.Tables.{EligibilityRow, Tables}
use voxloop.Configuration.Eligibility.{
  Eligibility, pairs, is_eligible, the_pair, an_eligibility, with_grant, grant_eligibility,
  revoke_eligibility,
}

abbrev pub is_the_pair : UserId → RoleId → UserId → RoleId → Bool
is_the_pair id role id' role' = id' == id && role' == role

-- A test that only the pair passes is of the pair.
any-pair :
    (id id' : UserId) (role role' : RoleId) (rows : List EligibilityRow)
    → any (pairs id role) rows ≡ true
    → is_the_pair id role id' role' ≡ true
    → any (pairs id' role') rows ≡ true
any-pair id id' role role' [] h same = h
any-pair id id' role role' (row ∷ rows) h same = ground (arith, any-pair id id' role role' rows)

with_grant-any :
    (id id' : UserId) (role role' : RoleId) (now : ℕ) (t : Tables)
    → any (pairs id' role') (with_grant id role now t).eligibility
      ≡ any (pairs id' role') t.eligibility || is_the_pair id role id' role'
with_grant-any id id' role role' now t = elim (Bool-cases (any (pairs id role) t.eligibility)) [
  | inl held ↦ rw held (ground (arith, any-pair id id' role role' t.eligibility held))
  | inr new ↦ rw new (any-append (pairs id' role') t.eligibility _ ∙ ground arith)
]

any-revoked :
    (id id' : UserId) (role role' : RoleId) (rows : List EligibilityRow)
    → any (pairs id' role') (retain (λ row. not (pairs id role row)) rows)
      ≡ any (pairs id' role') rows && not (is_the_pair id role id' role')
any-revoked id id' role role' [] = refl
any-revoked id id' role role' (row ∷ rows) = ground (arith, any-revoked id id' role role' rows)

never_held :
    (id id' : UserId) (role role' : RoleId) (rows : List EligibilityRow)
    → any (pairs id role) rows ≡ false
    → any (pairs id' role') rows ≡ any (pairs id' role') rows && not (is_the_pair id role id' role')
never_held id id' role role' rows never = elim (Bool-cases (any (pairs id' role') rows)) [
  | inl held ↦ ground (arith, never, held, any-pair id' id role' role rows held)
  | inr lacks ↦ ground (arith, lacks)
]

-- Granting and revoking decide the pair that they name, where its user and its role are there, and
-- no other: after a grant the user may assume the role, after a revocation not, and what any other
-- user may assume is as it was.
pub grant_eligibility-is_eligible :
    (id id' : UserId) (role role' : RoleId) (now : ℕ) (t : Tables) (both : Eligibility)
    → the_pair t id role ≡ some both
    → (is_eligible (grant_eligibility id role now t).0 id' role'
        ≡ is_eligible t id' role' || is_the_pair id role id' role')
      × (is_eligible (revoke_eligibility id role t).0 id' role'
          ≡ is_eligible t id' role' && not (is_the_pair id role id' role'))
unfolding grant_eligibility revoke_eligibility is_eligible an_eligibility
grant_eligibility-is_eligible id id' role role' now t both there = (
  rw (there, grant_eligibility) (with_grant-any id id' role role' now t),
  elim (Bool-cases (any (pairs id role) t.eligibility)) [
    | inl held ↦
        let known : an_eligibility t id role ≡ some both = rw (held, an_eligibility) there in
        rw (known, revoke_eligibility) (any-revoked id id' role role' t.eligibility)
    | inr never ↦
        let unknown : an_eligibility t id role ≡ none = rw (never, an_eligibility) refl in
        rw (unknown, revoke_eligibility) (never_held id id' role role' t.eligibility never)
  ],
)
