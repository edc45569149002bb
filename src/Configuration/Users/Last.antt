-- ===== src/Configuration/Users/Last.antt =====
-- Which user is the last system administrator (src/configuration/users.rs).
use voxloop.Prelude.{
  ◌≡◌, refl, ap, sym, ◌∙◌, Bool, true, false, not, ◌&&◌, ◌||◌, ◌==◌, eq_of_==, List, [], ◌∷◌, map,
  retain, any, arith, Bool-cases, inl, inr, Distinct, contains, ltb, count,
}
use voxloop.Names.{UserId}
use voxloop.Configuration.Tables.{UserRow, Tables}
use voxloop.Configuration.Users.{
  two_of, is_just, is_the_last_administrator, a_system_administrator_exists,
}

abbrev pub is_empty : List UserId → Bool
is_empty [] = true
is_empty (_ ∷ _) = false

abbrev pub ids : List UserRow → List UserId
ids = map (λ row. row.id)

-- A system administrator who is the user, and one who is not.
abbrev pub administers : UserId → UserRow → Bool
administers id row = row.is_system_administrator && row.id == id

abbrev pub another_administers : UserId → UserRow → Bool
another_administers id row = row.is_system_administrator && not (row.id == id)

just_one :
    (id a : UserId) (rest : List UserId)
    → is_just id (two_of (a ∷ rest)) ≡ (a == id) && is_empty rest
just_one id a [] = ground arith
just_one id a (b ∷ rest) = ground arith

empty_rest :
    (id : UserId) (rows : List UserRow)
    → contains (ids rows) id ≡ false
    → is_empty (ids (retain (λ row. row.is_system_administrator) rows))
      ≡ not (any (another_administers id) rows)
empty_rest id [] new = refl
empty_rest id (row ∷ rows) new = ground (arith, empty_rest id rows)

just_the_holder :
    (id : UserId) (rows : List UserRow)
    → Distinct (ids rows)
    → is_just id (two_of (ids (retain (λ row. row.is_system_administrator) rows)))
      ≡ any (administers id) rows && not (any (another_administers id) rows)
just_the_holder id [] d = refl
just_the_holder id (row ∷ rows) d = elim (Bool-cases row.is_system_administrator) [
  | inr not_one ↦ rw not_one (just_the_holder id rows d.1)
  | inl one ↦ rw one (
      just_one id row.id (ids (retain (λ r. r.is_system_administrator) rows))
      ∙ (elim (Bool-cases (row.id == id)) [
        | inl same ↦
            let new = ap (contains (ids rows)) (sym (eq_of_== _ _ same)) ∙ d.0 in
            rw same (empty_rest id rows new)
        | inr apart ↦ ground (arith, apart)
      ]))
]

-- Where no two users share an identifier, a user is the last system administrator exactly where
-- that user is one and no other user is.
pub is_the_last_administrator_lem :
    (t : Tables) (id : UserId)
    → Distinct (ids t.users)
    → is_the_last_administrator t id
      ≡ any (administers id) t.users && not (any (another_administers id) t.users)
unfolding is_the_last_administrator
is_the_last_administrator_lem t id d = just_the_holder id t.users d

count-any :
    (rows : List UserRow)
    → ltb 0 (count (λ row. row.is_system_administrator) rows)
      ≡ any (λ row. row.is_system_administrator) rows
count-any [] = refl
count-any (row ∷ rows) = ground (arith, count-any rows)

pub exists-any :
    (t : Tables)
    → a_system_administrator_exists t ≡ any (λ row. row.is_system_administrator) t.users
unfolding a_system_administrator_exists
exists-any t = count-any t.users

split_administrators :
    (id : UserId) (rows : List UserRow)
    → any (λ row. row.is_system_administrator) rows
      ≡ any (administers id) rows || any (another_administers id) rows
split_administrators id [] = refl
split_administrators id (row ∷ rows) = ground (arith, split_administrators id rows)

-- One who is not the last leaves another behind.
pub another_remains :
    (t : Tables) (id : UserId)
    → Distinct (ids t.users)
    → a_system_administrator_exists t ≡ true
    → is_the_last_administrator t id ≡ false
    → any (another_administers id) t.users ≡ true
another_remains t id d some_one not_last =
    let all = sym (exists-any t ∙ split_administrators id t.users) ∙ some_one in
    let last = sym (is_the_last_administrator_lem t id d) ∙ not_last in ground (arith, all, last)
