-- ===== src/Prelude/Ordered.antt =====
-- Rows with a key of their own: in any order, and of those the ones that pass a test.
use mathlib.Core.Path.{◌≡◌, refl, ap, sym, subst, ◌∙◌}
use mathlib.Core.Logic.{inl, inr}
use mathlib.Core.Bool.{Bool, true, false, ◌&&◌, ◌||◌}
use mathlib.Core.List.{List, [], ◌∷◌, ◌++◌, map}
unfoldable use mathlib.Core.List.{flat_map}
use mathlib.Core.Option as Option
use mathlib.Core.Option.{Option, none, some}
use native.Mathlib.Omega.{arith}
use Prim.Native.Nat.{ℕ}
use voxloop.Prelude.Tests.{◌==◌, if◌then◌else◌, Bool-cases, eq_of_==}
use voxloop.Prelude.Lists.{
  any, find, retain, contains, Distinct, All, All-append, Distinct-push, map-push,
}
use voxloop.Prelude.Rows.{
  update_where, insert_by, order_by, any-insert_by, any-order_by, contains-any,
}

-- The answer, where it passes.
abbrev pub only_if {ℓ} : {A : Type ℓ} → (A → Bool) → Option A → Option A
only_if p none = none
only_if p (some x) = if p x then some x else none

pub find-map {ℓ κ} :
    {A : Type ℓ} {B : Type κ} (p : B → Bool) (f : A → B) (xs : List A)
    → find p (map f xs) ≡ Option.map f (find (λ x. p (f x)) xs)
find-map p f [] = refl
find-map p f (x ∷ xs) = elim (Bool-cases (p (f x))) [
  | inl hit ↦ simp (hit)
  | inr miss ↦ simp (miss, find-map p f xs)
]

module _ {ℓ} {A : Type ℓ} (key : A → ℕ) where
  pub map-update_where :
      (p : A → Bool) (f : A → A) (xs : List A)
      → ((x : A) → key (f x) ≡ key x)
      → map key (update_where p f xs) ≡ map key xs
  map-update_where p f [] same = refl
  map-update_where p f (x ∷ xs) same = ground (arith, same x, map-update_where p f xs same)

  pub contains-order_by :
      (le : A → A → Bool) (k : ℕ) (xs : List A)
      → contains (map key (order_by le xs)) k ≡ contains (map key xs) k
  contains-order_by le k xs =
      sym (contains-any key le k (order_by le xs))
      ∙ any-order_by le (λ x. key x == k) xs
      ∙ contains-any key le k xs

  Distinct-insert_by :
      (le : A → A → Bool) (x : A) (xs : List A)
      → contains (map key xs) (key x) ≡ false
      → Distinct (map key xs)
      → Distinct (map key (insert_by le x xs))
  Distinct-insert_by le x [] new d = (refl, tt)
  Distinct-insert_by le x (y ∷ ys) new d =
      let later = contains-any key le (key y) (insert_by le x ys) in
      let moved = any-insert_by le (λ z. key z == key y) x ys in
      let its = contains-any key le (key y) ys in
      ground (arith, Distinct-insert_by le x ys, later, moved, its)

  pub Distinct-order_by :
      (le : A → A → Bool) (xs : List A)
      → Distinct (map key xs)
      → Distinct (map key (order_by le xs))
  Distinct-order_by le [] d = tt
  Distinct-order_by le (x ∷ xs) d =
      Distinct-insert_by le x (order_by le xs) (contains-order_by le (key x) xs ∙ d.0)
        (Distinct-order_by le xs d.1)

  find_absent :
      (p : A → Bool) (k : ℕ) (xs : List A)
      → contains (map key xs) k ≡ false
      → find (λ x. key x == k) (retain p xs) ≡ none
  find_absent p k [] h = refl
  find_absent p k (x ∷ xs) h = ground (arith, find_absent p k xs)

  -- A row is found by its key among the rows that pass exactly where it is one that passes.
  pub find-retain :
      (p : A → Bool) (k : ℕ) (xs : List A)
      → Distinct (map key xs)
      → find (λ x. key x == k) (retain p xs) ≡ only_if p (find (λ x. key x == k) xs)
  find-retain p k [] d = refl
  find-retain p k (x ∷ xs) d = elim (Bool-cases (key x == k)) [
    | inl hit ↦
        let gone = ap (contains (map key xs)) (sym (eq_of_== _ _ hit)) ∙ d.0 in
        elim (Bool-cases (p x)) [
          | inl passes ↦ simp (hit, passes)
          | inr fails ↦ simp (hit, fails, find_absent p k xs gone)
        ]
    | inr miss ↦ elim (Bool-cases (p x)) [
      | inl passes ↦ simp (miss, passes, find-retain p k xs d.1)
      | inr fails ↦ simp (miss, fails, find-retain p k xs d.1)
    ]
  ]

module _ {ℓ} {A : Type ℓ} (key : A → ℕ) where
  find_absent_both :
      (q : A → Bool) (k : ℕ) (xs : List A)
      → contains (map key xs) k ≡ false
      → find (λ x. key x == k && q x) xs ≡ none
  find_absent_both q k [] h = refl
  find_absent_both q k (x ∷ xs) h = ground (arith, find_absent_both q k xs)

  -- A key and a test find the row of the key, where that passes.
  pub find-both :
      (q : A → Bool) (k : ℕ) (xs : List A)
      → Distinct (map key xs)
      → find (λ x. key x == k && q x) xs ≡ only_if q (find (λ x. key x == k) xs)
  find-both q k [] d = refl
  find-both q k (x ∷ xs) d = elim (Bool-cases (key x == k)) [
    | inl hit ↦
        let gone = ap (contains (map key xs)) (sym (eq_of_== _ _ hit)) ∙ d.0 in
        elim (Bool-cases (q x)) [
          | inl passes ↦ simp (hit, passes)
          | inr fails ↦ simp (hit, fails, find_absent_both q k xs gone)
        ]
    | inr miss ↦ simp (miss, find-both q k xs d.1)
  ]

module _ {ℓ κ} {A : Type ℓ} {B : Type κ} where
  -- What the elements that pass have is what their images have.
  pub All-map-retain {ι υ} :
      {P : A → Type ι} (R : B → Type υ) (q : A → Bool) (f : A → B) (xs : List A)
      → ((x : A) → q x ≡ true → P x → R (f x))
      → All P xs
      → All R (map f (retain q xs))
  All-map-retain R q f [] has h = tt
  All-map-retain R q f (x ∷ xs) has h = elim (Bool-cases (q x)) [
    | inl hit ↦ rw hit (has x hit h.0, All-map-retain R q f xs has h.1)
    | inr miss ↦ rw miss (All-map-retain R q f xs has h.1)
  ]

  pub All-flat_map {ι υ} :
      {P : A → Type ι} (R : B → Type υ) (f : A → List B) (xs : List A)
      → ((x : A) → P x → All R (f x))
      → All P xs
      → All R (flat_map f xs)
  unfolding flat_map
  All-flat_map R f [] has h = tt
  All-flat_map R f (x ∷ xs) has h =
      All-append R (f x) (flat_map f xs) (has x h.0) (All-flat_map R f xs has h.1)

pub All-order_by {ℓ ι} :
    {A : Type ℓ} (P : A → Type ι) (le : A → A → Bool) (xs : List A)
    → All P xs
    → All P (order_by le xs)
All-order_by P le [] h = tt
All-order_by P le (x ∷ xs) h = inserted x (order_by le xs) h.0 (All-order_by P le xs h.1)
  where
    inserted : (y : _) (ys : List _) → P y → All P ys → All P (insert_by le y ys)
    inserted y [] k h = (k, tt)
    inserted y (z ∷ zs) k h = elim (Bool-cases (le y z)) [
      | inl first ↦ rw first (k, h)
      | inr later ↦ rw later (h.0, inserted y zs k h.1)
    ]

pub All-both {ℓ ι υ} :
    {A : Type ℓ} (P : A → Type ι) (Q : A → Type υ) (xs : List A)
    → All P xs
    → All Q xs
    → All (λ x. P x × Q x) xs
All-both P Q [] h k = tt
All-both P Q (x ∷ xs) h k = ((h.0, k.0), All-both P Q xs h.1 k.1)

pub All-retain_holds {ℓ ι} :
    {A : Type ℓ} (P : A → Type ι) (q : A → Bool) (xs : List A)
    → All P xs
    → All (λ x. P x × (q x ≡ true)) (retain q xs)
All-retain_holds P q [] h = tt
All-retain_holds P q (x ∷ xs) h = elim (Bool-cases (q x)) [
  | inl hit ↦ rw hit ((h.0, hit), All-retain_holds P q xs h.1)
  | inr miss ↦ rw miss (All-retain_holds P q xs h.1)
]

-- A row that is written under a key that no row has.
pub Distinct-new {ℓ} :
    {A : Type ℓ} (key : A → ℕ) (other : A → Bool) (xs : List A) (x : A)
    → any (λ y. key y == key x || other y) xs ≡ false
    → Distinct (map key xs)
    → Distinct (map key (xs ++ x ∷ []))
Distinct-new key other xs x new d =
    subst Distinct (sym (map-push key xs x)) (Distinct-push (map key xs) (key x) (absent xs new) d)
  where
    absent :
        (ys : List _)
        → any (λ y. key y == key x || other y) ys ≡ false
        → contains (map key ys) (key x) ≡ false
    absent [] h = refl
    absent (y ∷ ys) h = ground (arith, absent ys)
