-- ===== src/Prelude/Rows.antt =====
-- Tables as lists of rows: an UPDATE on the rows that match, and an ORDER BY.
use mathlib.Core.Path.{◌≡◌, refl, ap, sym, ◌∙◌}
use mathlib.Core.Logic.{inl, inr}
use mathlib.Core.Bool.{Bool, true, false}
use mathlib.Core.List.{List, [], ◌∷◌, map}
use mathlib.Core.Option as Option
use mathlib.Core.Option.{Option, none, some}
use native.Mathlib.Omega.{arith}
use Prim.Native.Nat.{ℕ}
use voxloop.Prelude.Tests.{◌==◌, if◌then◌else◌, Bool-cases, eq_of_==}
use voxloop.Prelude.Lists.{any, find, contains, Distinct, All}

module _ {ℓ} {A : Type ℓ} where
  -- `UPDATE .. WHERE p`.
  abbrev pub update_where : (A → Bool) → (A → A) → List A → List A
  update_where p f = map (λ x. if p x then f x else x)

  abbrev pub insert_by : (A → A → Bool) → A → List A → List A
  insert_by le x [] = x ∷ []
  insert_by le x (y ∷ ys) = if le x y then x ∷ y ∷ ys else y ∷ insert_by le x ys

  -- `ORDER BY`: rows that are equal in the order keep the order of the table.
  abbrev pub order_by : (A → A → Bool) → List A → List A
  order_by le [] = []
  order_by le (x ∷ xs) = insert_by le x (order_by le xs)

  pub any-insert_by :
      (le : A → A → Bool) (p : A → Bool) (x : A) (xs : List A)
      → any p (insert_by le x xs) ≡ any p (x ∷ xs)
  any-insert_by le p x [] = refl
  any-insert_by le p x (y ∷ ys) = ground (arith, any-insert_by le p x ys)

  pub any-order_by :
      (le : A → A → Bool) (p : A → Bool) (xs : List A) → any p (order_by le xs) ≡ any p xs
  any-order_by le p [] = refl
  any-order_by le p (x ∷ xs) =
      ground (arith, any-insert_by le p x (order_by le xs), any-order_by le p xs)

  pub update_where_none :
      (p : A → Bool) (f : A → A) (xs : List A) → any p xs ≡ false → update_where p f xs ≡ xs
  update_where_none p f [] none_passes = refl
  update_where_none p f (x ∷ xs) none_passes = ground (arith, none_passes, update_where_none p f xs)

  pub any-update_where :
      (p q : A → Bool) (f : A → A) (xs : List A)
      → ((x : A) → q (f x) ≡ q x)
      → any q (update_where p f xs) ≡ any q xs
  any-update_where p q f [] keeps = refl
  any-update_where p q f (x ∷ xs) keeps = ground (arith, keeps x, any-update_where p q f xs keeps)

  pub find-update_where :
      (p q : A → Bool) (f : A → A) (xs : List A)
      → ((x : A) → q (f x) ≡ q x)
      → find q (update_where p f xs) ≡ Option.map (λ x. if p x then f x else x) (find q xs)
  find-update_where p q f [] keeps = refl
  find-update_where p q f (x ∷ xs) keeps = elim (Bool-cases (q x)) [
    | inl it ↦ elim (Bool-cases (p x)) [
      | inl hit ↦ simp (it, hit, keeps x)
      | inr miss ↦ simp (it, miss)
    ]
    | inr not_it ↦ elim (Bool-cases (p x)) [
      | inl hit ↦ simp (not_it, hit, keeps x, find-update_where p q f xs keeps)
      | inr miss ↦ simp (not_it, miss, find-update_where p q f xs keeps)
    ]
  ]

  pub find-update_where_self :
      (p : A → Bool) (f : A → A) (xs : List A)
      → ((x : A) → p (f x) ≡ p x)
      → find p (update_where p f xs) ≡ Option.map f (find p xs)
  find-update_where_self p f [] keeps = refl
  find-update_where_self p f (x ∷ xs) keeps = elim (Bool-cases (p x)) [
    | inl it ↦ simp (it, keeps x)
    | inr not_it ↦ simp (not_it, find-update_where_self p f xs keeps)
  ]

  -- An update that keeps a test, and changes only rows that fail it, is not seen by it.
  pub find-update_where_other :
      (p q : A → Bool) (f : A → A) (xs : List A)
      → ((x : A) → p x ≡ true → q x ≡ false)
      → ((x : A) → q (f x) ≡ q x)
      → find q (update_where p f xs) ≡ find q xs
  find-update_where_other p q f [] excludes keeps = refl
  find-update_where_other p q f (x ∷ xs) excludes keeps = elim (Bool-cases (p x)) [
    | inl it ↦ simp (it, excludes x it, keeps x, find-update_where_other p q f xs excludes keeps)
    | inr not_it ↦ simp (not_it, find-update_where_other p q f xs excludes keeps)
  ]

  pub All-update_where {κ} :
      (P : A → Type κ) (p : A → Bool) (f : A → A) (xs : List A)
      → ((x : A) → P x → P (f x))
      → All P xs
      → All P (update_where p f xs)
  All-update_where P p f [] keep h = h
  All-update_where P p f (x ∷ xs) keep h =
      ground (arith, keep x h.0, All-update_where P p f xs keep h.1)

  module _ (key : A → ℕ) (le : A → A → Bool) where
    find-insert_by :
        (k : ℕ) (x : A) (xs : List A)
        → (key x == k ≡ true → any (λ y. key y == k) xs ≡ false)
        → find (λ y. key y == k) (insert_by le x xs) ≡ find (λ y. key y == k) (x ∷ xs)
    find-insert_by k x [] apart = refl
    find-insert_by k x (y ∷ ys) apart = ground (arith, find-insert_by k x ys, apart)

    pub contains-any : (k : ℕ) (xs : List A) → any (λ y. key y == k) xs ≡ contains (map key xs) k
    contains-any k [] = refl
    contains-any k (x ∷ xs) = ground (arith, contains-any k xs)

    -- A key finds the same row in any order.
    pub find-order_by :
        (k : ℕ) (xs : List A)
        → Distinct (map key xs)
        → find (λ y. key y == k) (order_by le xs) ≡ find (λ y. key y == k) xs
    find-order_by k [] h = refl
    find-order_by k (x ∷ xs) h =
        find-insert_by k x (order_by le xs) (λ e.
          any-order_by le (λ y. key y == k) xs
          ∙ contains-any k xs
          ∙ ap (contains (map key xs)) (sym (eq_of_== _ _ e))
          ∙ h.0)
        ∙ ap (λ rest. if key x == k then some x else rest) (find-order_by k xs h.1)
