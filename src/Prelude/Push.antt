-- ===== src/Prelude/Push.antt =====
-- What a search finds in a list that something was pushed to.
use mathlib.Core.Path.{◌≡◌, refl}
use mathlib.Core.Logic.{inl, inr}
use mathlib.Core.Bool.{Bool, true, false}
use mathlib.Core.List.{List, [], ◌∷◌, ◌++◌, map}
use mathlib.Core.Option as Option
use mathlib.Core.Option.{some, none}
use native.Mathlib.Omega.{arith}
use Prim.Native.Nat.{ℕ}
use voxloop.Prelude.Tests.{Bool-cases, ◌==◌}
use voxloop.Prelude.Lists.{update_first, retain, any, find, remove_first, All, contains}

module _ {ℓ} {A : Type ℓ} where
  -- No element passes the test.
  abbrev pub NoneOf : (A → Bool) → List A → Type 0
  NoneOf p = All (λ x. p x ≡ false)

  pub find-NoneOf : (p : A → Bool) (xs : List A) → NoneOf p xs → find p xs ≡ none
  find-NoneOf p [] h = refl
  find-NoneOf p (x ∷ xs) h = ground (arith, find-NoneOf p xs h.1)

  pub any-NoneOf : (p : A → Bool) (xs : List A) → NoneOf p xs → any p xs ≡ false
  any-NoneOf p [] h = refl
  any-NoneOf p (x ∷ xs) h = ground (arith, any-NoneOf p xs h.1)

  pub any-NoneOf_complete : (p : A → Bool) (xs : List A) → any p xs ≡ false → NoneOf p xs
  any-NoneOf_complete p [] h = tt
  any-NoneOf_complete p (x ∷ xs) h = (ground arith, any-NoneOf_complete p xs (ground arith))

  pub find-push_other :
      (p : A → Bool) (xs : List A) (y : A) → p y ≡ false → find p (xs ++ y ∷ []) ≡ find p xs
  find-push_other p [] y h = rw h refl
  find-push_other p (x ∷ xs) y h = ground (arith, find-push_other p xs y h)

  pub find-push :
      (p : A → Bool) (xs : List A) (y : A)
      → NoneOf p xs
      → p y ≡ true
      → find p (xs ++ y ∷ []) ≡ some y
  find-push p [] y h e = ground arith
  find-push p (x ∷ xs) y h e = ground (arith, find-push p xs y h.1)

  pub remove-push :
      (p : A → Bool) (xs : List A) (y : A)
      → NoneOf p xs
      → p y ≡ true
      → remove_first p (xs ++ y ∷ []) ≡ xs
  remove-push p [] y h e = ground arith
  remove-push p (x ∷ xs) y h e = ground (arith, remove-push p xs y h.1)

  pub retain-push :
      (p : A → Bool) (xs : List A) (y : A)
      → p y ≡ true
      → retain p (xs ++ y ∷ []) ≡ retain p xs ++ y ∷ []
  retain-push p [] y e = ground arith
  retain-push p (x ∷ xs) y e = ground (arith, retain-push p xs y)

  pub any-push : (p : A → Bool) (xs : List A) (y : A) → NoneOf p xs → any p (xs ++ y ∷ []) ≡ p y
  any-push p [] y h = ground arith
  any-push p (x ∷ xs) y h = ground (arith, any-push p xs y h.1)

  -- A key that no element carries is found by no test that asks for it.
  pub NoneOf-key :
      (key : A → ℕ) (p : A → Bool) (a : ℕ) (xs : List A)
      → ((x : A) → (key x == a) ≡ false → p x ≡ false)
      → contains (map key xs) a ≡ false
      → NoneOf p xs
  NoneOf-key key p a [] asks h = tt
  NoneOf-key key p a (x ∷ xs) asks h =
      (asks x (ground arith), NoneOf-key key p a xs asks (ground arith))

  -- What was written through `find` is what it finds.
  pub find-update :
      (p : A → Bool) (f : A → A) (xs : List A)
      → ((x : A) → p x ≡ true → p (f x) ≡ true)
      → find p (update_first p f xs) ≡ Option.map f (find p xs)
  find-update p f [] keep = refl
  find-update p f (x ∷ xs) keep = ground (arith, keep x, find-update p f xs keep)

  -- What was written through `find` for one test is not what a test that excludes it finds.
  pub find-update_other :
      (p q : A → Bool) (f : A → A) (xs : List A)
      → ((x : A) → p x ≡ true → q x ≡ false)
      → ((x : A) → q (f x) ≡ q x)
      → find q (update_first p f xs) ≡ find q xs
  find-update_other p q f [] excludes keeps = refl
  find-update_other p q f (x ∷ xs) excludes keeps = elim (Bool-cases (p x)) [
    | inl it ↦ simp (it, excludes x it, keeps x)
    | inr not_it ↦ simp (not_it, find-update_other p q f xs excludes keeps)
  ]
