-- ===== src/Prelude/Keys.antt =====
-- Lists whose elements carry an identifier: what finding, removing and rewriting do to it.
use Prim.Native.Nat.{ℕ}
use mathlib.Core.Path.{◌≡◌, refl}
use mathlib.Core.Bool.{Bool, true, false, not}
use mathlib.Core.List.{List, [], ◌∷◌, map}
use mathlib.Core.Option.{none, some}
use native.Mathlib.Omega.{arith}
use voxloop.Prelude.Tests.{◌==◌}
use voxloop.Prelude.Lists.{retain, any, find, update_first, remove_first, All, contains, Distinct}

module _ {ℓ} {A : Type ℓ} where
  pub All-map {κ ι} :
      {P : A → Type κ} {Q : A → Type ι} (f : (x : A) → P x → Q x) (xs : List A)
      → All P xs
      → All Q xs
  All-map f [] h = tt
  All-map f (x ∷ xs) h = (f x h.0, All-map f xs h.1)

  pub find-All {κ} :
      (P : A → Type κ) (p : A → Bool) (xs : List A) (y : A) → All P xs → find p xs ≡ some y → P y
  find-All P p [] y h e = absurd (cc)
  find-All P p (x ∷ xs) y h e = ground (arith, find-All P p xs y h.1)

  -- What `find` answers passes the test.
  pub find-passes : (p : A → Bool) (xs : List A) (y : A) → find p xs ≡ some y → p y ≡ true
  find-passes p [] y e = cc
  find-passes p (x ∷ xs) y e = ground (arith, find-passes p xs y)

  pub any-find : (p : A → Bool) (xs : List A) → find p xs ≡ none → any p xs ≡ false
  any-find p [] e = refl
  any-find p (x ∷ xs) e = ground (arith, any-find p xs)

  pub any-find-some : (p : A → Bool) (xs : List A) (y : A) → find p xs ≡ some y → any p xs ≡ true
  any-find-some p [] y e = cc
  any-find-some p (x ∷ xs) y e = ground (arith, any-find-some p xs y)

  pub map-update {κ} :
      {B : Type κ} (key : A → B) (p : A → Bool) (f : A → A)
      → ((x : A) → key (f x) ≡ key x)
      → (xs : List A) → map key (update_first p f xs) ≡ map key xs
  map-update key p f same [] = refl
  map-update key p f same (x ∷ xs) = ground (arith, same x, map-update key p f same xs)

  module _ (key : A → ℕ) where
    pub contains-remove :
        (p : A → Bool) (xs : List A) (a : ℕ)
        → contains (map key xs) a ≡ false
        → contains (map key (remove_first p xs)) a ≡ false
    contains-remove p [] a h = refl
    contains-remove p (x ∷ xs) a h = ground (arith, contains-remove p xs a)

    pub contains-keep :
        (p : A → Bool) (xs : List A) (a : ℕ)
        → contains (map key xs) a ≡ false
        → contains (map key (retain p xs)) a ≡ false
    contains-keep p [] a h = refl
    contains-keep p (x ∷ xs) a h = ground (arith, contains-keep p xs a)

    pub Distinct-remove :
        (p : A → Bool) (xs : List A)
        → Distinct (map key xs)
        → Distinct (map key (remove_first p xs))
    Distinct-remove p [] d = tt
    Distinct-remove p (x ∷ xs) d =
        ground (arith, contains-remove p xs (key x), Distinct-remove p xs d.1)

    pub Distinct-keep :
        (p : A → Bool) (xs : List A) → Distinct (map key xs) → Distinct (map key (retain p xs))
    Distinct-keep p [] d = tt
    Distinct-keep p (x ∷ xs) d = ground (arith, contains-keep p xs (key x), Distinct-keep p xs d.1)

    pub contains-find :
        (a : ℕ) (xs : List A) → find (λ x. key x == a) xs ≡ none → contains (map key xs) a ≡ false
    contains-find a [] e = refl
    contains-find a (x ∷ xs) e = ground (arith, contains-find a xs)

    pub contains-retain_others :
        (a : ℕ) (xs : List A) → contains (map key (retain (λ x. not (key x == a)) xs)) a ≡ false
    contains-retain_others a [] = refl
    contains-retain_others a (x ∷ xs) = ground (arith, contains-retain_others a xs)

    pub find-key-contains :
        (p : A → Bool) (xs : List A) (y : A)
        → find p xs ≡ some y
        → contains (map key xs) (key y) ≡ true
    find-key-contains p [] y e = cc
    find-key-contains p (x ∷ xs) y e = ground (arith, find-key-contains p xs y)

    -- Where keys are distinct, the key of what is found is gone once it is removed.
    pub contains-found :
        (p : A → Bool) (xs : List A) (y : A)
        → Distinct (map key xs)
        → find p xs ≡ some y
        → contains (map key (remove_first p xs)) (key y) ≡ false
    contains-found p [] y d e = cc
    contains-found p (x ∷ xs) y d e =
        ground (arith, find-key-contains p xs y, contains-found p xs y d.1)

    -- An element found by its own key, among distinct keys, is gone by that key too.
    pub contains-removed :
        (a : ℕ) (xs : List A)
        → Distinct (map key xs)
        → contains (map key (remove_first (λ x. key x == a) xs)) a ≡ false
    contains-removed a [] d = refl
    contains-removed a (x ∷ xs) d = ground (arith, contains-removed a xs d.1)
