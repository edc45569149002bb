-- ===== src/Prelude/Lists.antt =====
-- Lists as the program's vectors use them, with Boolean tests and native lengths.
use Prim.Native.Nat.{ℕ, suc}
use mathlib.Core.Path.{◌≡◌, refl, ap}
use mathlib.Core.Bool.{Bool, false, ◌&&◌, ◌||◌}
use mathlib.Core.List.{List, [], ◌∷◌, ◌++◌, map}
use mathlib.Core.Option.{Option, none, some}
use native.Mathlib.Omega.{arith}
use voxloop.Prelude.Tests.{◌==◌, if◌then◌else◌}

module _ {ℓ} {A : Type ℓ} where
  abbrev pub length : List A → ℕ
  length [] = 0
  length (x ∷ xs) = suc (length xs)

  -- `Vec::retain`.
  abbrev pub retain : (A → Bool) → List A → List A
  retain p [] = []
  retain p (x ∷ xs) = let rest = retain p xs in if p x then x ∷ rest else rest

  -- `iter().any(..)`.
  abbrev pub any : (A → Bool) → List A → Bool
  any p [] = false
  any p (x ∷ xs) = p x || any p xs

  -- `iter().find(..)`.
  abbrev pub find : (A → Bool) → List A → Option A
  find p [] = none
  find p (x ∷ xs) = if p x then some x else find p xs

  -- `iter().filter(..).count()`.
  abbrev pub count : (A → Bool) → List A → ℕ
  count p [] = 0
  count p (x ∷ xs) = let rest = count p xs in if p x then suc rest else rest

  -- What `find` on `iter_mut()` writes through: the first element that passes.
  abbrev pub update_first : (A → Bool) → (A → A) → List A → List A
  update_first p f [] = []
  update_first p f (x ∷ xs) = if p x then f x ∷ xs else x ∷ update_first p f xs

  -- The rest after `remove(position(..))`.
  abbrev pub remove_first : (A → Bool) → List A → List A
  remove_first p [] = []
  remove_first p (x ∷ xs) = if p x then xs else x ∷ remove_first p xs

  -- Every element has the property.
  abbrev pub All {κ} : (A → Type κ) → List A → Type κ
  All P [] = Unit
  All P (x ∷ xs) = P x × All P xs

-- `Vec::contains`, over identifiers.
abbrev pub contains : List ℕ → ℕ → Bool
contains [] a = false
contains (x ∷ xs) a = x == a || contains xs a

-- No identifier stands twice.
abbrev pub Distinct : List ℕ → Type 0
Distinct [] = Unit
Distinct (x ∷ xs) = (contains xs x ≡ false) × Distinct xs

pub contains-push : (xs : List ℕ) (y a : ℕ) → contains (xs ++ y ∷ []) a ≡ contains xs a || y == a
contains-push [] y a = ground arith
contains-push (x ∷ xs) y a = ground (arith, contains-push xs y a)

pub contains-retain :
    (p : ℕ → Bool) (xs : List ℕ) (a : ℕ) → contains (retain p xs) a ≡ contains xs a && p a
contains-retain p [] a = refl
contains-retain p (x ∷ xs) a = ground (arith, contains-retain p xs a)

pub Distinct-push :
    (xs : List ℕ) (y : ℕ) → contains xs y ≡ false → Distinct xs → Distinct (xs ++ y ∷ [])
Distinct-push [] y h d = (refl, tt)
Distinct-push (x ∷ xs) y h d =
    (ground (arith, contains-push xs y x), Distinct-push xs y (ground arith) d.1)

pub Distinct-retain : (p : ℕ → Bool) (xs : List ℕ) → Distinct xs → Distinct (retain p xs)
Distinct-retain p [] d = tt
Distinct-retain p (x ∷ xs) d = ground (arith, contains-retain p xs x, Distinct-retain p xs d.1)

module _ {ℓ} {A : Type ℓ} where
  pub map-push {κ} :
      {B : Type κ} (f : A → B) (xs : List A) (y : A) → map f (xs ++ y ∷ []) ≡ map f xs ++ f y ∷ []
  map-push f [] y = refl
  map-push f (x ∷ xs) y = ap (◌∷◌ (f x)) (map-push f xs y)

  pub map-retain {κ} :
      {B : Type κ} (f : A → B) (p : B → Bool) (xs : List A)
      → map f (retain (λ x. p (f x)) xs) ≡ retain p (map f xs)
  map-retain f p [] = refl
  map-retain f p (x ∷ xs) = ground (arith, map-retain f p xs)

  pub All-retain {κ} :
      (P : A → Type κ) (p : A → Bool) (xs : List A) → All P xs → All P (retain p xs)
  All-retain P p [] h = h
  All-retain P p (x ∷ xs) h = ground (arith, All-retain P p xs h.1)

  pub All-push {κ} : (P : A → Type κ) (xs : List A) (y : A) → All P xs → P y → All P (xs ++ y ∷ [])
  All-push P [] y h k = (k, h)
  All-push P (x ∷ xs) y h k = (h.0, All-push P xs y h.1 k)

  pub All-update {κ} :
      (P : A → Type κ) (p : A → Bool) (f : A → A) (xs : List A)
      → ((x : A) → P x → P (f x))
      → All P xs
      → All P (update_first p f xs)
  All-update P p f [] keep h = h
  All-update P p f (x ∷ xs) keep h = ground (arith, keep x h.0, All-update P p f xs keep h.1)

  pub All-remove {κ} :
      (P : A → Type κ) (p : A → Bool) (xs : List A) → All P xs → All P (remove_first p xs)
  All-remove P p [] h = h
  All-remove P p (x ∷ xs) h = ground (arith, All-remove P p xs h.1)

  pub any-append : (p : A → Bool) (xs ys : List A) → any p (xs ++ ys) ≡ any p xs || any p ys
  any-append p [] ys = refl
  any-append p (x ∷ xs) ys = ground (arith, any-append p xs ys)

  -- What is in no element of a list is in none that is retained.
  pub any-retain : (p q : A → Bool) (xs : List A) → any q xs ≡ false → any q (retain p xs) ≡ false
  any-retain p q [] h = refl
  any-retain p q (x ∷ xs) h = ground (arith, any-retain p q xs)

  pub All-append {κ} : (P : A → Type κ) (xs ys : List A) → All P xs → All P ys → All P (xs ++ ys)
  All-append P [] ys h k = k
  All-append P (x ∷ xs) ys h k = (h.0, All-append P xs ys h.1 k)
