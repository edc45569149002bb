-- ===== src/Prelude/Tests.antt =====
-- Boolean tests on numbers, the conditional, and splits that keep the equation.
use Prim.Native.Nat.{ℕ, compare, Ordering}
use mathlib.Core.Path.{◌≡◌, refl, ap}
use mathlib.Core.Logic.{◌⊎◌, inl, inr}
use mathlib.Core.Bool.{Bool, true, false}
use mathlib.Core.Option.{Option, none, some, some-injective}
use native.Mathlib.Omega.{arith}

abbrev pub ltb : ℕ → ℕ → Bool
ltb a b = elim (compare a b) [ Ordering.lt ↦ true | _ ↦ false ]

abbrev pub leb : ℕ → ℕ → Bool
leb a b = elim (compare a b) [ Ordering.gt ↦ false | _ ↦ true ]

infix 50 ◌==◌
abbrev pub ◌==◌ : ℕ → ℕ → Bool
a == b = elim (compare a b) [ Ordering.eq ↦ true | _ ↦ false ]

infix 1 if◌then◌else◌
abbrev pub if◌then◌else◌ {ℓ} : {A : Type ℓ} → Bool → A → A → A
if true then x else y = x
if false then x else y = y

abbrev pub is_some {ℓ} : {A : Type ℓ} → Option A → Bool
is_some none = false
is_some (some _) = true

-- The test `x == Some(y)` over a decidable type.
abbrev pub holds {ℓ} : {A : Type ℓ} → Dec A → Bool
holds (yes _) = true
holds (no _) = false

pub ==-refl : (a : ℕ) → (a == a) ≡ true
==-refl a = ground arith

pub eq_of_== : (a b : ℕ) → (a == b) ≡ true → a ≡ b
eq_of_== a b h = ground arith

pub Bool-cases : (b : Bool) → (b ≡ true) ⊎ (b ≡ false)
Bool-cases true = inl refl
Bool-cases false = inr refl

pub Option-cases {ℓ} : {A : Type ℓ} (o : Option A) → (o ≡ none) ⊎ ((a : A) × (o ≡ some a))
Option-cases none = inl refl
Option-cases (some a) = inr (a, refl)

pub holds-sound {ℓ} : {P : Type ℓ} (d : Dec P) → holds d ≡ true → P
holds-sound (yes p) h = p
holds-sound (no r) h = absurd (cc)

pub holds_complete {ℓ} : {P : Type ℓ} (d : Dec P) → P → holds d ≡ true
holds_complete (yes p) h = refl
holds_complete (no r) h = absurd (r h)

-- `last.as_ref() == Some(&now)`.
abbrev pub is_the_last {ℓ} : {A : Type ℓ} → Discrete A → Option A → A → Bool
is_the_last same none a = false
is_the_last same (some b) a = holds (same b a)

pub is_the_last_sound {ℓ} :
    {A : Type ℓ} (same : Discrete A) (last : Option A) (a : A)
    → is_the_last same last a ≡ true
    → last ≡ some a
is_the_last_sound same none a h = absurd (cc)
is_the_last_sound same (some b) a h = ap some (holds-sound (same b a) h)

pub is_the_last_complete {ℓ} :
    {A : Type ℓ} (same : Discrete A) (last : Option A) (a : A)
    → last ≡ some a
    → is_the_last same last a ≡ true
is_the_last_complete same none a h = absurd (cc)
is_the_last_complete same (some b) a h = holds_complete (same b a) (some-injective b a h)

pub some≢none {ℓ} : {A : Type ℓ} {a : A} → some a ≡ none → ⊥
some≢none e = cc
