-- ===== src/Base/Tests.antt =====
-- Boolean tests on the native numbers, the conditional, and case splits that keep the equation.
use Prim.Native.Nat.{ℕ, ◌≤◌, ◌<◌, compare, Ordering}
use mathlib.Core.Path.{◌≡◌, refl}
use mathlib.Core.Logic.{◌≢◌, ◌↔◌, ◌⊎◌, inl, inr}
use mathlib.Core.Bool.{Bool, true, false}
use mathlib.Core.Option.{Option, none, some}
use mathlib.Core.Option
use native.Mathlib.Omega.{arith}

abbrev pub ltb : ℕ → ℕ → Bool
ltb a b = elim (compare a b) [ Ordering.lt ↦ true | _ ↦ false ]

abbrev pub leb : ℕ → ℕ → Bool
leb a b = elim (compare a b) [ Ordering.gt ↦ false | _ ↦ true ]

infix 50 ◌==◌
abbrev pub ◌==◌ : ℕ → ℕ → Bool
a == b = elim (compare a b) [ Ordering.eq ↦ true | _ ↦ false ]

infix 1 if◌then◌else◌
abbrev pub if◌then◌else◌ {ℓ} : {A : Type ℓ} → Bool → A → A → A
if true then x else y = x
if false then x else y = y

pub ltb→lt : (a b : ℕ) → ltb a b ≡ true → a < b
ltb→lt a b h = ground arith

pub lt→ltb : (a b : ℕ) → a < b → ltb a b ≡ true
lt→ltb a b h = ground arith

pub leb→le : (a b : ℕ) → leb a b ≡ true → a ≤ b
leb→le a b h = ground arith

pub le→leb : (a b : ℕ) → a ≤ b → leb a b ≡ true
le→leb a b h = ground arith

pub ==_iff : (a b : ℕ) → ((a == b) ≡ true) ↔ (a ≡ b)
==_iff a b = ground arith

pub ==_of_ne : (a b : ℕ) → a ≢ b → (a == b) ≡ false
==_of_ne a b h = ground arith

pub ruleset tests = (arith, ltb→lt, lt→ltb, leb→le, le→leb)

pub Bool-cases : (b : Bool) → (b ≡ true) ⊎ (b ≡ false)
Bool-cases true = inl refl
Bool-cases false = inr refl

pub Option-cases {ℓ} : {A : Type ℓ} (o : Option A) → (o ≡ none) ⊎ ((a : A) × (o ≡ some a))
Option-cases none = inl refl
Option-cases (some a) = inr (a, refl)

pub some_inj {ℓ} : {A : Type ℓ} {a b : A} → some a ≡ some b → a ≡ b
some_inj h = cc

-- A guarded result that is there.
pub guard_inv {ℓ} :
    {A : Type ℓ} {x y : A} (b : Bool) → (if b then some x else none) ≡ some y → (b ≡ true) × (x ≡ y)
guard_inv true h = (refl, some_inj h)
guard_inv false h = cc

pub guard_else_inv {ℓ} :
    {A : Type ℓ} {x y : A} (b : Bool)
    → (if b then none else some x) ≡ some y
    → (b ≡ false) × (x ≡ y)
guard_else_inv true h = cc
guard_else_inv false h = (refl, some_inj h)

pub map_inv {ℓ κ} :
    {A : Type ℓ} {B : Type κ} {f : A → B} {y : B} (o : Option A)
    → Option.map f o ≡ some y
    → (x : A) × (o ≡ some x) × (f x ≡ y)
map_inv none h = cc
map_inv (some x) h = (x, refl, some_inj h)

-- And one of an Option.bind.
pub bind_inv {ℓ κ} :
    {A : Type ℓ} {B : Type κ} {f : A → Option B} {y : B} (o : Option A)
    → Option.bind o f ≡ some y
    → (x : A) × (o ≡ some x) × (f x ≡ some y)
unfolding Option.bind
bind_inv none h = cc
bind_inv (some x) h = (x, refl, h)
