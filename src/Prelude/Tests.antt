-- ===== src/Prelude/Tests.antt =====
-- Boolean tests on numbers and options, and the conditional.
use Prim.Native.Nat.{ℕ, compare, Ordering}
use mathlib.Core.Path.{◌≡◌, refl}
use mathlib.Core.Logic.{◌↔◌, ◌⊎◌, inl, inr, ite}
use mathlib.Core.Bool.{Bool, true, false}
use mathlib.Core.Option.{Option, none, some}
use native.Mathlib.Omega.{arith}

abbrev pub ltb : ℕ → ℕ → Bool
ltb a b = elim (compare a b) [ Ordering.lt ↦ true | _ ↦ false ]

abbrev pub leb : ℕ → ℕ → Bool
leb a b = elim (compare a b) [ Ordering.gt ↦ false | _ ↦ true ]

infix 50 ◌==◌
abbrev pub ◌==◌ : ℕ → ℕ → Bool
a == b = elim (compare a b) [ Ordering.eq ↦ true | _ ↦ false ]

infix 1 if◌then◌else◌
abbrev pub if◌then◌else◌ {ℓ} : {A : Type ℓ} → Bool → A → A → A
if true then x else y = x
if false then x else y = y

pub ==_iff : (a b : ℕ) → ((a == b) ≡ true) ↔ (a ≡ b)
==_iff a b = ground arith

-- `==` of a type whose equality is decided.
abbrev pub same {ℓ} : {A : Type ℓ} → Discrete A → A → A → Bool
same d a b = ite (d a b) true false

pub Bool-cases : (b : Bool) → (b ≡ true) ⊎ (b ≡ false)
Bool-cases true = inl refl
Bool-cases false = inr refl

module _ {ℓ} {A : Type ℓ} where
  pub Option-cases : (o : Option A) → (o ≡ none) ⊎ ((a : A) × (o ≡ some a))
  Option-cases none = inl refl
  Option-cases (some a) = inr (a, refl)

  -- `o.is_some()`
  abbrev pub is_some : Option A → Bool
  is_some none = false
  is_some (some a) = true

  -- `o.is_some_and(p)`
  abbrev pub is_some_and : Option A → (A → Bool) → Bool
  is_some_and none p = false
  is_some_and (some a) p = p a

  -- `o.or(p)`
  abbrev pub or : Option A → Option A → Option A
  or none p = p
  or (some a) p = some a

  -- `o.unwrap_or(d)`
  abbrev pub unwrap_or : Option A → A → A
  unwrap_or none d = d
  unwrap_or (some a) d = a

  -- `o.and_then(f)`
  abbrev pub and_then {κ} : {B : Type κ} → Option A → (A → Option B) → Option B
  and_then none f = none
  and_then (some a) f = f a

-- A property of a conditional, from the property of either branch.
pub if_lem {ℓ κ} :
    {A : Type ℓ} {a b : A} (P : A → Type κ) (c : Bool)
    → (c ≡ true → P a)
    → (c ≡ false → P b)
    → P (if c then a else b)
if_lem P true h k = h refl
if_lem P false h k = k refl

-- A property of a case distinction on an option.
pub option_lem {ℓ κ μ} :
    {A : Type ℓ} {B : Type κ} {a : B} {f : A → B} (P : B → Type μ) (o : Option A)
    → (o ≡ none → P a)
    → ((x : A) → o ≡ some x → P (f x))
    → P (elim o [ none ↦ a | some x ↦ f x ])
option_lem P none h k = h refl
option_lem P (some x) h k = k x refl

-- The property holds of the value, where there is one.
abbrev pub OnSome {ℓ κ} : {A : Type ℓ} → (A → Type κ) → Option A → Type κ
OnSome P none = Unit
OnSome P (some a) = P a
