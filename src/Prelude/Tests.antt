-- ===== src/Prelude/Tests.antt =====
-- Boolean tests: comparisons of numbers, and `==` (Rust's `PartialEq`) at each type with an `Eq`.
use Prim.Native.Nat.{ℕ, compare, Ordering}
use Prim.Native.String.{String}
use mathlib.Core.Path.{◌≡◌, refl, ap}
use mathlib.Core.Logic.{◌↔◌, ◌⊎◌, inl, inr}
use mathlib.Core.Bool.{Bool, true, false, ◌&&◌, ◌||◌, not}
use mathlib.Core.List.{List, [], ◌∷◌}
use mathlib.Core.Option.{Option, none, some}
use native.Mathlib.Omega.{arith}
use native.Mathlib.Decide.{ℕ_discrete}
use text.Mathlib.Text.{◌==◌ as str_eq}
use text.Mathlib.TextEquality.{eq_iff}

abbrev pub ltb : ℕ → ℕ → Bool
ltb a b = elim (compare a b) [ Ordering.lt ↦ true | _ ↦ false ]

abbrev pub leb : ℕ → ℕ → Bool
leb a b = elim (compare a b) [ Ordering.gt ↦ false | _ ↦ true ]

infix 1 if◌then◌else◌
abbrev pub if◌then◌else◌ {ℓ} : {A : Type ℓ} → Bool → A → A → A
if true then x else y = x
if false then x else y = y

-- The Boolean of a decision. The decision itself stays shut in proofs, where `ground` splits on it.
abbrev pub holds {ℓ} : {P : Type ℓ} → Dec P → Bool
holds (yes _) = true
holds (no _) = false

pub record Eq {ℓ} (A : Type ℓ) : Type ℓ where
  pub dec : Discrete A

infix 50 ◌==◌ ◌!=◌
abbrev pub ◌==◌ {ℓ} : {A : Type ℓ} ⦃e : Eq A⦄ → A → A → Bool
◌==◌ ⦃e⦄ a b = holds (e.dec a b)

abbrev pub ◌!=◌ {ℓ} : {A : Type ℓ} ⦃e : Eq A⦄ → A → A → Bool
a != b = not (a == b)

dec_of_test {ℓ} : {P : Type ℓ} (b : Bool) → (b ≡ true) ↔ P → Dec P
dec_of_test true i = yes (i.0 refl)
dec_of_test false i = no (λ p. let e = i.1 p in cc)

unfoldable pub String-discrete : Discrete String
unfolding dec_of_test
String-discrete a b = dec_of_test (str_eq a b) (eq_iff a b)

unfoldable pub nat-discrete : Discrete ℕ
unfolding ℕ_discrete
nat-discrete a b = ℕ_discrete a b

unfoldable pub Option-discrete {ℓ} : {A : Type ℓ} → Discrete A → Discrete (Option A)
Option-discrete d none none = yes refl
Option-discrete d none (some b) = no (λ e. cc)
Option-discrete d (some a) none = no (λ e. cc)
Option-discrete d (some a) (some b) = elim (d a b) [ yes p ↦ yes cc | no n ↦ no (λ e. n cc) ]

cons_decide {ℓ} :
    {A : Type ℓ} {a b : A} {xs ys : List A} → Dec (a ≡ b) → Dec (xs ≡ ys) → Dec (a ∷ xs ≡ b ∷ ys)
cons_decide (yes p) (yes q) = yes cc
cons_decide (yes p) (no m) = no (λ e. m cc)
cons_decide (no n) _ = no (λ e. n cc)

unfoldable pub List-discrete {ℓ} : {A : Type ℓ} → Discrete A → Discrete (List A)
unfolding cons_decide
List-discrete d [] [] = yes refl
List-discrete d [] (b ∷ ys) = no (λ e. cc)
List-discrete d (a ∷ xs) [] = no (λ e. cc)
List-discrete d (a ∷ xs) (b ∷ ys) = cons_decide (d a b) (List-discrete d xs ys)

unfoldable pub Bool-discrete : Discrete Bool
Bool-discrete true true = yes refl
Bool-discrete true false = no (λ e. cc)
Bool-discrete false true = no (λ e. cc)
Bool-discrete false false = yes refl

instance abbrev pub bool_eq : Eq Bool
bool_eq = record { dec = Bool-discrete }

instance abbrev pub string_eq : Eq String
string_eq = record { dec = String-discrete }

instance abbrev pub nat_eq : Eq ℕ
nat_eq = record { dec = nat-discrete }

instance abbrev pub option_eq {ℓ} : {A : Type ℓ} ⦃e : Eq A⦄ → Eq (Option A)
option_eq ⦃e⦄ = record { dec = Option-discrete e.dec }

instance abbrev pub list_eq {ℓ} : {A : Type ℓ} ⦃e : Eq A⦄ → Eq (List A)
list_eq ⦃e⦄ = record { dec = List-discrete e.dec }

pub eq_self {ℓ} : {A : Type ℓ} ⦃e : Eq A⦄ (a : A) → (a == a) ≡ true
eq_self ⦃e⦄ a = elim (e.dec a a) as (λ d. holds d ≡ true) [ yes p ↦ refl | no n ↦ absurd (n refl) ]

pub eq_of_test {ℓ} : {A : Type ℓ} ⦃e : Eq A⦄ (a b : A) → (a == b) ≡ true → a ≡ b
eq_of_test ⦃e⦄ a b = elim (e.dec a b) as (λ d. holds d ≡ true → a ≡ b) [
  | yes p ↦ λ h. p
  | no n ↦ λ h. cc
]

-- To split on a computed value and keep the equation.
pub Bool-cases : (b : Bool) → (b ≡ true) ⊎ (b ≡ false)
Bool-cases true = inl refl
Bool-cases false = inr refl

pub Option-cases {ℓ} : {A : Type ℓ} (o : Option A) → (o ≡ none) ⊎ ((a : A) × (o ≡ some a))
Option-cases none = inl refl
Option-cases (some a) = inr (a, refl)

pub or_false : (a b : Bool) → (a || b) ≡ false → (a ≡ false) × (b ≡ false)
or_false a b h = ground arith

pub and_true : (a b : Bool) → (a && b) ≡ true → (a ≡ true) × (b ≡ true)
and_true a b h = ground arith

-- The first of a row of `==` tests joined by `&&`.
pub eq_and {ℓ} :
    {A : Type ℓ} ⦃e : Eq A⦄ (a b : A) (c : Bool) → (a == b && c) ≡ true → (a ≡ b) × (c ≡ true)
eq_and a b c h = let (p, q) = and_true (a == b) c h in (eq_of_test a b p, q)

pub eq_of_not {ℓ} : {A : Type ℓ} ⦃e : Eq A⦄ (a b : A) → (a != b) ≡ false → a ≡ b
eq_of_not ⦃e⦄ a b = elim (e.dec a b) as (λ d. not (holds d) ≡ false → a ≡ b) [
  | yes p ↦ λ h. p
  | no n ↦ λ h. cc
]

pub not_of_eq {ℓ} : {A : Type ℓ} ⦃e : Eq A⦄ {a b : A} → a ≡ b → (a != b) ≡ false
not_of_eq ⦃e⦄ {a} {b} = elim (e.dec a b) as (λ d. a ≡ b → not (holds d) ≡ false) [
  | yes p ↦ λ h. refl
  | no n ↦ λ h. absurd (n h)
]

pub of_not : (b : Bool) → not b ≡ false → b ≡ true
of_not true h = refl
of_not false h = cc

pub not_of : {b : Bool} → b ≡ true → not b ≡ false
not_of h = ap not h

pub false_or : {a b : Bool} → a ≡ false → b ≡ false → (a || b) ≡ false
false_or p q = ground arith
