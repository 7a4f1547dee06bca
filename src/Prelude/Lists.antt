-- ===== src/Prelude/Lists.antt =====
-- Lists: measures over native numbers, Rust's iterator tests, and predicates by recursion.
use Prim.Native.Nat.{ℕ, suc}
use mathlib.Core.Path.{◌≡◌, refl, sym}
use mathlib.Core.Logic.{◌⊎◌, inl, inr}
use mathlib.Core.Bool.{Bool, true, false, ◌||◌, ◌&&◌}
use mathlib.Core.Option.{Option, none, some}
use mathlib.Core.List.{List, [], ◌∷◌, ◌++◌, Memᴰ}
use native.Mathlib.Omega.{arith}
use vm_cell_manager.Prelude.Tests.{if◌then◌else◌, Eq, ◌==◌}

module _ {ℓ} {A : Type ℓ} where
  abbrev pub length : List A → ℕ
  length [] = 0
  length (x ∷ xs) = suc (length xs)

  -- `iter().any(p)`
  abbrev pub any : (A → Bool) → List A → Bool
  any p [] = false
  any p (x ∷ xs) = p x || any p xs

  -- `iter().all(p)`
  abbrev pub all : (A → Bool) → List A → Bool
  all p [] = true
  all p (x ∷ xs) = p x && all p xs

  -- `iter().find(p)`
  abbrev pub find : (A → Bool) → List A → Option A
  find p [] = none
  find p (x ∷ xs) = if p x then some x else find p xs

  -- `iter().filter(p)`
  abbrev pub filter : (A → Bool) → List A → List A
  filter p [] = []
  filter p (x ∷ xs) = let rest = filter p xs in if p x then x ∷ rest else rest

  -- `slice.is_empty()`
  abbrev pub is_empty : List A → Bool
  is_empty [] = true
  is_empty (x ∷ xs) = false

  -- `Option::is_some`, `Option::is_none`
  abbrev pub is_some : Option A → Bool
  is_some none = false
  is_some (some a) = true

  abbrev pub is_none : Option A → Bool
  is_none none = true
  is_none (some a) = false

-- `slice.contains(&x)`
abbrev pub contains {ℓ} : {A : Type ℓ} ⦃e : Eq A⦄ → List A → A → Bool
contains xs a = any (λ x. x == a) xs

abbrev pub All {ℓ κ} : {A : Type ℓ} → (A → Type κ) → List A → Type κ
All P [] = Unit
All P (x ∷ xs) = P x × All P xs

module _ {ℓ} {A : Type ℓ} where
  pub all-All : (p : A → Bool) (xs : List A) → all p xs ≡ true → All (λ x. p x ≡ true) xs
  all-All p [] h = tt
  all-All p (x ∷ xs) h = (ground arith, all-All p xs (ground arith))

  pub All-mem {κ} : (P : A → Type κ) {a : A} (xs : List A) → All P xs → Memᴰ a xs → P a
  All-mem P [] h m = elim m [ ]
  All-mem P (x ∷ xs) h (Memᴰ.head e) = rw e h.0
  All-mem P (x ∷ xs) h (Memᴰ.tail m) = All-mem P xs h.1 m

  pub any-mem : (p : A → Bool) (xs : List A) → any p xs ≡ true → (a : A) × Memᴰ a xs × (p a ≡ true)
  any-mem p [] h = cc
  any-mem p (x ∷ xs) h = elim (or_cases (p x) (any p xs) h) [
    | inl e ↦ (x, Memᴰ.head refl, e)
    | inr e ↦ let (a, m, q) = any-mem p xs e in (a, Memᴰ.tail m, q)
  ]
    where
      or_cases : (a b : Bool) → (a || b) ≡ true → (a ≡ true) ⊎ (b ≡ true)
      or_cases a b e = ground arith

  find_step :
      (p : A → Bool) (x : A) (xs : List A) {a : A} (b : Bool)
      → p x ≡ b
      → (if b then some x else find p xs) ≡ some a
      → (find p xs ≡ some a → Memᴰ a xs × (p a ≡ true))
      → Memᴰ a (x ∷ xs) × (p a ≡ true)
  find_step p x xs {a} true e h ih = let same : x ≡ a = cc in (Memᴰ.head (sym same), rw (← same) e)
  find_step p x xs false e h ih = let (m, q) = ih h in (Memᴰ.tail m, q)

  pub find-mem :
      (p : A → Bool) (xs : List A) {a : A} → find p xs ≡ some a → Memᴰ a xs × (p a ≡ true)
  find-mem p [] h = cc
  find-mem p (x ∷ xs) h = find_step p x xs (p x) refl h (find-mem p xs)

  filter_step :
      (p : A → Bool) (x : A) (xs : List A) {a : A} (b : Bool)
      → p x ≡ b
      → Memᴰ a (if b then x ∷ filter p xs else filter p xs)
      → (Memᴰ a (filter p xs) → Memᴰ a xs × (p a ≡ true))
      → Memᴰ a (x ∷ xs) × (p a ≡ true)
  filter_step p x xs true e (Memᴰ.head q) ih = (Memᴰ.head q, rw q e)
  filter_step p x xs true e (Memᴰ.tail m) ih = let (n, q) = ih m in (Memᴰ.tail n, q)
  filter_step p x xs false e m ih = let (n, q) = ih m in (Memᴰ.tail n, q)

  pub All-append {κ} : (P : A → Type κ) (xs ys : List A) → All P xs → All P ys → All P (xs ++ ys)
  All-append P [] ys hx hy = hy
  All-append P (x ∷ xs) ys hx hy = (hx.0, All-append P xs ys hx.1 hy)

  pub filter-mem :
      (p : A → Bool) (xs : List A) {a : A} → Memᴰ a (filter p xs) → Memᴰ a xs × (p a ≡ true)
  filter-mem p [] m = elim m [ ]
  filter-mem p (x ∷ xs) {a} m = filter_step p x xs (p x) refl m (filter-mem p xs)
