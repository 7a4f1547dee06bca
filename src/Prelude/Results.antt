-- ===== src/Prelude/Results.antt =====
-- Rust's `Result`, with `?` as the bind of a `do` block.
use mathlib.Core.Path.{◌≡◌, refl}
use mathlib.Core.Logic.{◌⊎◌, inl, inr}
use mathlib.Core.Bool.{Bool, true, false}
use mathlib.Core.Option.{Option, none, some}

pub data Result (E A : Type 0) : Type 0 where
  ok : A → Result E A
  err : E → Result E A

infixl 5 ◌>>=◌ ◌>>◌
abbrev pub ◌>>=◌ : {E A B : Type 0} → Result E A → (A → Result E B) → Result E B
ok a >>= f = f a
err e >>= f = err e

abbrev pub ◌>>◌ : {E B : Type 0} → Result E (Unit {0}) → Result E B → Result E B
m >> k = m >>= λ _. k

-- `if test { return Err(e) }`
abbrev pub reject_if : {E : Type 0} → Bool → E → Result E (Unit {0})
reject_if true e = err e
reject_if false e = ok tt

-- `option.ok_or(e)`
abbrev pub ok_or : {E A : Type 0} → E → Option A → Result E A
ok_or e none = err e
ok_or e (some a) = ok a

-- `result.map_err(f)`
abbrev pub map_err : {E F A : Type 0} → (E → F) → Result E A → Result F A
map_err f (ok a) = ok a
map_err f (err e) = err (f e)

-- `result.is_ok()`
abbrev pub is_ok : {E A : Type 0} → Result E A → Bool
is_ok (ok _) = true
is_ok (err _) = false

pub Result-cases :
    {E A : Type 0} (r : Result E A) → ((a : A) × (r ≡ ok a)) ⊎ ((e : E) × (r ≡ err e))
Result-cases (ok a) = inl (a, refl)
Result-cases (err e) = inr (e, refl)

pub ok_inj : {E A : Type 0} {a b : A} → ◌≡◌ {A = Result E A} (ok a) (ok b) → a ≡ b
ok_inj h = cc

pub bind-eq-ok :
    {E A B : Type 0} (m : Result E A) (f : A → Result E B) {b : B}
    → (m >>= f) ≡ ok b
    → (a : A) × (m ≡ ok a) × (f a ≡ ok b)
bind-eq-ok (ok a) f h = (a, refl, h)
bind-eq-ok (err e) f h = cc

-- A guard that let the rest run.
pub reject-eq-ok :
    {E B : Type 0} (test : Bool) (e : E) (k : Unit {0} → Result E B) {b : B}
    → (reject_if test e >>= k) ≡ ok b
    → (test ≡ false) × (k tt ≡ ok b)
reject-eq-ok false e k h = (refl, h)
reject-eq-ok true e k h = cc

-- A guard whose test fails lets the rest run.
pub reject-passes :
    {E B : Type 0} (test : Bool) (e : E) (k : Unit {0} → Result E B) {b : B}
    → test ≡ false
    → k tt ≡ ok b
    → (reject_if test e >>= k) ≡ ok b
reject-passes false e k p h = h
reject-passes true e k p h = cc

-- The same for a guard that comes last.
pub reject_if-eq-ok : {E : Type 0} (test : Bool) (e : E) → reject_if test e ≡ ok tt → test ≡ false
reject_if-eq-ok false e h = refl
reject_if-eq-ok true e h = cc

pub reject_if-passes : {E : Type 0} (test : Bool) (e : E) → test ≡ false → reject_if test e ≡ ok tt
reject_if-passes false e p = refl
reject_if-passes true e p = cc

pub bind-passes :
    {E A B : Type 0} {m : Result E A} (f : A → Result E B) {a : A} {b : B}
    → m ≡ ok a
    → f a ≡ ok b
    → (m >>= f) ≡ ok b
bind-passes f p h = rw p h

-- A guard whose test fails, whatever the rest gives.
pub reject-skips :
    {E B : Type 0} (test : Bool) (e : E) (k : Unit {0} → Result E B)
    → test ≡ false
    → (reject_if test e >>= k) ≡ k tt
reject-skips false e k p = refl
reject-skips true e k p = cc
