-- ===== src/Program/Logic.antt =====
-- What holds on every path of a program. A history holds the calls made, the last one first, each
-- with its reply. A contract says what must hold of the history before each call, and at the end.
use vm_cell_manager.Prelude.{◌≡◌, refl, List, [], ◌∷◌, Result, ok, err}
use vm_cell_manager.Engine.Errors.{EngineError}
use vm_cell_manager.Program.{Op, Answer, Reply, Program, finish, call, ◌>>=◌, perform, lift, catch}

pub record Event : Type 0 where
  pub op : Op
  pub reply : Reply op

abbrev pub History : Type 0
History = List Event

abbrev pub After : Type 0 → Type 1
After A = History → Result EngineError A → Type 0

-- Every call on every path meets `P`, and every end meets `Q`.
pub data Holds {A : Type 0} (P : History → Op → Type 0) (Q : After A)
    : History → Program A → Type 0 where
  finished : {h : History} (r : Result EngineError A) → Q h r → Holds P Q h (finish r)
  called :
      {h : History} (op : Op) (k : Reply op → Program A)
      → P h op
      → ((reply : Reply op) → Holds P Q (record { op = op; reply = reply } ∷ h) (k reply))
      → Holds P Q h (call op k)

-- What must hold before the rest of a `do` block.
abbrev pub Then : {A B : Type 0} → (History → Op → Type 0) → After B → (A → Program B) → After A
Then P Q f h (ok a) = Holds P Q h (f a)
Then P Q f h (err e) = Q h (err e)

-- A caught outcome.
abbrev pub Caught : {A : Type 0} → After A → After (Result EngineError A)
Caught Q h (ok outcome) = Q h outcome
Caught Q h (err _) = ⊥

module _ {P : History → Op → Type 0} where
  pub bind-Holds :
      {A B : Type 0} {Q : After B} (f : A → Program B) {h : History} (m : Program A)
      → Holds P (Then P Q f) h m
      → Holds P Q h (m >>= f)
  bind-Holds f _ (finished (ok a) w) = w
  bind-Holds f _ (finished (err e) w) = finished (err e) w
  bind-Holds f _ (called op k p w) =
      called op (λ reply. k reply >>= f) p (λ reply. bind-Holds f (k reply) (w reply))

  -- The consequence rule, for the end.
  pub weaken-Holds :
      {A : Type 0} {Q R : After A}
      → ((h : History) (r : Result EngineError A) → Q h r → R h r)
      → {h : History} (m : Program A) → Holds P Q h m
      → Holds P R h m
  weaken-Holds g _ (finished r w) = finished r (g _ r w)
  weaken-Holds g _ (called op k p w) = called op k p (λ reply. weaken-Holds g (k reply) (w reply))

  -- A check that calls nothing.
  pub lift-Holds :
      {A B : Type 0} {Q : After B} {h : History} (r : Result EngineError A) (f : A → Program B)
      → ((a : A) → r ≡ ok a → Holds P Q h (f a))
      → ((e : EngineError) → r ≡ err e → Q h (err e))
      → Holds P Q h (lift r >>= f)
  lift-Holds (ok a) f w v = w a refl
  lift-Holds (err e) f w v = finished (err e) (v e refl)

  -- One call with `?`.
  pub perform-Holds :
      {A : Type 0} {Q : After A} {h : History} (op : Op) (f : Answer op → Program A)
      → P h op
      → ((a : Answer op) → Holds P Q (record { op = op; reply = ok a } ∷ h) (f a))
      → ((e : EngineError) → Q (record { op = op; reply = err e } ∷ h) (err e))
      → Holds P Q h (perform op >>= f)
  perform-Holds op f p w v = called op _ p (outcomes op f w v)
    where
      outcomes :
          {A : Type 0} {Q : After A} {h : History} (op : Op) (f : Answer op → Program A)
          → ((a : Answer op) → Holds P Q (record { op = op; reply = ok a } ∷ h) (f a))
          → ((e : EngineError) → Q (record { op = op; reply = err e } ∷ h) (err e))
          → (reply : Reply op)
          → Holds P Q (record { op = op; reply = reply } ∷ h) (finish reply >>= f)
      outcomes op f w v (ok a) = w a
      outcomes op f w v (err e) = finished (err e) (v e)

  -- A method whose outcome the caller inspects.
  pub catch-Holds :
      {A : Type 0} {Q : After A} {h : History} (m : Program A)
      → Holds P Q h m
      → Holds P (Caught Q) h (catch m)
  catch-Holds _ (finished r w) = finished (ok r) w
  catch-Holds _ (called op k p w) = called op _ p (λ reply. catch-Holds (k reply) (w reply))

-- A platform answers each call from its state, and changes it.
abbrev pub Platform : Type 0 → Type 0
Platform S = (op : Op) → S → Reply op × S

unfoldable pub run :
    {S A : Type 0} → Platform S → Program A → S → History → Result EngineError A × S × History
run handle (finish r) s h = (r, s, h)
run handle (call op k) s h =
    let (reply, s') = handle op s in run handle (k reply) s' (record { op = op; reply = reply } ∷ h)

-- Each call of a history met the condition when it was made.
unfoldable pub Respects : (History → Op → Type 0) → History → Type 0
Respects P [] = Unit {0}
Respects P (e ∷ h) = P h e.op × Respects P h

-- What holds on every path holds of the run on any platform.
pub run-Holds :
    {S A : Type 0} (P : History → Op → Type 0) (Q : After A) (handle : Platform S) (m : Program A)
    (s : S) (h : History)
    → Respects P h
    → Holds P Q h m
    → let (r, _, h') = run handle m s h in Respects P h' × Q h' r
unfolding run Respects
run-Holds P Q handle _ s h past (finished r w) = (past, w)
run-Holds P Q handle _ s h past (called op k p w) =
    let (reply, s') = handle op s in
    run-Holds P Q handle (k reply) s' (record { op = op; reply = reply } ∷ h) (p, past) (w reply)
