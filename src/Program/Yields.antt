-- ===== src/Program/Yields.antt =====
-- A program that succeeds on a platform: what it answers and the state it leaves.
use vm_cell_manager.Prelude.{◌≡◌, ◌∙◌, refl, ap, ◌∷◌, Result, ok, err}
use vm_cell_manager.Engine.Errors.{EngineError}
use vm_cell_manager.Program.{
  Op, Answer, Reply, Program, finish, call, ◌>>=◌, perform, lift, pure, catch,
}
use vm_cell_manager.Program.Logic.{History, Platform, run}

pub record Yields {S A : Type 0} (handle : Platform S) (m : Program A) (s : S) (a : A) (s' : S)
    : Type 0 where
  pub runs : (h : History) → (h' : History) × (run handle m s h ≡ (ok a, s', h'))

run_call :
    {S A : Type 0} (handle : Platform S) (op : Op) (k : Reply op → Program A) (s : S) (h : History)
    (answer : Reply op × S)
    → handle op s ≡ answer
    → run handle (call op k) s h
      ≡ run handle (k answer.0) answer.1 (record { op = op; reply = answer.0 } ∷ h)
unfolding run
run_call handle op k s h answer e =
    ap (λ p. run handle (k p.0) p.1 (record { op = op; reply = p.0 } ∷ h)) e

run_bind :
    {S A B : Type 0} (handle : Platform S) (m : Program A) (f : A → Program B) (s : S) {s1 : S}
    (h : History) {h1 : History} {a : A}
    → run handle m s h ≡ (ok a, s1, h1)
    → run handle (m >>= f) s h ≡ run handle (f a) s1 h1
unfolding run
run_bind {S = S} {A = A} handle (finish (ok x)) f s {s1 = s1} h {h1 = h1} {a = a} e =
    let e0 : ok x ≡ ok a = ap (λ p. p.0) e in
    let e1 : s ≡ s1 = ap (λ p. p.1) e in let e2 : h ≡ h1 = ap (λ p. p.2) e in cc
run_bind handle (finish (err x)) f s h {a = a} e = let e0 : err x ≡ ok a = ap (λ p. p.0) e in cc
run_bind handle (call op k) f s h e = run_bind handle (k (handle op s).0) f (handle op s).1 _ e

run-catch :
    {S A : Type 0} (handle : Platform S) (m : Program A) (s : S) {s1 : S} (h : History)
    {h1 : History} {a : A}
    → run handle m s h ≡ (ok a, s1, h1)
    → run handle (catch m) s h ≡ (ok (ok a), s1, h1)
unfolding run
run-catch handle (finish r) s h e = ap (λ p. (ok p.0, p.1, p.2)) e
run-catch handle (call op k) s h e = run-catch handle (k (handle op s).0) (handle op s).1 _ e

module _ {S : Type 0} {handle : Platform S} where
  pub perform-Yields :
      {A : Type 0} {s s1 s2 : S} {b : A} (op : Op) (f : Answer op → Program A) {a : Answer op}
      → handle op s ≡ (ok a, s1)
      → Yields handle (f a) s1 b s2
      → Yields handle (perform op >>= f) s b s2
  perform-Yields {s = s} op f {a = a} e w = record {
    runs = λ h.
        let (h', q) = w.runs (record { op = op; reply = ok a } ∷ h) in
        (h', run_call handle op _ s h (ok a, _) e ∙ q);
  }

  pub lift-Yields :
      {A B : Type 0} {s s2 : S} {b : B} (r : Result EngineError A) (f : A → Program B) {a : A}
      → r ≡ ok a
      → Yields handle (f a) s b s2
      → Yields handle (lift r >>= f) s b s2
  lift-Yields r f e w = rw e w

  -- A check that comes last.
  pub end-Yields :
      {A : Type 0} {s : S} (r : Result EngineError A) {a : A}
      → r ≡ ok a
      → Yields handle (lift r) s a s
  unfolding run
  end-Yields {s = s} r e = record { runs = λ h. (h, ap (λ x. (x, s, h)) e) }

  -- A call that comes last.
  pub last-Yields :
      {s s1 : S} (op : Op) {a : Answer op}
      → handle op s ≡ (ok a, s1)
      → Yields handle (perform op) s a s1
  unfolding run
  last-Yields {s = s} op {a = a} e = record {
    runs = λ h. (record { op = op; reply = ok a } ∷ h, run_call handle op finish s h (ok a, _) e);
  }

  -- A method whose outcome the caller inspects.
  pub catch-Yields :
      {A : Type 0} {s s1 : S} {a : A} (m : Program A)
      → Yields handle m s a s1
      → Yields handle (catch m) s (ok a) s1
  catch-Yields m w = record { runs = λ h. let (h1, p) = w.runs h in (h1, run-catch handle m _ h p) }

  pub pure-Yields : {A : Type 0} {s : S} (a : A) → Yields handle (pure a) s a s
  unfolding run
  pure-Yields a = record { runs = λ h. (h, refl) }

  pub bind-Yields :
      {A B : Type 0} {s s1 s2 : S} {a : A} {b : B} (m : Program A) (f : A → Program B)
      → Yields handle m s a s1
      → Yields handle (f a) s1 b s2
      → Yields handle (m >>= f) s b s2
  bind-Yields m f v w = record {
    runs = λ h.
        let (h1, p) = v.runs h in let (h2, q) = w.runs h1 in (h2, run_bind handle m f _ h p ∙ q);
  }
