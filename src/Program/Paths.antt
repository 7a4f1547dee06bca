-- ===== src/Program/Paths.antt =====
-- The paths of a program: the replies it may get, the history that they make, and the outcome.
use vm_cell_manager.Prelude.{◌∷◌, Result}
use vm_cell_manager.Engine.Errors.{EngineError}
use vm_cell_manager.Program.{Op, Reply, Program, finish, call}
use vm_cell_manager.Program.Logic.{History, Event, After, Holds, finished, called, weaken-Holds}

-- From a history, the program may come to a later one with this outcome.
pub data PathTo {A : Type 0} : Program A → History → History → Result EngineError A → Type 0 where
  ended : {h : History} {r : Result EngineError A} → PathTo (finish r) h h r
  replied :
      {h h' : History} {r : Result EngineError A} (op : Op) (k : Reply op → Program A)
      (reply : Reply op)
      → PathTo (k reply) (record { op = op; reply = reply } ∷ h) h' r
      → PathTo (call op k) h h' r

-- The calls of the first history were made before the rest of the second.
pub data Extends : History → History → Type 0 where
  same : {h : History} → Extends h h
  more : {g h : History} (e : Event) → Extends g h → Extends g (e ∷ h)

pub Extends-trans : {f g h : History} → Extends f g → Extends g h → Extends f h
Extends-trans x same = x
Extends-trans x (more e y) = more e (Extends-trans x y)

pub PathTo-Extends :
    {A : Type 0} {m : Program A} {h h' : History} {r : Result EngineError A}
    → PathTo m h h' r
    → Extends h h'
PathTo-Extends ended = same
PathTo-Extends (replied op k reply p) = Extends-trans (more _ same) (PathTo-Extends p)

-- What holds at every end holds there of the path that led to it.
pub trace-Holds :
    {A : Type 0} {P : History → Op → Type 0} {Q : After A} {h : History} (m : Program A)
    → Holds P Q h m
    → Holds P (λ h' r. Q h' r × PathTo m h h' r) h m
trace-Holds _ (finished r w) = finished r (w, ended)
trace-Holds _ (called op k p w) = called op k p (λ reply.
    weaken-Holds (λ h' r (q, path). (q, replied op k reply path)) (k reply)
      (trace-Holds (k reply) (w reply)))
