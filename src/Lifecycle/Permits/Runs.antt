-- ===== src/Lifecycle/Permits/Runs.antt =====
-- What a lifecycle method does on a platform: a provider with its state, the files, and a clock.
use vm_cell_manager.Prelude.{String, []}
use vm_cell_manager.Host.{Host}
use vm_cell_manager.Program.{Program}
use vm_cell_manager.Program.Logic.{Platform, run, Respects, run-Holds}
use vm_cell_manager.Lifecycle.Known.{Known}
use vm_cell_manager.Lifecycle.Permits.{Lawful, Ends, Conforms}

pub Conforms-run :
    {S A : Type 0} (host : Host) (name root : String) (R : Known → A → Type 0) (m : Program A)
    (handle : Platform S) (s : S)
    → Conforms host name root R [] m
    → let (r, _, h) = run handle m s [] in Respects (Lawful host name root) h × Ends R h r
unfolding Respects
Conforms-run host name root R m handle s w =
    run-Holds (Lawful host name root) (Ends R) handle m s [] tt w.paths
