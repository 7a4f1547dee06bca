-- ===== src/Lifecycle/Collect/Disposed.antt =====
-- What the disposition of a collected cell (src/engine/mod.rs) means.
use vm_cell_manager.Prelude.{
  ◌≡◌, true, false, ◌<◌, ◌≤◌, nat_eq, string_eq, ℕ, String, Option, none, some, List, Result, ok,
  err, Bool-cases, inl, inr,
}
use vm_cell_manager.Host.{Uuid, Host}
use vm_cell_manager.Cell.{CellId}
use vm_cell_manager.Guest.{GuestOperationRecord}
use vm_cell_manager.Engine.Errors.{EngineError}
use vm_cell_manager.Program.Logic.{History}
use vm_cell_manager.Program.Paths.{PathTo, Extends, Extends-trans}
use vm_cell_manager.Lifecycle.{OperationReport}
use vm_cell_manager.Lifecycle.Permits.{Ends}
use vm_cell_manager.Lifecycle.Destroy.{destroy_cell_locked}
use vm_cell_manager.Lifecycle.Destroy.Tombstone.{Destroyed}
use vm_cell_manager.Lifecycle.Collect.{
  GcDisposition, no_ttl, not_expired, in_flight_guest_operation, destroyed, already_destroyed,
  ownership_mismatch, failed, GcEntry, is_in_flight, gc_disposition,
}

-- The expiry has passed.
unfoldable pub Expired : ℕ → GcEntry → Type 0
Expired evaluated_at e = (t : ℕ) × (e.expires_at ≡ some t) × (t ≤ evaluated_at)

module _ (host : Host) (file_stem : Uuid → Option String) (name root : String) where
  -- Among the calls made is a run of the cell's destruction, with this outcome. Where it succeeded,
  -- it left a tombstone.
  pub record Destruction (id : CellId) (h : History) (disposition : GcDisposition) : Type 0 where
    pub start : History
    pub end : History
    pub outcome : Result EngineError OperationReport
    pub path : PathTo (destroy_cell_locked host file_stem name root id) start end outcome
    pub made : Extends end h
    pub succeeded : Ends (Destroyed id) end outcome
    pub disposed : disposition ≡ gc_disposition outcome

  -- What a disposition means.
  unfoldable pub Disposed :
      ℕ → List GuestOperationRecord → History → GcEntry → GcDisposition → Type 0
  Disposed evaluated_at operations h e no_ttl = e.expires_at ≡ none
  Disposed evaluated_at operations h e not_expired =
      (t : ℕ) × (e.expires_at ≡ some t) × (evaluated_at < t)
  Disposed evaluated_at operations h e in_flight_guest_operation =
      Expired evaluated_at e × (is_in_flight operations e.cell_id ≡ true)
  Disposed evaluated_at operations h e d =
      Expired evaluated_at e
      × (is_in_flight operations e.cell_id ≡ false)
      × Destruction e.cell_id h d

  later-Destruction :
      {id : CellId} {g h : History} {d : GcDisposition}
      → Extends g h
      → Destruction id g d
      → Destruction id h d
  later-Destruction x w = record {
    start = w.start;
    end = w.end;
    outcome = w.outcome;
    path = w.path;
    made = Extends-trans w.made x;
    succeeded = w.succeeded;
    disposed = w.disposed;
  }

  pub later-Disposed :
      (at : ℕ) (operations : List GuestOperationRecord) {g h : History} (e : GcEntry)
      (d : GcDisposition)
      → Extends g h
      → Disposed at operations g e d
      → Disposed at operations h e d
  unfolding Disposed
  later-Disposed at operations e no_ttl x w = w
  later-Disposed at operations e not_expired x w = w
  later-Disposed at operations e in_flight_guest_operation x w = w
  later-Disposed at operations e destroyed x (p, f, w) = (p, f, later-Destruction x w)
  later-Disposed at operations e already_destroyed x (p, f, w) = (p, f, later-Destruction x w)
  later-Disposed at operations e ownership_mismatch x (p, f, w) = (p, f, later-Destruction x w)
  later-Disposed at operations e failed x (p, f, w) = (p, f, later-Destruction x w)

  -- The outcomes that `gc_disposition` gives are those of a destruction.
  pub disposed_lem :
      (at : ℕ) (operations : List GuestOperationRecord) (h : History) (e : GcEntry)
      (outcome : Result EngineError OperationReport)
      → Expired at e
      → is_in_flight operations e.cell_id ≡ false
      → Destruction e.cell_id h (gc_disposition outcome)
      → Disposed at operations h e (gc_disposition outcome)
  unfolding gc_disposition Disposed
  disposed_lem at operations h e (ok report) x f w = elim (Bool-cases report.changed) [
    | inl c ↦ rw c (x, f, rw c at w)
    | inr c ↦ rw c (x, f, rw c at w)
  ]
  disposed_lem at operations h e (err EngineError.ownership_not_proven) x f w = (x, f, w)
  disposed_lem at operations h e (err EngineError.provider_drift) x f w = (x, f, w)
  disposed_lem at operations h e (err (EngineError.unexpected_power_state _)) x f w = (x, f, w)
  disposed_lem at operations h e (err _) x f w = (x, f, w)
