-- ===== src/Lifecycle/Power/Confirmed.antt =====
-- The ends of the start and the stop of a cell (src/engine/mod.rs), and what their reports mean.
use vm_cell_manager.Prelude.{
  ◌≡◌, ◌∙◌, ap, true, refl, ℕ, String, Option, some, Bool, ◌==◌, ◌!=◌, string_eq, ok, eq_of_not,
}
use vm_cell_manager.Host.{Uuid, Host}
use vm_cell_manager.Cell.{CellId, CellState, cell_state_eq, CellPhase, ready, CellRecord}
use vm_cell_manager.Provider.{ProviderVm, ProviderPowerState, power_state_eq}
use vm_cell_manager.Engine.Errors.{unexpected_power_state}
use vm_cell_manager.Engine.Identity.{
  prove_ownership, ownership_drift, identity_reasons, disk_mismatch,
}
use vm_cell_manager.Engine.Proven.{IsIsolated, prove_ownership_iff}
use vm_cell_manager.Program.{◌>>=◌, verify_registered_image}
use vm_cell_manager.Program.Logic.{History}
use vm_cell_manager.Store.{redact_cell_diagnostic}
use vm_cell_manager.Lifecycle.{
  OperationReport, operation_report, fail_if, bound_variant, moved, exact_owned_vm, settle_record,
}
use vm_cell_manager.Lifecycle.Known.{Known, known, IsStored}
use vm_cell_manager.Lifecycle.Permits.{Permits, MayWrite, Conforms}
use vm_cell_manager.Lifecycle.Permits.Steps.{
  step_last, weaken, either, check_not, bind, finishes, Owned, exact_owned_vm_lem, Settled,
  settle_lem,
}
use vm_cell_manager.Lifecycle.Power.{verify_parent}

-- A report of success: the cell's record is stored in state `s`, ready, and the last snapshot is one
-- of its own isolated virtual machine in power state `p`.
pub record Reported (host : Host) (s : CellState) (p : ProviderPowerState) (id : CellId) (k : Known)
    (report : OperationReport) : Type 0 where
  pub r : CellRecord
  pub stored : IsStored k r
  pub same : r.id ≡ id
  pub state : r.state ≡ s
  pub phase : r.phase ≡ ready
  pub cell : report.cell_id ≡ id
  pub reported : report.state ≡ s
  pub vm : ProviderVm
  pub current : k.seen ≡ some vm
  pub isolated : IsIsolated host r vm
  pub power : vm.power_state ≡ p

-- What a method knows of a cell before it acts.
pub record Ready (host : Host) (k : Known) (r : CellRecord) (vm : ProviderVm) : Type 0 where
  pub lock : k.locked ≡ true
  pub stored : IsStored k r
  pub current : k.seen ≡ some vm
  pub proven : prove_ownership host r vm ≡ ok tt

module _ (host : Host) (file_stem : Uuid → Option String) (name root : String) where
  moved-IsIsolated :
      (r : CellRecord) (vm : ProviderVm) (s : CellState) (p : CellPhase) (t : ℕ)
      → prove_ownership host r vm ≡ ok tt
      → IsIsolated host (moved r s p t) vm
  unfolding prove_ownership ownership_drift identity_reasons disk_mismatch
  moved-IsIsolated r vm s p t h = (prove_ownership_iff host (moved r s p t) vm).0 h

  Settled-Reported :
      {k : Known} {r : CellRecord} {vm : ProviderVm} {p : ProviderPowerState} {id : CellId}
      (s : CellState) (changed : Bool) (k' : Known) (report : OperationReport)
      → Ready host k r vm
      → vm.power_state ≡ p
      → r.id ≡ id
      → Settled host file_stem name root r s changed k k' report
      → Reported host s p id k' report
  unfolding Settled operation_report IsStored redact_cell_diagnostic
  Settled-Reported {r = r} {vm = vm} s changed k' report w power same (t, e, q) = record {
    r = moved r s ready t;
    stored = (redact_cell_diagnostic (moved r s ready t), ap (λ k. k.durable) e, refl);
    same = same;
    state = refl;
    phase = refl;
    cell = ap (λ x. x.cell_id) q ∙ same;
    reported = ap (λ x. x.state) q;
    vm = vm;
    current = ap (λ k. k.seen) e ∙ w.current;
    isolated = moved-IsIsolated r vm s ready t w.proven;
    power = power;
  }

  pub verify_parent_lem :
      (r : CellRecord) (h : History)
      → Conforms host name root (λ k _. k ≡ known h) h (verify_parent r)
  unfolding verify_parent Permits
  verify_parent_lem r h =
      either (r.provider == "qemu")
        (λ _. step_last (verify_registered_image (bound_variant r)) tt (λ _. refl))
        (λ _. finishes tt refl)

  -- The second snapshot and the end, once the power state was asked to change.
  pub confirm_lem :
      (s : CellState) (p : ProviderPowerState) (r : CellRecord) (id : CellId) (h : History)
      → r.id ≡ id
      → (known h).locked ≡ true
      → IsStored (known h) r
      → MayWrite host name root s r.ownership.provider_object_name (known h).vacant
      → Conforms host name root (Reported host s p id) h (
          exact_owned_vm host file_stem name root r >>= λ after.
          fail_if (after.power_state != p) (unexpected_power_state after.power_state) >>= λ _.
          settle_record host file_stem name root r s true)
  unfolding Owned IsStored Permits
  confirm_lem s p r id h same lock stored writes =
      bind (exact_owned_vm host file_stem name root r) _
        (exact_owned_vm_lem host file_stem name root r h)
        (λ after h1 (e, proven).
          check_not (after.power_state != p) (unexpected_power_state after.power_state) _ (λ power.
            weaken (settle_record host file_stem name root r s true)
              (λ k' report.
                Settled-Reported s true k' report
                  (record {
                    lock = ap (λ k. k.locked) e ∙ lock;
                    stored = (stored.0, ap (λ k. k.durable) e ∙ stored.1, stored.2);
                    current = ap (λ k. k.seen) e;
                    proven = proven;
                  })
                  (eq_of_not _ _ power) same)
              (settle_lem host file_stem name root r s true h1
                (λ t. (ap (λ k. k.locked) e ∙ lock, rw (ap (λ k. k.vacant) e) writes)))))

  -- The branch where the virtual machine already is in the power state.
  pub settle_only :
      (s : CellState) (p : ProviderPowerState) (r : CellRecord) (vm : ProviderVm) (id : CellId)
      (changed : Bool) (h : History)
      → r.id ≡ id
      → vm.power_state ≡ p
      → Ready host (known h) r vm
      → MayWrite host name root s r.ownership.provider_object_name (known h).vacant
      → Conforms host name root
          (Reported host s p id)
          h
          (settle_record host file_stem name root r s changed)
  unfolding Permits
  settle_only s p r vm id changed h same power w writes =
      weaken (settle_record host file_stem name root r s changed)
        (λ k' report. Settled-Reported s changed k' report w power same)
        (settle_lem host file_stem name root r s changed h (λ t. (w.lock, writes)))
