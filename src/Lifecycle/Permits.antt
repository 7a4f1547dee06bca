-- ===== src/Lifecycle/Permits.antt =====
-- When a lifecycle method may make a call that changes something outside the records: the contract
-- that the engine keeps with its provider and with the state root.
pub mod Stored
pub mod Steps
pub mod Runs
use vm_cell_manager.Prelude.{◌≡◌, true, false, String, Option, some, Result, ok, err}
use vm_cell_manager.Host.{Uuid, Host}
use vm_cell_manager.Cell.{
  CellState, creating, destroying, destroyed, CellPhase, intent_recorded, overlay_created,
  provider_object_created, provider_object_claimed, CellRecord,
}
use vm_cell_manager.Provider.{
  MutationAuthority, new_authority, CreateOverlayRequest, CreateVmRequest, ClaimVmRequest,
  ConfigureVmRequest, ProviderVm, off,
}
use vm_cell_manager.Engine.Local.{IsLocal}
use vm_cell_manager.Engine.Proven.{IsOwned, IsIsolated, IsFresh}
use vm_cell_manager.Program.{
  Op, Program, write_cell, remove_cell_runtime, create_overlay, create_vm, claim_vm, configure_vm,
  start_vm, stop_vm, remove_vm,
}
use vm_cell_manager.Program.Logic.{History, After, Holds}
use vm_cell_manager.Lifecycle.Known.{Known, known, IsStored}

-- What is known where a method succeeds.
abbrev pub Ends : {A : Type 0} → (Known → A → Type 0) → After A
Ends R h (ok a) = R (known h) a
Ends R h (err _) = Unit {0}

module _ (host : Host) (name root : String) where
  -- The method holds the lock, the installation and the runtime of a cell whose record is stored
  -- and belongs to that installation, this provider and this state root.
  pub record Holding (k : Known) (r : CellRecord) : Type 0 where
    pub lock : k.locked ≡ true
    pub install : Uuid
    pub installation : k.installation ≡ some install
    pub local : IsLocal host name root install r
    pub stored : IsStored k r
    pub runtime : k.pinned ≡ some (r.id, r.ownership.configuration_path, r.ownership.overlay_path)

  pub record MayStart (k : Known) (a : MutationAuthority) (vm : ProviderVm) : Type 0 where
    pub r : CellRecord
    pub holding : Holding k r
    pub authority : a ≡ new_authority r
    pub proven : IsIsolated host r vm
    pub current : k.seen ≡ some vm

  pub record MayStop (k : Known) (a : MutationAuthority) (vm : ProviderVm) : Type 0 where
    pub r : CellRecord
    pub holding : Holding k r
    pub authority : a ≡ new_authority r
    pub proven : IsOwned host r vm
    pub current : k.seen ≡ some vm

  -- The intent to destroy is stored first, and the virtual machine is off.
  pub record MayRemove (k : Known) (a : MutationAuthority) (vm : ProviderVm) : Type 0 where
    pub r : CellRecord
    pub holding : Holding k r
    pub authority : a ≡ new_authority r
    pub proven : IsOwned host r vm
    pub current : k.seen ≡ some vm
    pub intent : r.state ≡ CellState.destroying
    pub is_off : vm.power_state ≡ off

  pub record MayClaim (k : Known) (a : MutationAuthority) (q : ClaimVmRequest) : Type 0 where
    pub r : CellRecord
    pub holding : Holding k r
    pub authority : a ≡ new_authority r
    pub proven : IsFresh host r q.expected false
    pub current : k.seen ≡ some q.expected
    pub marker : q.ownership_marker ≡ r.ownership.provider_marker
    pub phase : r.phase ≡ provider_object_created

  pub record MayConfigure (k : Known) (a : MutationAuthority) (q : ConfigureVmRequest)
      : Type 0 where
    pub r : CellRecord
    pub holding : Holding k r
    pub authority : a ≡ new_authority r
    pub proven : IsFresh host r q.expected true
    pub current : k.seen ≡ some q.expected
    pub cpu : q.cpu_count ≡ r.spec.cpu_count
    pub phase : r.phase ≡ provider_object_claimed

  -- The provider reports the cell's name free, and each step is recorded before the next.
  pub record MayMake (phase : CellPhase) (k : Known) (a : MutationAuthority) : Type 0 where
    pub r : CellRecord
    pub holding : Holding k r
    pub authority : a ≡ new_authority r
    pub recorded : r.phase ≡ phase
    pub state : r.state ≡ creating
    pub vacant : k.vacant ≡ some r.ownership.provider_object_name

  -- The files of a cell go only when its name is free at the provider.
  pub record MayDelete (k : Known) (id : Uuid) : Type 0 where
    pub r : CellRecord
    pub holding : Holding k r
    pub same : r.id ≡ id
    pub vacant : k.vacant ≡ some r.ownership.provider_object_name

  -- A tombstone is written only then, too.
  unfoldable pub MayWrite : CellState → String → Option String → Type 0
  MayWrite CellState.destroyed object_name vacant = vacant ≡ some object_name
  MayWrite _ object_name vacant = Unit {0}

  unfoldable pub Permits : Known → Op → Type 0
  Permits k (write_cell r) =
      (k.locked ≡ true) × MayWrite r.state r.ownership.provider_object_name k.vacant
  Permits k (start_vm a vm) = MayStart k a vm
  Permits k (stop_vm a vm) = MayStop k a vm
  Permits k (remove_vm a vm) = MayRemove k a vm
  Permits k (claim_vm a q) = MayClaim k a q
  Permits k (configure_vm a q) = MayConfigure k a q
  Permits k (create_overlay a q) = MayMake intent_recorded k a
  Permits k (create_vm a q) = MayMake overlay_created k a
  Permits k (remove_cell_runtime id) = MayDelete k id
  Permits k _ = Unit {0}

  abbrev pub Lawful : History → Op → Type 0
  Lawful h op = Permits (known h) op

  -- On every path, every call is permitted, and `R` holds where the method succeeds.
  pub record Conforms {A : Type 0} (R : Known → A → Type 0) (h : History) (m : Program A)
      : Type 0 where
    pub paths : Holds Lawful (Ends R) h m
