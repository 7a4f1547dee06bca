-- ===== src/Engine/Proven.antt =====
-- What the proofs of identity of src/engine/mod.rs establish, and how they compare.
use vm_cell_manager.Prelude.{
  ℕ, String, Bool, true, false, not, ◌≡◌, ◌↔◌, ◌⊎◌, inl, inr, refl, ap, Option, none, some, List,
  ◌==◌, ◌!=◌, ◌&&◌, nat_eq, string_eq, option_eq, Bool-cases, eq_of_not, of_not, not_of_eq, not_of,
  ok, arith, ltb, ◌≤◌,
}
use vm_cell_manager.Host.{Host}
use vm_cell_manager.Cell.{CellRecord, ProviderObjectIdentity}
use vm_cell_manager.Provider.{ProviderVm, off, power_state_eq}
use vm_cell_manager.Provider.Authority.{single_disk}
use vm_cell_manager.Engine.Identity.{
  Reason, identity_reasons, push_if, proven_if_none, disk_mismatch, prove_ownership,
  prove_creation_identity, prove_destroy_identity, ownership_drift, creation_reasons,
  destroy_reasons,
}

-- What the virtual machine has in common with the record, whatever the phase.
pub record SameMachine (host : Host) (r : CellRecord) (vm : ProviderVm) : Type 0 where
  pub identity : r.provider_object ≡ some (record { id = vm.id; name = vm.name })
  pub object_name : vm.name ≡ r.ownership.provider_object_name
  pub configuration : host.paths_equal vm.configuration_path r.ownership.configuration_path ≡ true
  pub disk : single_disk host.paths_equal vm.attached_disks r.ownership.overlay_path ≡ true
  pub memory : vm.memory_mib ≡ r.spec.memory_mib

pub record IsOwned (host : Host) (r : CellRecord) (vm : ProviderVm) : Type 0 where
  pub machine : SameMachine host r vm
  pub marker : vm.ownership_marker ≡ r.ownership.provider_marker

pub record IsIsolated (host : Host) (r : CellRecord) (vm : ProviderVm) : Type 0 where
  pub owned : IsOwned host r vm
  pub no_network : vm.network_adapter_count ≡ 0
  pub cpu : vm.cpu_count ≡ r.spec.cpu_count

at_most_one : (n : ℕ) → ltb 1 n ≡ false → n ≤ 1
at_most_one n h = grind arith

module _ (host : Host) where
  push-proven :
      (test : Bool) (reason : Reason) (rest : List Reason)
      → proven_if_none host (push_if test reason rest) ≡ ok tt
      → (test ≡ false) × (proven_if_none host rest ≡ ok tt)
  push-proven true reason rest h = cc
  push-proven false reason rest h = (refl, h)

  same_identity :
      (i : ProviderObjectIdentity) (vm : ProviderVm) (rest : List Reason)
      → proven_if_none host (identity_reasons (some i) vm rest) ≡ ok tt
      → (i ≡ record { id = vm.id; name = vm.name }) × (proven_if_none host rest ≡ ok tt)
  unfolding identity_reasons
  same_identity i vm rest h = let p = Bool-cases (i.id == vm.id) in ground arith

  identity-proven :
      (i : Option ProviderObjectIdentity) (vm : ProviderVm) (rest : List Reason)
      → proven_if_none host (identity_reasons i vm rest) ≡ ok tt
      → (i ≡ some (record { id = vm.id; name = vm.name })) × (proven_if_none host rest ≡ ok tt)
  unfolding identity_reasons
  identity-proven none vm rest h = cc
  identity-proven (some i) vm rest h = let p = same_identity i vm rest h in (ap some p.0, p.1)

  -- Every test that fails keeps the proof.
  push-keeps :
      (test : Bool) (reason : Reason) (rest : List Reason)
      → test ≡ false
      → proven_if_none host rest ≡ ok tt
      → proven_if_none host (push_if test reason rest) ≡ ok tt
  push-keeps true reason rest e h = cc
  push-keeps false reason rest e h = h

  identity-keeps :
      (i : Option ProviderObjectIdentity) (vm : ProviderVm) (rest : List Reason)
      → i ≡ some (record { id = vm.id; name = vm.name })
      → proven_if_none host rest ≡ ok tt
      → proven_if_none host (identity_reasons i vm rest) ≡ ok tt
  unfolding identity_reasons
  identity-keeps none vm rest e h = cc
  identity-keeps (some i) vm rest e h =
      let p : i ≡ record { id = vm.id; name = vm.name } = cc in
      let q : (i.id != vm.id) ≡ false = not_of_eq (ap (λ j. j.id) p) in
      let r : (i.name != vm.name) ≡ false = not_of_eq (ap (λ j. j.name) p) in ground arith

  -- The engine's proof of ownership succeeds exactly when the virtual machine is the recorded
  -- one, bears its marker, has only its overlay attached, has no network adapter and has the
  -- recorded processors and memory.
  pub prove_ownership_iff :
      (r : CellRecord) (vm : ProviderVm)
      → (prove_ownership host r vm ≡ ok tt) ↔ IsIsolated host r vm
  unfolding prove_ownership ownership_drift disk_mismatch
  prove_ownership_iff r vm = (
    λ h.
        let (i, h1) = identity-proven _ _ _ h in
        let (n, h2) = push-proven _ _ _ h1 in
        let (m, h3) = push-proven _ _ _ h2 in
        let (c, h4) = push-proven _ _ _ h3 in
        let (d, h5) = push-proven _ _ _ h4 in
        let (a, h6) = push-proven _ _ _ h5 in
        let (u, h7) = push-proven _ _ _ h6 in
        let (y, _) = push-proven _ _ _ h7 in
        record {
          owned = record {
            machine = record {
              identity = i;
              object_name = eq_of_not _ _ n;
              configuration = of_not _ c;
              disk = of_not _ d;
              memory = eq_of_not _ _ y;
            };
            marker = eq_of_not _ _ m;
          };
          no_network = eq_of_not _ _ a;
          cpu = eq_of_not _ _ u;
        },
    λ o.
        let w = o.owned.machine in
        identity-keeps _ _ _ w.identity (
          push-keeps _ _ _ (not_of_eq w.object_name) (
            push-keeps _ _ _ (not_of_eq o.owned.marker) (
              push-keeps _ _ _ (not_of w.configuration) (
                push-keeps _ _ _ (not_of w.disk) (
                  push-keeps _ _ _ (not_of_eq o.no_network) (
                    push-keeps _ _ _ (not_of_eq o.cpu)
                      (push-keeps _ _ _ (not_of_eq w.memory) refl))))))),
  )

  -- The proof before destruction succeeds exactly when the virtual machine is the recorded one,
  -- with its paths, its one disk and its memory, and bears its marker.
  pub prove_destroy_identity_iff :
      (r : CellRecord) (vm : ProviderVm)
      → (prove_destroy_identity host r vm ≡ ok tt) ↔ IsOwned host r vm
  unfolding prove_destroy_identity destroy_reasons disk_mismatch
  prove_destroy_identity_iff r vm = (
    λ h.
        let (i, h1) = identity-proven _ _ _ h in
        let (n, h2) = push-proven _ _ _ h1 in
        let (m, h3) = push-proven _ _ _ h2 in
        let (c, h4) = push-proven _ _ _ h3 in
        let (d, h5) = push-proven _ _ _ h4 in
        let (y, _) = push-proven _ _ _ h5 in
        record {
          machine = record {
            identity = i;
            object_name = eq_of_not _ _ n;
            configuration = of_not _ c;
            disk = of_not _ d;
            memory = eq_of_not _ _ y;
          };
          marker = eq_of_not _ _ m;
        },
    λ o.
        let w = o.machine in
        identity-keeps _ _ _ w.identity (
          push-keeps _ _ _ (not_of_eq w.object_name) (
            push-keeps _ _ _ (not_of_eq o.marker) (
              push-keeps _ _ _ (not_of w.configuration)
                (push-keeps _ _ _ (not_of w.disk) (push-keeps _ _ _ (not_of_eq w.memory) refl))))),
  )

  -- While a cell is created: the virtual machine is the recorded one, it is off, it has at most one
  -- network adapter, and its marker is the recorded one, or is empty when none is required.
  pub record IsFresh (r : CellRecord) (vm : ProviderVm) (require_marker : Bool) : Type 0 where
    pub machine : SameMachine host r vm
    pub marker :
        (vm.ownership_marker ≡ r.ownership.provider_marker)
        ⊎ (require_marker ≡ false) × (vm.ownership_marker ≡ "")
    pub adapters : vm.network_adapter_count ≤ 1
    pub is_off : vm.power_state ≡ off

  marker_or_empty :
      (require_marker : Bool) (marker expected : String)
      → (require_marker && marker != expected) ≡ false
      → (not require_marker && (marker != "" && marker != expected)) ≡ false
      → (marker ≡ expected) ⊎ (require_marker ≡ false) × (marker ≡ "")
  marker_or_empty true marker expected p q = inl (eq_of_not _ _ p)
  marker_or_empty false marker expected p q = elim (Bool-cases (marker != "")) [
    | inl e ↦ inl (eq_of_not _ _ (rw e at q))
    | inr e ↦ inr (refl, eq_of_not _ _ e)
  ]

  -- Where the proof of identity during creation succeeds, the virtual machine is the recorded
  -- one, it is off, it has at most one network adapter, and its marker is the recorded one, or is
  -- empty when none is required.
  pub prove_creation_identity-IsFresh :
      (r : CellRecord) (vm : ProviderVm) (require_marker : Bool)
      → prove_creation_identity host r vm require_marker ≡ ok tt
      → IsFresh r vm require_marker
  unfolding prove_creation_identity creation_reasons disk_mismatch
  prove_creation_identity-IsFresh r vm require_marker h =
      let (i, h1) = identity-proven _ _ _ h in
      let (n, h2) = push-proven _ _ _ h1 in
      let (m, h3) = push-proven _ _ _ h2 in
      let (e, h4) = push-proven _ _ _ h3 in
      let (c, h5) = push-proven _ _ _ h4 in
      let (d, h6) = push-proven _ _ _ h5 in
      let (y, h7) = push-proven _ _ _ h6 in
      let (a, h8) = push-proven _ _ _ h7 in
      let (f, _) = push-proven _ _ _ h8 in
      record {
        machine = record {
          identity = i;
          object_name = eq_of_not _ _ n;
          configuration = of_not _ c;
          disk = of_not _ d;
          memory = eq_of_not _ _ y;
        };
        marker = marker_or_empty _ _ _ m e;
        adapters = at_most_one _ a;
        is_off = eq_of_not _ _ f;
      }
