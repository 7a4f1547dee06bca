-- ===== src/Selection/Justified.antt =====
-- What the search for a plan keeps true of every candidate that it collects.
use vm_cell_manager.Prelude.{
  ℕ, Bool, true, false, not, none, some, List, ◌||◌, ◌==◌, string_eq, nat_eq, bool_eq, option_eq,
  contains, find, ◌≡◌, ◌≢◌, refl, ◌⊎◌, inl, inr, arith, All, Memᴰ, All-append, Bool-cases, eq_and,
  eq_of_test,
}
use vm_cell_manager.Platform.{
  ProviderId, provider_id, provider_str, accelerator_str, transport_str, guest_os_name,
  architecture_name, host_os_eq, guest_os_eq, architecture_eq, provider_id_eq, accelerator_eq,
}
use vm_cell_manager.Capability.{ready, probe_status_eq, ProviderProbe}
use vm_cell_manager.Image.{ImageRecord, ImageVariant}
use vm_cell_manager.Support.Matrix.{SupportMatrixEntry, unsupported, support_status_eq}
use vm_cell_manager.Selection.Types.{HostPlatform, RunSelectionIntent, RunExecutionPlan}
use vm_cell_manager.Selection.Resolve.{
  Search, selected_provider, accelerator_for, native_provider_rank, plan_for, row_matches,
  consider_row,
}
use vm_cell_manager.Selection.Revalidate.{plan_key}

module _ (host : HostPlatform) (image : ImageRecord) (intent : RunSelectionIntent)
    (matrix : List SupportMatrixEntry) (probes : List ProviderProbe) where
  -- The provider that a candidate is for: the selected one, if any, and a probe of its name is
  -- ready and reports the guest, the accelerator and the architecture.
  pub record IsCapable (provider : ProviderId) (probe : ProviderProbe) : Type 0 where
    pub found : find (λ p. p.name == provider_str provider) probes ≡ some probe
    pub native : image.guest_arch ≡ host.architecture
    pub chosen : (selected_provider intent ≡ none) ⊎ (selected_provider intent ≡ some provider)
    pub is_ready : probe.status ≡ ready
    pub available : probe.available ≡ true
    pub guest_os : contains probe.capabilities.guest_os (guest_os_name image.guest_os) ≡ true
    pub guest_arch :
        contains probe.capabilities.guest_arch (architecture_name image.guest_arch) ≡ true
    pub accelerator :
        contains probe.capabilities.accelerators
          (accelerator_str (accelerator_for host intent provider))
        ≡ true

  -- The row that a candidate is for: listed under the plan's own key, not declared unsupported,
  -- over a transport that the provider reports.
  pub record IsRow (provider : ProviderId) (probe : ProviderProbe) (entry : SupportMatrixEntry)
      : Type 0 where
    pub listed : Memᴰ entry matrix
    pub keyed : entry.key ≡ plan_key (plan_for host image intent provider entry)
    pub allowed : entry.status ≢ unsupported
    pub transport :
        contains probe.capabilities.guest_transports (transport_str entry.key.guest_transport)
        ≡ true
    pub networkless : probe.capabilities.networkless_guest_exec ≡ true

  -- A candidate of the search, with its rank.
  pub record IsJustified (c : ℕ × RunExecutionPlan) : Type 0 where
    pub variant : ImageVariant
    pub provider : ProviderId
    pub probe : ProviderProbe
    pub entry : SupportMatrixEntry
    pub plan : c.1 ≡ plan_for host image intent provider entry
    pub rank : c.0 ≡ native_provider_rank host.os provider
    pub bundled : Memᴰ variant image.variants
    pub named : provider_id variant.provider ≡ some provider
    pub capable : IsCapable provider probe
    pub row : IsRow provider probe entry

  abbrev pub Held : Search → Type 0
  Held s = All IsJustified s.candidates

  module _ (variant : ImageVariant) (provider : ProviderId) (bundled : Memᴰ variant image.variants)
      (named : provider_id variant.provider ≡ some provider) where
    module _ (probe : ProviderProbe) (capable : IsCapable provider probe) where
      row_of_match :
          (entry : SupportMatrixEntry)
          → Memᴰ entry matrix
          → row_matches host image intent provider entry ≡ true
          → entry.status == unsupported ≡ false
          → (not (
                contains probe.capabilities.guest_transports
                  (transport_str entry.key.guest_transport))
              || not probe.capabilities.networkless_guest_exec)
            ≡ false
          → IsRow provider probe entry
      unfolding row_matches plan_key plan_for
      row_of_match entry m r a t =
          let (p1, h1) = eq_and entry.key.host_os host.os _ r in
          let (p2, h2) = eq_and entry.key.host_architecture host.architecture _ h1 in
          let (p3, h3) = eq_and entry.key.provider provider _ h2 in
          let (p4, h4) = eq_and entry.key.accelerator (accelerator_for host intent provider) _ h3 in
          let (p5, h5) = eq_and entry.key.guest_os image.guest_os _ h4 in
          let p6 = eq_of_test entry.key.guest_architecture image.guest_arch h5 in
          record {
            listed = m;
            keyed = cc (p1, p2, p3, p4, p5, p6);
            allowed = ground arith;
            transport = ground arith;
            networkless = ground arith;
          }

      pub consider_row-Held :
          (entry : SupportMatrixEntry) (selectable : Bool) (s : Search)
          → Memᴰ entry matrix
          → row_matches host image intent provider entry ≡ true
          → Held s
          → Held (consider_row host image intent provider probe entry (selectable, s)).1
      unfolding consider_row
      consider_row-Held entry selectable s m r h = elim (Bool-cases (entry.status == unsupported)) [
        | inl u ↦ rw u h
        | inr a ↦
            elim (Bool-cases (
              not (
                contains probe.capabilities.guest_transports
                  (transport_str entry.key.guest_transport))
              || not probe.capabilities.networkless_guest_exec)) [
                | inl t ↦ rw (a, t) h
                | inr t ↦
                    rw (a, t)
                      (All-append IsJustified s.candidates _ h (
                        record {
                          variant = variant;
                          provider = provider;
                          probe = probe;
                          entry = entry;
                          plan = refl;
                          rank = refl;
                          bundled = bundled;
                          named = named;
                          capable = capable;
                          row = row_of_match entry m r a t;
                        },
                        tt,
                      ))
              ]
      ]
