-- ===== src/Selection/Resolve.antt =====
-- `resolve_run_execution_plan` of src/core/run_selection.rs. Each `continue` of the loop over the
-- image's variants is a branch that returns the search as it stands, with a rejection noted.
use vm_cell_manager.Prelude.{
  ℕ, Bool, true, false, not, Option, none, some, List, [], ◌∷◌, ◌++◌, ◌&&◌, ◌||◌, ◌==◌, ◌!=◌,
  string_eq, nat_eq, bool_eq, option_eq, if◌then◌else◌, any, contains, find, filter, length,
  is_empty, is_some, leb, Result, ok, err, ◌>>=◌, ◌>>◌, reject_if, ok_or,
}
use vm_cell_manager.Platform.{
  HostOs, Accelerator, ProviderId, hyperv, qemu, provider_id, provider_str, provider_rank,
  accelerator_str, transport_str, guest_os_name, architecture_name, host_os_eq, guest_os_eq,
  architecture_eq, provider_id_eq, accelerator_eq,
}
use vm_cell_manager.Capability.{ready, probe_status_eq, ProviderProbe}
use vm_cell_manager.Image.{ImageRecord, ImageVariant}
use vm_cell_manager.Support.Matrix.{
  SupportMatrixEntry, unsupported, support_status_eq, support_matrix,
}
use vm_cell_manager.Selection.Types.{
  HostPlatform, RequestedAccelerator, requested_eq, exact, RunSelectionIntent, RunSelectionSource,
  explicit_cli, config_preference, native_default, RunExecutionPlan, RunSelectionError, ambiguous,
  incompatible_image_variant, provider_unavailable, accelerator_unavailable, architecture_mismatch,
  unsupported_guest_transport, undocumented_combination, unsupported_combination,
  tcg_requires_explicit_opt_in, impossible_provider_accelerator, Rejections, no_rejections,
  run_plan_schema_version, run_plan_contract,
}
use vm_cell_manager.Selection.Probes.{validate_probe_snapshots}

unfoldable pub validate_tcg_intent : RunSelectionIntent → Result RunSelectionError (Unit {0})
validate_tcg_intent intent =
    let explicit_tcg = intent.explicit_accelerator == some RequestedAccelerator.tcg in
    reject_if (explicit_tcg != intent.allow_tcg) tcg_requires_explicit_opt_in

-- `a.or(b)`
abbrev pub or_else {ℓ} : {A : Type ℓ} → Option A → Option A → Option A
or_else none b = b
or_else (some a) b = some a

-- `option.map(|_| ProviderId::Qemu)`
abbrev pub accelerator_provider : Option RequestedAccelerator → Option ProviderId
accelerator_provider none = none
accelerator_provider (some _) = some qemu

unfoldable pub selected_provider : RunSelectionIntent → Option ProviderId
selected_provider intent =
    or_else intent.explicit_provider
      (or_else (accelerator_provider intent.explicit_accelerator) intent.config_provider_preference)

-- The guard on an explicit Hyper-V together with a QEMU accelerator.
unfoldable pub asks_impossible : RunSelectionIntent → Bool
asks_impossible intent =
    intent.explicit_provider == some hyperv
    && is_some (accelerator_provider intent.explicit_accelerator)

unfoldable pub selection_source : RunSelectionIntent → RunSelectionSource
selection_source intent =
    if is_some intent.explicit_provider || is_some intent.explicit_accelerator
    then explicit_cli
    else if is_some intent.config_provider_preference
    then config_preference
    else native_default

-- The loop that checks that each variant names a provider, and no provider twice.
unfoldable pub validate_variants : List ℕ → List ImageVariant → Result RunSelectionError (Unit {0})
validate_variants seen [] = ok tt
validate_variants seen (variant ∷ variants) =
    ok_or incompatible_image_variant (provider_id variant.provider) >>= λ provider.
    reject_if (contains seen (provider_rank provider)) ambiguous >>= λ _.
    validate_variants (provider_rank provider ∷ seen) variants

-- `selected.is_some_and(p)`
abbrev pub selected_and : Option ProviderId → (ProviderId → Bool) → Bool
selected_and none p = false
selected_and (some s) p = p s

-- The guard on an image with no variant, or none for the selected provider.
unfoldable pub lacks_variant : RunSelectionIntent → List ImageVariant → Bool
lacks_variant intent variants =
    is_empty variants
    || selected_and (selected_provider intent)
        (λ provider. not (any (λ variant. provider_id variant.provider == some provider) variants))

unfoldable pub native_qemu_accelerator : HostOs → Accelerator
native_qemu_accelerator HostOs.windows = Accelerator.whpx
native_qemu_accelerator HostOs.linux = Accelerator.kvm
native_qemu_accelerator HostOs.macos = Accelerator.hvf

unfoldable pub native_provider_rank : HostOs → ProviderId → ℕ
native_provider_rank HostOs.windows hyperv = 0
native_provider_rank HostOs.windows qemu = 1
native_provider_rank _ qemu = 0
native_provider_rank _ hyperv = 1

-- `explicit.and_then(exact).unwrap_or_else(|| native)`
abbrev pub requested_or : Accelerator → Option RequestedAccelerator → Accelerator
requested_or native none = native
requested_or native (some r) = elim (exact r) [ none ↦ native | some a ↦ a ]

unfoldable pub accelerator_for : HostPlatform → RunSelectionIntent → ProviderId → Accelerator
accelerator_for host intent hyperv = Accelerator.hyper_v
accelerator_for host intent qemu =
    requested_or (native_qemu_accelerator host.os) intent.explicit_accelerator

unfoldable pub rejection_error : Rejections → RunSelectionError
rejection_error r =
    if r.architecture_mismatch
    then architecture_mismatch
    else if r.provider_unavailable
    then provider_unavailable
    else if r.accelerator_unavailable
    then accelerator_unavailable
    else if r.transport_unsupported
    then unsupported_guest_transport
    else if r.unsupported
    then unsupported_combination
    else if r.undocumented
    then undocumented_combination
    else incompatible_image_variant

-- The loop's variables.
pub record Search : Type 0 where
  pub candidates : List (ℕ × RunExecutionPlan)
  pub rejected : Rejections

abbrev pub nothing_found : Search
nothing_found = record { candidates = []; rejected = no_rejections }

module _ (host : HostPlatform) (image : ImageRecord) (intent : RunSelectionIntent) where
  unfoldable pub plan_for : ProviderId → SupportMatrixEntry → RunExecutionPlan
  plan_for provider entry = record {
    schema_version = run_plan_schema_version;
    contract = run_plan_contract;
    image = image.id;
    host_os = host.os;
    host_architecture = host.architecture;
    guest_os = image.guest_os;
    guest_architecture = image.guest_arch;
    provider = provider;
    accelerator = accelerator_for host intent provider;
    guest_transport = entry.key.guest_transport;
    support_status = entry.status;
    selection_source = selection_source intent;
    authorizing = false;
  }

  -- The filter on the matrix.
  unfoldable pub row_matches : ProviderId → SupportMatrixEntry → Bool
  row_matches provider entry =
      entry.key.host_os == host.os
      && (entry.key.host_architecture == host.architecture
          && (entry.key.provider == provider
              && (entry.key.accelerator == accelerator_for host intent provider
                  && (entry.key.guest_os == image.guest_os
                      && entry.key.guest_architecture == image.guest_arch))))

  -- One row: `selectable` is the loop's `selectable_row`.
  unfoldable pub consider_row :
      ProviderId → ProviderProbe → SupportMatrixEntry → Bool × Search → Bool × Search
  consider_row provider probe entry (selectable, s) =
      if entry.status == unsupported
      then (selectable, record s { rejected = record s.rejected { unsupported = true } })
      else if not
            (contains probe.capabilities.guest_transports (transport_str entry.key.guest_transport))
          || not probe.capabilities.networkless_guest_exec
      then (true, record s { rejected = record s.rejected { transport_unsupported = true } })
      else (
        true,
        record s {
          candidates =
              s.candidates ++ (native_provider_rank host.os provider, plan_for provider entry) ∷ [];
        },
      )

  unfoldable pub consider_rows :
      ProviderId → ProviderProbe → List SupportMatrixEntry → Bool × Search → Bool × Search
  consider_rows provider probe [] acc = acc
  consider_rows provider probe (entry ∷ entries) acc =
      consider_rows provider probe entries (consider_row provider probe entry acc)

  unfoldable pub consider_matching :
      ProviderId → ProviderProbe → List SupportMatrixEntry → Search → Search
  consider_matching provider probe rows s =
      if is_empty rows
      then record s { rejected = record s.rejected { undocumented = true } }
      else let (selectable, s') = consider_rows provider probe rows (false, s) in
        if selectable && is_empty s'.candidates
        then record s' { rejected = record s'.rejected { transport_unsupported = true } }
        else s'

  unfoldable pub consider_probe :
      List SupportMatrixEntry → ProviderId → Option ProviderProbe → Search → Search
  consider_probe matrix provider none s = record s {
    rejected = record s.rejected { provider_unavailable = true };
  }
  consider_probe matrix provider (some probe) s =
      if probe.status != ready || not probe.available
      then record s { rejected = record s.rejected { provider_unavailable = true } }
      else if not (contains probe.capabilities.guest_os (guest_os_name image.guest_os))
      then s
      else if not (contains probe.capabilities.guest_arch (architecture_name image.guest_arch))
      then record s { rejected = record s.rejected { architecture_mismatch = true } }
      else if not (
          contains probe.capabilities.accelerators
            (accelerator_str (accelerator_for host intent provider)))
      then record s { rejected = record s.rejected { accelerator_unavailable = true } }
      else consider_matching provider probe (filter (row_matches provider) matrix) s

  unfoldable pub consider_provider :
      List SupportMatrixEntry → List ProviderProbe → ProviderId → Search → Search
  consider_provider matrix probes provider s =
      if selected_and (selected_provider intent) (λ selected. selected != provider)
      then s
      else if image.guest_arch != host.architecture
      then record s { rejected = record s.rejected { architecture_mismatch = true } }
      else consider_probe matrix provider
          (find (λ probe. probe.name == provider_str provider) probes) s

  unfoldable pub collect :
      List SupportMatrixEntry
      → List ProviderProbe
      → List ImageVariant
      → Search
      → Result RunSelectionError Search
  collect matrix probes [] s = ok s
  collect matrix probes (variant ∷ variants) s =
      ok_or incompatible_image_variant (provider_id variant.provider) >>= λ provider.
      collect matrix probes variants (consider_provider matrix probes provider s)

-- `sort_by_key`, a stable sort.
unfoldable pub insert_by_rank :
    ℕ × RunExecutionPlan → List (ℕ × RunExecutionPlan) → List (ℕ × RunExecutionPlan)
insert_by_rank c [] = c ∷ []
insert_by_rank c (d ∷ ds) = if leb c.0 d.0 then c ∷ d ∷ ds else d ∷ insert_by_rank c ds

unfoldable pub sort_by_rank : List (ℕ × RunExecutionPlan) → List (ℕ × RunExecutionPlan)
unfolding insert_by_rank
sort_by_rank [] = []
sort_by_rank (c ∷ cs) = insert_by_rank c (sort_by_rank cs)

-- The end of the function, after the sort.
unfoldable pub choose_sorted :
    Rejections → List (ℕ × RunExecutionPlan) → Result RunSelectionError RunExecutionPlan
choose_sorted rejected [] = err (rejection_error rejected)
choose_sorted rejected (c ∷ cs) =
    if length (filter (λ d. d.0 == c.0) (c ∷ cs)) != 1 then err ambiguous else ok c.1

unfoldable pub resolve_with_matrix :
    HostPlatform
    → ImageRecord
    → List ProviderProbe
    → RunSelectionIntent
    → List SupportMatrixEntry
    → Result RunSelectionError RunExecutionPlan
unfolding asks_impossible lacks_variant
resolve_with_matrix host image probes intent matrix = do
  validate_probe_snapshots probes
  validate_tcg_intent intent
  reject_if (asks_impossible intent) impossible_provider_accelerator
  validate_variants [] image.variants
  reject_if (lacks_variant intent image.variants) incompatible_image_variant
  s ← collect host image intent matrix probes image.variants nothing_found
  choose_sorted s.rejected (sort_by_rank s.candidates)

unfoldable pub resolve_run_execution_plan :
    HostPlatform
    → ImageRecord
    → List ProviderProbe
    → RunSelectionIntent
    → Result RunSelectionError RunExecutionPlan
unfolding resolve_with_matrix
resolve_run_execution_plan host image probes intent =
    resolve_with_matrix host image probes intent support_matrix
