-- ===== src/Selection/Agreement.antt =====
-- A plan that was just resolved passes its own revalidation.
use vm_cell_manager.Prelude.{
  ℕ, suc, Bool, true, false, some, List, [], ◌∷◌, ◌||◌, ◌==◌, string_eq, nat_eq, bool_eq, option_eq,
  contains, find, filter, length, ok, ok_or, ◌≡◌, refl, ap, inl, inr, arith, Memᴰ, find-mem,
  Bool-cases, eq_of_test, bind-eq-ok, reject-eq-ok, eq_self,
}
use vm_cell_manager.Platform.{
  ProviderId, provider_id, provider_str, provider_rank, provider_id_eq, host_os_eq, guest_os_eq,
  architecture_eq,
}
use vm_cell_manager.Capability.{probe_status_eq, ProviderProbe}
use vm_cell_manager.Image.{ImageRecord, ImageVariant}
use vm_cell_manager.Support.Matrix.{
  SupportMatrixEntry, support_matrix, support_for, support_status_eq,
}
use vm_cell_manager.Support.Lookup.{lookup_in_iff, support_matrix-IsOrdered}
use vm_cell_manager.Selection.Types.{
  HostPlatform, RunSelectionIntent, RunExecutionPlan, incompatible_image_variant, ambiguous,
}
use vm_cell_manager.Selection.Probes.{
  validate_probe, validate_probes_from, validate_probe_snapshots,
}
use vm_cell_manager.Selection.Resolve.{plan_for, validate_variants, resolve_run_execution_plan}
use vm_cell_manager.Selection.Revalidate.{
  plan_key, drifted, revalidate_support, revalidate_run_execution_plan,
}
use vm_cell_manager.Selection.Justified.{IsCapable, IsRow}
use vm_cell_manager.Selection.Chosen.{resolve-IsChecked}

-- A probe that passed among others passes alone.
validate_probe_alone :
    (seen : List ℕ) (probe : ProviderProbe) {rank : ℕ}
    → validate_probe seen probe ≡ ok rank
    → validate_probe [] probe ≡ ok rank
unfolding validate_probe
validate_probe_alone seen probe h = ground arith

validate_probes_alone :
    (seen : List ℕ) (probes : List ProviderProbe) {probe : ProviderProbe}
    → validate_probes_from seen probes ≡ ok tt
    → Memᴰ probe probes
    → validate_probes_from [] (probe ∷ []) ≡ ok tt
unfolding validate_probes_from
validate_probes_alone seen [] h m = elim m [ ]
validate_probes_alone seen (p ∷ probes) h (Memᴰ.head e) =
    let (rank, here, later) = bind-eq-ok (validate_probe seen p) _ h in
    rw e (rw (validate_probe_alone seen p here))
validate_probes_alone seen (p ∷ probes) h (Memᴰ.tail m) =
    let (rank, here, later) = bind-eq-ok (validate_probe seen p) _ h in
    validate_probes_alone (rank ∷ seen) probes later m

abbrev of_provider : ProviderId → ImageVariant → Bool
of_provider p variant = provider_id variant.provider == some p

variants_step :
    (seen : List ℕ) (v : ImageVariant) (variants : List ImageVariant)
    → validate_variants seen (v ∷ variants) ≡ ok tt
    → (q : ProviderId) × (provider_id v.provider ≡ some q)
      × (contains seen (provider_rank q) ≡ false)
      × (validate_variants (provider_rank q ∷ seen) variants ≡ ok tt)
unfolding validate_variants
variants_step seen v variants h =
    let (q, named, rest) =
      bind-eq-ok (ok_or incompatible_image_variant (provider_id v.provider)) _ h in
    let (fresh, later) = reject-eq-ok (contains seen (provider_rank q)) ambiguous _ rest in
    (q, ground arith, fresh, later)

-- A provider that was seen names no later variant.
no_more :
    (p : ProviderId) (seen : List ℕ) (variants : List ImageVariant)
    → contains seen (provider_rank p) ≡ true
    → validate_variants seen variants ≡ ok tt
    → length (filter (of_provider p) variants) ≡ 0
no_more p seen [] s h = refl
no_more p seen (v ∷ variants) s h =
    let (q, named, fresh, later) = variants_step seen v variants h in
    let other : of_provider p v ≡ false = ground arith in
    rw other (no_more p (provider_rank q ∷ seen) variants (ground arith) later)

exactly_one :
    (p : ProviderId) (seen : List ℕ) (variants : List ImageVariant) {v : ImageVariant}
    → Memᴰ v variants
    → provider_id v.provider ≡ some p
    → validate_variants seen variants ≡ ok tt
    → length (filter (of_provider p) variants) ≡ 1
exactly_one p seen [] m named h = elim m [ ]
exactly_one p seen (v ∷ variants) (Memᴰ.head e) named h =
    let (q, named', fresh, later) = variants_step seen v variants h in
    let same : provider_id v.provider ≡ some p = rw (← e) named in
    let here : of_provider p v ≡ true = ground arith in
    let eq : q ≡ p = ground arith in
    rw here (
      ap suc (
        no_more p (provider_rank q ∷ seen) variants
          (rw eq (ap (λ b. b || contains seen (provider_rank p)) (eq_self (provider_rank p))))
          later))
exactly_one p seen (v ∷ variants) (Memᴰ.tail m) named h =
    let (q, named', fresh, later) = variants_step seen v variants h in
    let rest = exactly_one p (provider_rank q ∷ seen) variants m named later in
    elim (Bool-cases (of_provider p v)) [
      | inr other ↦ rw other rest
      | inl same ↦
          let eq : q ≡ p = ground arith in
          let none_left =
            no_more p (provider_rank q ∷ seen) variants
              (rw eq (ap (λ b. b || contains seen (provider_rank p)) (eq_self (provider_rank p))))
              later in
          absurd (omega (arith, rest, none_left))
    ]

module _ (host : HostPlatform) (image : ImageRecord) (probes : List ProviderProbe)
    (intent : RunSelectionIntent) where
  module _ (provider : ProviderId) (probe : ProviderProbe) (entry : SupportMatrixEntry)
      (capable : IsCapable host image intent support_matrix probes provider probe)
      (row : IsRow host image intent support_matrix probes provider probe entry) where
    abbrev planned : RunExecutionPlan
    planned = plan_for host image intent provider entry

    not_drifted :
        probe.name ≡ provider_str provider
        → length (filter (of_provider provider) image.variants) ≡ 1
        → drifted planned host image probe ≡ false
    unfolding drifted plan_for
    not_drifted name single = simp (name, single, eq_self)

    supported : revalidate_support planned ≡ ok tt
    unfolding revalidate_support support_for plan_for
    supported =
        let listed =
          (lookup_in_iff support_matrix (plan_key planned) entry support_matrix-IsOrdered).1
            (row.listed, row.keyed) in
        let allowed = row.allowed in ground arith

    revalidated :
        probe.name ≡ provider_str provider
        → length (filter (of_provider provider) image.variants) ≡ 1
        → validate_probe_snapshots (probe ∷ []) ≡ ok tt
        → revalidate_run_execution_plan planned host image probe ≡ ok tt
    unfolding revalidate_run_execution_plan plan_for
    revalidated name single valid =
        let d = not_drifted name single in
        let s = supported in
        let a = capable.accelerator in
        let g = capable.guest_arch in
        let o = capable.guest_os in
        let r = capable.is_ready in
        let v = capable.available in
        let t = row.transport in let n = row.networkless in ground arith

  -- A plan that `resolve_run_execution_plan` returns passes `revalidate_run_execution_plan`
  -- against the same host and image and the first probe among those it was resolved with that has
  -- the plan's provider's name.
  pub revalidate-resolve :
      (plan : RunExecutionPlan) (probe : ProviderProbe)
      → resolve_run_execution_plan host image probes intent ≡ ok plan
      → find (λ p. p.name == provider_str plan.provider) probes ≡ some probe
      → revalidate_run_execution_plan plan host image probe ≡ ok tt
  unfolding resolve_run_execution_plan validate_probe_snapshots plan_for
  revalidate-resolve plan probe resolved found =
      let c = resolve-IsChecked host image probes intent support_matrix plan resolved in
      let j = c.justified in
      let provider : plan.provider ≡ j.provider = ap (λ p. p.provider) j.plan in
      let same : probe ≡ j.probe = ground (arith, j.capable.found) in
      let (listed, named) =
        find-mem (λ p. p.name == provider_str j.provider) probes j.capable.found in
      rw (j.plan, same)
        (revalidated j.provider j.probe j.entry j.capable j.row
          (eq_of_test j.probe.name (provider_str j.provider) named)
          (exactly_one j.provider [] image.variants j.bundled j.named c.distinct)
          (validate_probes_alone [] probes c.snapshots listed))
