-- ===== src/Selection/Kept.antt =====
-- Every step of the search keeps its candidates justified.
use vm_cell_manager.Prelude.{
  Bool, true, false, not, Option, none, some, List, [], ◌∷◌, ◌&&◌, ◌||◌, ◌==◌, ◌!=◌, string_eq,
  nat_eq, bool_eq, option_eq, contains, find, filter, is_empty, ok, ok_or, ◌≡◌, refl, ◌⊎◌, inl, inr,
  arith, All, Memᴰ, filter-mem, Bool-cases, eq_of_test, bind-eq-ok,
}
use vm_cell_manager.Platform.{
  ProviderId, provider_id, provider_str, accelerator_str, guest_os_name, architecture_name,
  architecture_eq, provider_id_eq,
}
use vm_cell_manager.Capability.{ready, probe_status_eq, ProviderProbe}
use vm_cell_manager.Image.{ImageRecord, ImageVariant}
use vm_cell_manager.Support.Matrix.{SupportMatrixEntry}
use vm_cell_manager.Selection.Types.{HostPlatform, RunSelectionIntent, incompatible_image_variant}
use vm_cell_manager.Selection.Resolve.{
  Search, selected_provider, selected_and, accelerator_for, row_matches, consider_row,
  consider_rows, consider_matching, consider_probe, consider_provider, collect,
}
use vm_cell_manager.Selection.Justified.{IsCapable, Held, consider_row-Held}

module _ (host : HostPlatform) (image : ImageRecord) (intent : RunSelectionIntent)
    (matrix : List SupportMatrixEntry) (probes : List ProviderProbe) where
  abbrev pub H : Search → Type 0
  H = Held host image intent matrix probes

  module _ (variant : ImageVariant) (provider : ProviderId) (bundled : Memᴰ variant image.variants)
      (named : provider_id variant.provider ≡ some provider) where
    consider_rows-Held :
        (probe : ProviderProbe) (rows : List SupportMatrixEntry) (acc : Bool × Search)
        → IsCapable host image intent matrix probes provider probe
        → All (λ e. Memᴰ e matrix × (row_matches host image intent provider e ≡ true)) rows
        → H acc.1
        → H (consider_rows host image intent provider probe rows acc).1
    unfolding consider_rows
    consider_rows-Held probe [] acc capable ms h = h
    consider_rows-Held probe (e ∷ rows) acc capable ms h =
        consider_rows-Held probe rows (consider_row host image intent provider probe e acc) capable
          ms.1
          (consider_row-Held host image intent matrix probes variant provider bundled named probe
            capable e acc.0 acc.1 ms.0.0 ms.0.1 h)

    rows_match :
        (l : List SupportMatrixEntry)
        → ((e : SupportMatrixEntry)
            → Memᴰ e l
            → Memᴰ e matrix × (row_matches host image intent provider e ≡ true))
        → All (λ e. Memᴰ e matrix × (row_matches host image intent provider e ≡ true)) l
    rows_match [] f = tt
    rows_match (e ∷ l) f = (f e (Memᴰ.head refl), rows_match l (λ x m. f x (Memᴰ.tail m)))

    consider_matching-Held :
        (probe : ProviderProbe) (s : Search)
        → IsCapable host image intent matrix probes provider probe
        → H s
        → H (
            consider_matching host image intent provider probe
              (filter (row_matches host image intent provider) matrix)
              s)
    unfolding consider_matching
    consider_matching-Held probe s capable h =
        let rows = filter (row_matches host image intent provider) matrix in
        let held =
          consider_rows-Held probe rows (false, s) capable
            (rows_match rows (λ e m. filter-mem (row_matches host image intent provider) matrix m))
            h in
        let (selectable, s') = consider_rows host image intent provider probe rows (false, s) in
        elim (Bool-cases (is_empty rows)) [
          | inl e ↦ rw e h
          | inr e ↦ elim (Bool-cases (selectable && is_empty s'.candidates)) [
            | inl c ↦ rw (e, c) held
            | inr c ↦ rw (e, c) held
          ]
        ]

    consider_probe-Held :
        (found : Option ProviderProbe) (s : Search)
        → find (λ p. p.name == provider_str provider) probes ≡ found
        → image.guest_arch ≡ host.architecture
        → (selected_provider intent ≡ none) ⊎ (selected_provider intent ≡ some provider)
        → H s
        → H (consider_probe host image intent matrix provider found s)
    unfolding consider_probe
    consider_probe-Held none s f n c h = h
    consider_probe-Held (some probe) s f n c h =
        elim (Bool-cases (probe.status != ready || not probe.available)) [
          | inl a ↦ rw a h
          | inr a ↦
              elim (Bool-cases
                (contains probe.capabilities.guest_os (guest_os_name image.guest_os))) [
                  | inr b ↦ rw (a, b) h
                  | inl b ↦
                      elim (Bool-cases (
                        contains probe.capabilities.guest_arch
                          (architecture_name image.guest_arch))) [
                            | inr d ↦ rw (a, b, d) h
                            | inl d ↦
                                elim (Bool-cases (
                                  contains probe.capabilities.accelerators
                                    (accelerator_str (accelerator_for host intent provider)))) [
                                      | inr e ↦ rw (a, b, d, e) h
                                      | inl e ↦
                                          rw (a, b, d, e)
                                            (consider_matching-Held probe s
                                              (record {
                                                found = f;
                                                native = n;
                                                chosen = c;
                                                is_ready = ground arith;
                                                available = ground arith;
                                                guest_os = b;
                                                guest_arch = d;
                                                accelerator = e;
                                              })
                                              h)
                                    ]
                          ]
                ]
        ]

    consider_provider-Held :
        (s : Search) → H s → H (consider_provider host image intent matrix probes provider s)
    unfolding consider_provider
    consider_provider-Held s h =
        elim (Bool-cases
          (selected_and (selected_provider intent) (λ selected. selected != provider))) [
            | inl a ↦ rw a h
            | inr a ↦ elim (Bool-cases (image.guest_arch == host.architecture)) [
              | inr b ↦ rw (a, b) h
              | inl b ↦
                  rw (a, b)
                    (consider_probe-Held _ s refl (eq_of_test image.guest_arch host.architecture b)
                      (ground arith) h)
            ]
          ]

  pub collect-Held :
      (variants : List ImageVariant) (s : Search) {t : Search}
      → ((v : ImageVariant) → Memᴰ v variants → Memᴰ v image.variants)
      → H s
      → collect host image intent matrix probes variants s ≡ ok t
      → H t
  unfolding collect
  collect-Held [] s {t} sub h e = let same : s ≡ t = cc in rw (← same) h
  collect-Held (v ∷ variants) s sub h e =
      let (provider, named, rest) =
        bind-eq-ok (ok_or incompatible_image_variant (provider_id v.provider)) _ e in
      collect-Held variants (consider_provider host image intent matrix probes provider s)
        (λ x m. sub x (Memᴰ.tail m))
        (consider_provider-Held v provider (sub v (Memᴰ.head refl)) (ground arith) s h) rest
