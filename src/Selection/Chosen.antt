-- ===== src/Selection/Chosen.antt =====
-- The plan that the resolver returns.
use vm_cell_manager.Prelude.{
  ℕ, true, false, none, some, List, [], ◌∷◌, string_eq, nat_eq, bool_eq, option_eq, ok, ◌≡◌, sym,
  ap, ◌∙◌, ◌⊎◌, arith, All, Memᴰ, bind-eq-ok, reject-eq-ok,
}
use vm_cell_manager.Platform.{
  Accelerator, ProviderId, hyperv, qemu, architecture_eq, provider_id_eq, tcg,
}
use vm_cell_manager.Capability.{probe_status_eq, ProviderProbe}
use vm_cell_manager.Image.{ImageRecord}
use vm_cell_manager.Support.Matrix.{SupportMatrixEntry}
use vm_cell_manager.Selection.Types.{
  HostPlatform, RunSelectionIntent, RequestedAccelerator, RunExecutionPlan, exact,
}
use vm_cell_manager.Selection.Probes.{validate_probe_snapshots}
use vm_cell_manager.Selection.Resolve.{
  selected_provider, accelerator_for, native_qemu_accelerator, plan_for, validate_tcg_intent,
  validate_variants, collect, resolve_with_matrix, Search, asks_impossible, lacks_variant,
  nothing_found,
}
use vm_cell_manager.Selection.Justified.{IsJustified}
use vm_cell_manager.Selection.Ranked.{Candidate, IsBest, choose_sorted-IsBest, IsBest-mem}
use vm_cell_manager.Selection.Kept.{collect-Held}

All-mem :
    (P : Candidate → Type 0) (c : Candidate) (cs : List Candidate) → All P cs → Memᴰ c cs → P c
All-mem P c [] h m = elim m [ ]
All-mem P c (d ∷ cs) h (Memᴰ.head e) = rw e h.0
All-mem P c (d ∷ cs) h (Memᴰ.tail m) = All-mem P c cs h.1 m

module _ (host : HostPlatform) (image : ImageRecord) (probes : List ProviderProbe)
    (intent : RunSelectionIntent) (matrix : List SupportMatrixEntry) where
  -- What the resolver has checked of a plan that it returns: the probes are consistent, TCG was
  -- asked for exactly when it is allowed, no accelerator is asked of Hyper-V, the image names each
  -- provider once, the plan is a justified candidate, and of the candidates that the search has
  -- collected, none has a better rank and no other has the plan's.
  pub record IsChecked (plan : RunExecutionPlan) : Type 0 where
    pub snapshots : validate_probe_snapshots probes ≡ ok tt
    pub opted_in : validate_tcg_intent intent ≡ ok tt
    pub possible : intent.explicit_provider ≡ some hyperv → intent.explicit_accelerator ≡ none
    pub distinct : validate_variants [] image.variants ≡ ok tt
    pub rank : ℕ
    pub found : Search
    pub searched : collect host image intent matrix probes image.variants nothing_found ≡ ok found
    pub best : IsBest (rank, plan) found.candidates
    pub justified : IsJustified host image intent matrix probes (rank, plan)

  possible_of_guard :
      asks_impossible intent ≡ false
      → intent.explicit_provider ≡ some hyperv
      → intent.explicit_accelerator ≡ none
  unfolding asks_impossible
  possible_of_guard h e = ground arith

  -- Over any support matrix, every plan that the resolver returns has passed every guard: it
  -- stands for a variant of the image, a ready probe that reports what the plan needs, and a row
  -- of the matrix under the plan's own key that is not declared unsupported. Of the candidates
  -- that the search collects none has a lower rank, and no other has the plan's.
  pub resolve-IsChecked :
      (plan : RunExecutionPlan)
      → resolve_with_matrix host image probes intent matrix ≡ ok plan
      → IsChecked plan
  unfolding resolve_with_matrix
  resolve-IsChecked plan e =
      let (u1, p1, e1) = bind-eq-ok (validate_probe_snapshots probes) _ e in
      let (u2, p2, e2) = bind-eq-ok (validate_tcg_intent intent) _ e1 in
      let (p3, e3) = reject-eq-ok (asks_impossible intent) _ _ e2 in
      let (u4, p4, e4) = bind-eq-ok (validate_variants [] image.variants) _ e3 in
      let (p5, e5) = reject-eq-ok (lacks_variant intent image.variants) _ _ e4 in
      let (s, p6, e6) =
        bind-eq-ok (collect host image intent matrix probes image.variants nothing_found) _ e5 in
      let held =
        collect-Held host image intent matrix probes image.variants nothing_found (λ v m. m) tt
          p6 in
      let (rank, best) = choose_sorted-IsBest s.rejected s.candidates e6 in
      record {
        snapshots = p1;
        opted_in = p2;
        possible = possible_of_guard p3;
        distinct = p4;
        rank = rank;
        found = s;
        searched = p6;
        best = best;
        justified =
            All-mem (IsJustified host image intent matrix probes) (rank, plan) s.candidates held
              (IsBest-mem (rank, plan) s.candidates best);
      }

  tcg_of_accelerator_for :
      (provider : ProviderId)
      → accelerator_for host intent provider ≡ tcg
      → validate_tcg_intent intent ≡ ok tt
      → (intent.explicit_accelerator ≡ some RequestedAccelerator.tcg) × (intent.allow_tcg ≡ true)
  unfolding validate_tcg_intent accelerator_for native_qemu_accelerator exact
  tcg_of_accelerator_for hyperv e v = cc
  tcg_of_accelerator_for qemu e v = ground arith

  chosen_explicit :
      (provider p : ProviderId)
      → (selected_provider intent ≡ none) ⊎ (selected_provider intent ≡ some provider)
      → intent.explicit_provider ≡ some p
      → provider ≡ p
  unfolding selected_provider
  chosen_explicit provider p c e = ground arith

  chosen_accelerated :
      (provider : ProviderId) (r : RequestedAccelerator) (a : Accelerator)
      → (selected_provider intent ≡ none) ⊎ (selected_provider intent ≡ some provider)
      → (intent.explicit_provider ≡ some hyperv → intent.explicit_accelerator ≡ none)
      → intent.explicit_accelerator ≡ some r
      → exact r ≡ some a
      → (provider ≡ qemu) × (accelerator_for host intent provider ≡ a)
  unfolding selected_provider accelerator_for
  chosen_accelerated hyperv r a c possible e x = ground arith
  chosen_accelerated qemu r a c possible e x = ground arith

  module _ (plan : RunExecutionPlan)
      (resolved : resolve_with_matrix host image probes intent matrix ≡ ok plan) where
    -- No emulation without consent: where the resolver returns a plan whose accelerator is TCG,
    -- the intent asks for TCG explicitly and has `allow_tcg`.
    pub resolve_tcg :
        plan.accelerator ≡ tcg
        → (intent.explicit_accelerator ≡ some RequestedAccelerator.tcg) × (intent.allow_tcg ≡ true)
    unfolding plan_for
    resolve_tcg e =
        let c = resolve-IsChecked plan resolved in
        tcg_of_accelerator_for c.justified.provider
          (sym (ap (λ p. p.accelerator) c.justified.plan) ∙ e) c.opted_in

    -- Where the resolver returns a plan and a provider was asked for explicitly, the plan has
    -- that provider, whatever the configuration prefers.
    pub resolve_explicit_provider :
        (p : ProviderId) → intent.explicit_provider ≡ some p → plan.provider ≡ p
    unfolding plan_for
    resolve_explicit_provider p e =
        let j = (resolve-IsChecked plan resolved).justified in
        ap (λ x. x.provider) j.plan ∙ chosen_explicit j.provider p j.capable.chosen e

    -- Where the resolver returns a plan and an exact accelerator was asked for, the plan has that
    -- accelerator, on QEMU.
    pub resolve_explicit_accelerator :
        (r : RequestedAccelerator) (a : Accelerator)
        → intent.explicit_accelerator ≡ some r
        → exact r ≡ some a
        → (plan.provider ≡ qemu) × (plan.accelerator ≡ a)
    unfolding plan_for
    resolve_explicit_accelerator r a e x =
        let c = resolve-IsChecked plan resolved in
        let j = c.justified in
        let (on_qemu, exactly) =
          chosen_accelerated j.provider r a j.capable.chosen c.possible e x in
        (ap (λ p. p.provider) j.plan ∙ on_qemu, ap (λ p. p.accelerator) j.plan ∙ exactly)
