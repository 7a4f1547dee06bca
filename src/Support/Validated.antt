-- ===== src/Support/Validated.antt =====
-- What `validate_support_matrix` accepts.
use vm_cell_manager.Prelude.{
  ℕ, true, false, Option, none, some, List, [], ◌∷◌, ◌≡◌, ◌≢◌, ◌↔◌, refl, ◌⊎◌, inl, arith, ◌==◌,
  nat_eq, list_eq, string_eq, All, ok, any, bind-eq-ok,
}
use vm_cell_manager.Support.Matrix.{
  SupportMatrixEntry, AcceptanceEvidence, PathTests, support_key_rank, rank_ltb, not_after,
  real_platform, unsupported, validate_evidence_reference, validate_evidence, validate_entry,
  validate_entries, validate_support_matrix, combination_is_possible,
  requires_real_platform_evidence, scope_eq, support_status_eq,
}
use vm_cell_manager.Support.Order.{rank_ltb_trans, Within, fresh_after, Within-next}

module _ (paths : PathTests) where
  -- A usable evidence reference: a relative path of plain components, and for real-platform
  -- evidence a Markdown receipt under docs/receipts.
  pub record IsReference (e : AcceptanceEvidence) : Type 0 where
    pub nonempty : e.reference ≢ ""
    pub relative : paths.is_absolute e.reference ≡ false
    pub normal : paths.only_normal_components e.reference ≡ true
    pub receipt :
        e.scope ≡ real_platform
        → (paths.starts_with e.reference "docs/receipts/" ≡ true)
          × (paths.ends_with e.reference ".md" ≡ true)

  pub record IsSound (entry : SupportMatrixEntry) : Type 0 where
    pub possible : (combination_is_possible entry.key ≡ true) ⊎ (entry.status ≡ unsupported)
    pub references : All IsReference entry.acceptance_evidence
    pub promoted :
        requires_real_platform_evidence entry.status ≡ true
        → any (λ e. e.scope == real_platform) entry.acceptance_evidence ≡ true

  IsReference-iff :
      (e : AcceptanceEvidence) → (validate_evidence_reference paths e ≡ ok tt) ↔ IsReference e
  unfolding validate_evidence_reference
  IsReference-iff e = (
    λ h. record {
      nonempty = ground arith;
      relative = ground arith;
      normal = ground arith;
      receipt = ground arith;
    },
    λ r. ground arith,
  )

  evidence_iff :
      (es : List AcceptanceEvidence) → (validate_evidence paths es ≡ ok tt) ↔ All IsReference es
  unfolding validate_evidence
  evidence_iff [] = (λ h. tt, λ h. refl)
  evidence_iff (e ∷ es) = (
    λ h.
        let (u, here, later) = bind-eq-ok (validate_evidence_reference paths e) _ h in
        ((IsReference-iff e).0 here, (evidence_iff es).0 later),
    λ h. rw ((IsReference-iff e).1 h.0) ((evidence_iff es).1 h.1),
  )

  -- One round accepts exactly the sound entries whose rank comes after the previous one.
  entry_iff :
      (keys : List (List ℕ)) (previous : Option (List ℕ)) (entry : SupportMatrixEntry)
      → All (Within previous) keys
      → (validate_entry paths keys previous entry ≡ ok tt)
        ↔ ((not_after previous (support_key_rank entry.key) ≡ false) × IsSound entry)
  unfolding validate_entry
  entry_iff keys previous entry seen =
      let fresh = fresh_after keys previous (support_key_rank entry.key) seen in
      let evidence = evidence_iff entry.acceptance_evidence in
      (
        λ h. (
          ground arith,
          record {
            possible = ground arith;
            references = evidence.0 (ground arith);
            promoted = ground arith;
          },
        ),
        λ s. let e = evidence.1 s.1.references in let f = fresh s.0 in ground arith,
      )

-- Strictly increasing ranks, every entry before every later one.
abbrev pub IsOrdered : List SupportMatrixEntry → Type 0
IsOrdered [] = Unit
IsOrdered (entry ∷ entries) =
    All (λ later. rank_ltb (support_key_rank entry.key) (support_key_rank later.key) ≡ true) entries
    × IsOrdered entries

abbrev pub Follows : Option (List ℕ) → List SupportMatrixEntry → Type 0
Follows previous entries = All (λ e. not_after previous (support_key_rank e.key) ≡ false) entries

Follows-of_first :
    (previous : Option (List ℕ)) (first : SupportMatrixEntry) (entries : List SupportMatrixEntry)
    → not_after previous (support_key_rank first.key) ≡ false
    → All
        (λ later. rank_ltb (support_key_rank first.key) (support_key_rank later.key) ≡ true)
        entries
    → Follows previous entries
Follows-of_first previous first [] h a = tt
Follows-of_first none first (e ∷ entries) h a = (refl, Follows-of_first none first entries h a.1)
Follows-of_first (some p) first (e ∷ entries) h a = (
  ground (arith, rank_ltb_trans p (support_key_rank first.key) (support_key_rank e.key)),
  Follows-of_first (some p) first entries h a.1,
)

All-of_Follows :
    (r : List ℕ) (entries : List SupportMatrixEntry)
    → Follows (some r) entries
    → All (λ later. rank_ltb r (support_key_rank later.key) ≡ true) entries
All-of_Follows r [] h = tt
All-of_Follows r (e ∷ entries) h = (ground arith, All-of_Follows r entries h.1)

Follows-of_All :
    (r : List ℕ) (entries : List SupportMatrixEntry)
    → All (λ later. rank_ltb r (support_key_rank later.key) ≡ true) entries
    → Follows (some r) entries
Follows-of_All r [] h = tt
Follows-of_All r (e ∷ entries) h = (ground arith, Follows-of_All r entries h.1)

module _ (paths : PathTests) where
  entries_iff :
      (keys : List (List ℕ)) (previous : Option (List ℕ)) (entries : List SupportMatrixEntry)
      → All (Within previous) keys
      → (validate_entries paths keys previous entries ≡ ok tt)
        ↔ (Follows previous entries × IsOrdered entries × All (IsSound paths) entries)
  unfolding validate_entries
  entries_iff keys previous [] seen = (λ h. (tt, tt, tt), λ h. refl)
  entries_iff keys previous (entry ∷ entries) seen =
      let rank = support_key_rank entry.key in
      let step = entry_iff paths keys previous entry seen in
      let rest = λ (after : not_after previous rank ≡ false).
        entries_iff (rank ∷ keys) (some rank) entries
          (inl refl, Within-next previous rank keys seen after) in
      (
        λ h.
            let (u, here, later) = bind-eq-ok (validate_entry paths keys previous entry) _ h in
            let (after, sound) = step.0 here in
            let (follows, ordered, all_sound) = (rest after).0 later in
            let above = All-of_Follows rank entries follows in
            (
              (after, Follows-of_first previous entry entries after above),
              (above, ordered),
              (sound, all_sound),
            ),
        λ (follows, ordered, sound).
            rw (step.1 (follows.0, sound.0))
              ((rest follows.0).1 (Follows-of_All rank entries ordered.0, ordered.1, sound.1)),
      )

Follows-none : (entries : List SupportMatrixEntry) → Follows none entries
Follows-none [] = tt
Follows-none (e ∷ entries) = (refl, Follows-none entries)

-- The validator accepts a matrix exactly when it has a row, its rows stand in strictly increasing
-- order of rank, and each row is sound: it is possible or declared unsupported, its evidence
-- references are usable, and a promoted status has real-platform evidence.
pub validate_support_matrix_iff :
    (paths : PathTests) (entries : List SupportMatrixEntry)
    → (validate_support_matrix paths entries ≡ ok tt)
      ↔ ((entries ≢ []) × IsOrdered entries × All (IsSound paths) entries)
unfolding validate_support_matrix
validate_support_matrix_iff paths [] = (λ h. cc, λ h. absurd (h.0 refl))
validate_support_matrix_iff paths (e ∷ es) =
    let all = entries_iff paths [] none (e ∷ es) tt in
    (
      λ h. let (follows, ordered, sound) = all.0 h in (λ p. cc, ordered, sound),
      λ (some_row, ordered, sound). all.1 (Follows-none (e ∷ es), ordered, sound),
    )
