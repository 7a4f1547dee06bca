-- ===== src/Guest/Artifacts.antt =====
-- The bounds that `validate_artifact_schema` of src/state/mod.rs puts on an artifact's files.
use vm_cell_manager.Prelude.{
  ℕ, true, false, not, ◌≡◌, ◌≢◌, ◌≤◌, ◌+◌, some, List, [], ◌∷◌, ltb, length, any, All, is_empty,
  ◌||◌, ok, reject-eq-ok, reject_if-eq-ok, or_false, of_not, Option-cases, inl, inr, arith,
}
use vm_cell_manager.Guest.{
  ArtifactRecord, ArtifactEntry, max_artifact_files, max_artifact_file_bytes,
  max_artifact_total_bytes,
}
use vm_cell_manager.Guest.Schema.{
  checked_total, total_is_valid, artifact_version_is_known, artifact_correlation_is_valid,
  validate_artifact_schema,
}

-- The sum of the files' sizes, without a width.
pub total_bytes : List ArtifactEntry → ℕ
total_bytes [] = 0
total_bytes (entry ∷ entries) = entry.size + total_bytes entries

pub record IsBounded (r : ArtifactRecord) : Type 0 where
  pub nonempty : r.entries ≢ []
  pub files : length r.entries ≤ max_artifact_files
  pub file_bytes : All (λ entry. entry.size ≤ max_artifact_file_bytes) r.entries
  pub bytes : total_bytes r.entries ≤ max_artifact_total_bytes

checked_total-total :
    (start : ℕ) (entries : List ArtifactEntry) (total : ℕ)
    → checked_total start entries ≡ some total
    → total ≡ start + total_bytes entries
unfolding checked_total total_bytes
checked_total-total start [] total h = grind arith
checked_total-total start (entry ∷ entries) total h =
    let rest : checked_total (start + entry.size) entries ≡ some total = ground arith in
    let ih = checked_total-total (start + entry.size) entries total rest in omega arith

total_bounded :
    (entries : List ArtifactEntry)
    → total_is_valid (checked_total 0 entries) ≡ true
    → total_bytes entries ≤ max_artifact_total_bytes
total_bounded entries h = elim (Option-cases (checked_total 0 entries)) [
  | inl e ↦ let b = rw e at h in cc
  | inr (t, e) ↦ let b = rw e at h in let same = checked_total-total 0 entries t e in grind arith
]

sizes_bounded :
    (entries : List ArtifactEntry)
    → any (λ entry. ltb max_artifact_file_bytes entry.size) entries ≡ false
    → All (λ entry. entry.size ≤ max_artifact_file_bytes) entries
sizes_bounded [] h = tt
sizes_bounded (entry ∷ entries) h =
    let (p, q) =
      or_false (ltb max_artifact_file_bytes entry.size)
        (any (λ e. ltb max_artifact_file_bytes e.size) entries) h in
    (grind arith, sizes_bounded entries q)

nonempty_list : (entries : List ArtifactEntry) → is_empty entries ≡ false → entries ≢ []
nonempty_list [] h e = cc
nonempty_list (x ∷ xs) h e = cc

not_longer : (n m : ℕ) → ltb n m ≡ false → m ≤ n
not_longer n m h = grind arith

-- An artifact manifest that the schema check accepts has at least one file and at most the bound
-- on files, each file within the bound on a file, and a true sum of sizes within the bound on the
-- total.
pub validate_artifact_schema-IsBounded :
    (r : ArtifactRecord) → validate_artifact_schema r ≡ ok tt → IsBounded r
unfolding validate_artifact_schema
validate_artifact_schema-IsBounded r h =
    let (_, h1) = reject-eq-ok (not (artifact_version_is_known r.schema_version)) _ _ h in
    let (_, h2) =
      reject-eq-ok (not (artifact_correlation_is_valid r.schema_version r.job_id)) _ _ h1 in
    let (c, h3) =
      reject-eq-ok (is_empty r.entries || ltb max_artifact_files (length r.entries)) _ _ h2 in
    let (s, h4) =
      reject-eq-ok (any (λ entry. ltb max_artifact_file_bytes entry.size) r.entries) _ _ h3 in
    let t = reject_if-eq-ok (not (total_is_valid (checked_total 0 r.entries))) _ h4 in
    let (c0, c1) = or_false (is_empty r.entries) (ltb max_artifact_files (length r.entries)) c in
    record {
      nonempty = nonempty_list r.entries c0;
      files = not_longer max_artifact_files (length r.entries) c1;
      file_bytes = sizes_bounded r.entries s;
      bytes = total_bounded r.entries (of_not _ t);
    }
