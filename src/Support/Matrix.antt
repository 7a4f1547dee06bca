-- ===== src/Support/Matrix.antt =====
-- The matrix of src/core/support.rs, its validator `validate_support_matrix` and `support_for`.
use vm_cell_manager.Prelude.{
  ℕ, String, Bool, true, false, not, Option, none, some, List, [], ◌∷◌, ◌&&◌, ◌||◌, Eq, ◌==◌, ◌!=◌,
  string_eq, list_eq, nat_eq, any, is_empty, contains, find, Result, ok, ◌>>=◌, ◌>>◌, reject_if,
  ok_or, ltb,
}
use vm_cell_manager.Platform.{
  HostOs, GuestOs, Architecture, ProviderId, Accelerator, GuestTransportId, x86_64, hyperv, qemu,
  hyper_v, whpx, kvm, hvf, tcg, powershell_direct, qga, ssh, host_os_eq, guest_os_eq,
  architecture_eq, accelerator_eq, provider_id_eq, transport_eq, is_hardware, host_os_rank,
  architecture_rank, provider_rank, accelerator_rank, guest_os_rank, guest_transport_rank,
}

pub data SupportStatus : Type 0 where
  supported experimental development_only untested unsupported : SupportStatus

unfoldable pub SupportStatus-discrete : Discrete SupportStatus
SupportStatus-discrete = hlevel

instance abbrev pub support_status_eq : Eq SupportStatus
support_status_eq = record { dec = SupportStatus-discrete }

unfoldable pub requires_real_platform_evidence : SupportStatus → Bool
requires_real_platform_evidence supported = true
requires_real_platform_evidence experimental = true
requires_real_platform_evidence _ = false

pub data AcceptanceScope : Type 0 where
  repository_local real_platform : AcceptanceScope

unfoldable pub AcceptanceScope-discrete : Discrete AcceptanceScope
AcceptanceScope-discrete = hlevel

instance abbrev pub scope_eq : Eq AcceptanceScope
scope_eq = record { dec = AcceptanceScope-discrete }

pub record AcceptanceEvidence : Type 0 where
  pub scope : AcceptanceScope
  pub reference : String

pub record SupportKey : Type 0 where
  pub host_os : HostOs
  pub host_architecture : Architecture
  pub provider : ProviderId
  pub accelerator : Accelerator
  pub guest_os : GuestOs
  pub guest_architecture : Architecture
  pub guest_transport : GuestTransportId

-- The derived `PartialEq` of a key: field by field.
abbrev pub key_eq : SupportKey → SupportKey → Bool
key_eq a b =
    a.host_os == b.host_os
    && (a.host_architecture == b.host_architecture
        && (a.provider == b.provider
            && (a.accelerator == b.accelerator
                && (a.guest_os == b.guest_os
                    && (a.guest_architecture == b.guest_architecture
                        && a.guest_transport == b.guest_transport)))))

pub record SupportMatrixEntry : Type 0 where
  pub key : SupportKey
  pub status : SupportStatus
  pub acceptance_evidence : List AcceptanceEvidence

-- A row of the matrix: every row is x86_64 on both sides and carries `NO_EVIDENCE`.
abbrev row :
    HostOs
    → ProviderId
    → Accelerator
    → GuestOs
    → GuestTransportId
    → SupportStatus
    → SupportMatrixEntry
row host p a guest t s = record {
  key = record {
    host_os = host;
    host_architecture = x86_64;
    provider = p;
    accelerator = a;
    guest_os = guest;
    guest_architecture = x86_64;
    guest_transport = t;
  };
  status = s;
  acceptance_evidence = [];
}

-- `SUPPORT_MATRIX`
unfoldable pub support_matrix : List SupportMatrixEntry
support_matrix =
    row HostOs.windows hyperv hyper_v GuestOs.windows powershell_direct untested
    ∷ row HostOs.windows hyperv whpx GuestOs.windows powershell_direct unsupported
    ∷ row HostOs.windows qemu whpx GuestOs.windows qga unsupported
    ∷ row HostOs.windows qemu whpx GuestOs.linux qga untested
    ∷ row HostOs.windows qemu whpx GuestOs.linux ssh unsupported
    ∷ row HostOs.windows qemu tcg GuestOs.linux qga development_only
    ∷ row HostOs.linux qemu kvm GuestOs.windows qga unsupported
    ∷ row HostOs.linux qemu kvm GuestOs.linux qga untested
    ∷ row HostOs.linux qemu kvm GuestOs.linux ssh unsupported
    ∷ row HostOs.linux qemu tcg GuestOs.linux qga development_only
    ∷ []

pub data SupportMatrixError : Type 0 where
  empty : SupportMatrixError
  duplicate_key non_canonical_order impossible_combination missing_real_platform_evidence :
      SupportKey → SupportMatrixError
  invalid_evidence_reference : String → SupportMatrixError

-- What `validate_evidence_reference` asks of the standard library about a path's text.
pub record PathTests : Type 0 where
  pub is_absolute : String → Bool
  pub only_normal_components : String → Bool
  pub starts_with : String → String → Bool
  pub ends_with : String → String → Bool

unfoldable pub validate_evidence_reference :
    PathTests → AcceptanceEvidence → Result SupportMatrixError (Unit {0})
validate_evidence_reference paths e =
    let safe_components =
      not (paths.is_absolute e.reference) && paths.only_normal_components e.reference in
    let receipt_path =
      e.scope != real_platform
      || (paths.starts_with e.reference "docs/receipts/" && paths.ends_with e.reference ".md") in
    reject_if (e.reference == "" || (not safe_components || not receipt_path))
      (invalid_evidence_reference e.reference)

unfoldable pub provider_accelerator : SupportKey → ProviderId → Accelerator → Bool
provider_accelerator key hyperv accelerator =
    key.host_os == HostOs.windows && accelerator == hyper_v
provider_accelerator key qemu hyper_v = false
provider_accelerator key qemu whpx = key.host_os == HostOs.windows
provider_accelerator key qemu kvm = key.host_os == HostOs.linux
provider_accelerator key qemu hvf = key.host_os == HostOs.macos
provider_accelerator key qemu tcg = true

unfoldable pub possible_transport : ProviderId → GuestOs → GuestTransportId → Bool
possible_transport hyperv GuestOs.windows powershell_direct = true
possible_transport qemu GuestOs.linux qga = true
possible_transport _ _ _ = false

unfoldable pub combination_is_possible : SupportKey → Bool
unfolding provider_accelerator possible_transport is_hardware
combination_is_possible key =
    provider_accelerator key key.provider key.accelerator
    && ((not (is_hardware key.accelerator) || key.host_architecture == key.guest_architecture)
        && possible_transport key.provider key.guest_os key.guest_transport)

-- The tuple by which keys are ordered, as the list of its components.
unfoldable pub support_key_rank : SupportKey → List ℕ
support_key_rank key =
    host_os_rank key.host_os
    ∷ architecture_rank key.host_architecture
    ∷ provider_rank key.provider
    ∷ accelerator_rank key.accelerator
    ∷ guest_os_rank key.guest_os
    ∷ architecture_rank key.guest_architecture
    ∷ guest_transport_rank key.guest_transport
    ∷ []

-- `<` on tuples of one length is lexicographic.
unfoldable pub rank_ltb : List ℕ → List ℕ → Bool
rank_ltb (a ∷ l) (b ∷ m) = ltb a b || (a == b && rank_ltb l m)
rank_ltb _ _ = false

-- `previous_rank.is_some_and(|previous| previous >= rank)`
abbrev pub not_after : Option (List ℕ) → List ℕ → Bool
not_after none rank = false
not_after (some previous) rank = not (rank_ltb previous rank)

unfoldable pub validate_evidence :
    PathTests → List AcceptanceEvidence → Result SupportMatrixError (Unit {0})
validate_evidence paths [] = ok tt
validate_evidence paths (e ∷ es) =
    validate_evidence_reference paths e >>= λ _. validate_evidence paths es

-- One round of the loop: `keys` are the ranks inserted so far.
unfoldable pub validate_entry :
    PathTests
    → List (List ℕ)
    → Option (List ℕ)
    → SupportMatrixEntry
    → Result SupportMatrixError (Unit {0})
validate_entry paths keys previous entry = do
  let rank = support_key_rank entry.key
  reject_if (not_after previous rank && contains keys rank) (duplicate_key entry.key)
  reject_if (not_after previous rank) (non_canonical_order entry.key)
  reject_if (contains keys rank) (duplicate_key entry.key)
  reject_if (not (combination_is_possible entry.key) && entry.status != unsupported)
      (impossible_combination entry.key)
  validate_evidence paths entry.acceptance_evidence
  reject_if
      (requires_real_platform_evidence entry.status
        && not (any (λ e. e.scope == real_platform) entry.acceptance_evidence))
      (missing_real_platform_evidence entry.key)

unfoldable pub validate_entries :
    PathTests
    → List (List ℕ)
    → Option (List ℕ)
    → List SupportMatrixEntry
    → Result SupportMatrixError (Unit {0})
validate_entries paths keys previous [] = ok tt
validate_entries paths keys previous (entry ∷ entries) =
    let rank = support_key_rank entry.key in
    validate_entry paths keys previous entry >>= λ _.
    validate_entries paths (rank ∷ keys) (some rank) entries

unfoldable pub validate_support_matrix :
    PathTests → List SupportMatrixEntry → Result SupportMatrixError (Unit {0})
unfolding validate_entries validate_entry validate_evidence
validate_support_matrix paths entries =
    reject_if (is_empty entries) empty >>= λ _. validate_entries paths [] none entries

-- `support_for`, with its one error, `UndocumentedCombination`.
pub data SupportLookupError : Type 0 where
  undocumented_combination : SupportLookupError

unfoldable pub lookup_in :
    List SupportMatrixEntry → SupportKey → Result SupportLookupError SupportMatrixEntry
lookup_in entries key = ok_or undocumented_combination (find (λ e. key_eq e.key key) entries)

unfoldable pub support_for : SupportKey → Result SupportLookupError SupportMatrixEntry
support_for key = lookup_in support_matrix key
