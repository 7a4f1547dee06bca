-- ===== src/Engine/Request.antt =====
-- `validate_cell_spec` and `validate_cell_resources` of src/engine/mod.rs: what the engine accepts of
-- a request for a cell.
use vm_cell_manager.Prelude.{
  ℕ, String, Bool, false, not, ◌≡◌, ◌≤◌, Option, none, some, [], ◌∷◌, ◌==◌, ◌!=◌, ◌&&◌, ◌||◌, ltb,
  nat_eq, string_eq, bool_eq, option_eq, contains, is_some, Result, ok, ◌>>◌, reject_if,
  reject-eq-ok, reject_if-eq-ok, eq_of_not, or_false, arith,
}
use vm_cell_manager.Cell.{CellSpec, min_memory_mib, max_memory_mib, max_cpu_count}
use vm_cell_manager.Engine.Errors.{EngineError, unsupported_provider, invalid_cell_request}

abbrev pub min_ttl_seconds : ℕ
min_ttl_seconds = 1

abbrev pub max_ttl_seconds : ℕ
max_ttl_seconds = 31536000

-- `!(low..=high).contains(&n)`
abbrev pub outside : ℕ → ℕ → ℕ → Bool
outside low high n = ltb n low || ltb high n

abbrev pub ttl_outside : Option ℕ → Bool
ttl_outside none = false
ttl_outside (some ttl) = outside min_ttl_seconds max_ttl_seconds ttl

unfoldable pub validate_cell_resources : ℕ → ℕ → Option ℕ → Result EngineError (Unit {0})
validate_cell_resources cpu_count memory_mib ttl_seconds = do
  reject_if (outside 1 max_cpu_count cpu_count) invalid_cell_request
  reject_if (outside min_memory_mib max_memory_mib memory_mib) invalid_cell_request
  reject_if (ttl_outside ttl_seconds) invalid_cell_request

unfoldable pub provider_unsupported : CellSpec → String → Bool
provider_unsupported spec provider =
    not (provider == "hyperv" || provider == "qemu") || spec.provider != some provider

unfoldable pub misplaced_policy : CellSpec → String → Bool
misplaced_policy spec provider =
    provider == "hyperv" && (is_some spec.accelerator || spec.allow_tcg)

abbrev pub unknown_accelerator : Option String → Bool
unknown_accelerator none = false
unknown_accelerator (some a) = not (contains ("auto" ∷ "whpx" ∷ "kvm" ∷ "hvf" ∷ "tcg" ∷ []) a)

unfoldable pub validate_cell_spec : CellSpec → String → Result EngineError (Unit {0})
validate_cell_spec spec provider = do
  reject_if (provider_unsupported spec provider) unsupported_provider
  reject_if (misplaced_policy spec provider) invalid_cell_request
  reject_if (unknown_accelerator spec.accelerator) invalid_cell_request
  reject_if (spec.allow_tcg != (spec.accelerator == some "tcg")) invalid_cell_request
  validate_cell_resources spec.cpu_count spec.memory_mib spec.ttl_seconds

-- No lifetime, or one within the bounds.
pub IsTtl : Option ℕ → Type 0
IsTtl none = Unit {0}
IsTtl (some ttl) = (min_ttl_seconds ≤ ttl) × (ttl ≤ max_ttl_seconds)

-- The bounds on what a cell may use.
pub record IsBounded (spec : CellSpec) : Type 0 where
  pub cpu : (1 ≤ spec.cpu_count) × (spec.cpu_count ≤ max_cpu_count)
  pub memory : (min_memory_mib ≤ spec.memory_mib) × (spec.memory_mib ≤ max_memory_mib)
  pub ttl : IsTtl spec.ttl_seconds

not_below : (n m : ℕ) → ltb n m ≡ false → m ≤ n
not_below n m h = grind arith

provider_of :
    (spec : CellSpec) (provider : String)
    → provider_unsupported spec provider ≡ false
    → spec.provider ≡ some provider
unfolding provider_unsupported
provider_of spec provider h =
    let (_, q) =
      or_false (not (provider == "hyperv" || provider == "qemu")) (spec.provider != some provider)
        h in
    eq_of_not spec.provider (some provider) q

no_tcg_on_hyperv :
    (spec : CellSpec) (provider : String)
    → misplaced_policy spec provider ≡ false
    → (provider == "hyperv" && spec.allow_tcg) ≡ false
unfolding misplaced_policy
no_tcg_on_hyperv spec provider h = ground arith

within : (low high n : ℕ) → outside low high n ≡ false → (low ≤ n) × (n ≤ high)
within low high n h = let (p, q) = or_false _ _ h in (not_below n low p, not_below high n q)

within-IsTtl : (ttl : Option ℕ) → ttl_outside ttl ≡ false → IsTtl ttl
unfolding IsTtl
within-IsTtl none h = tt
within-IsTtl (some ttl) h = within min_ttl_seconds max_ttl_seconds ttl h

resources-IsBounded :
    (spec : CellSpec)
    → validate_cell_resources spec.cpu_count spec.memory_mib spec.ttl_seconds ≡ ok tt
    → IsBounded spec
unfolding validate_cell_resources
resources-IsBounded spec h =
    let (c, h1) = reject-eq-ok (outside 1 max_cpu_count spec.cpu_count) _ _ h in
    let (m, h2) = reject-eq-ok (outside min_memory_mib max_memory_mib spec.memory_mib) _ _ h1 in
    let t = reject_if-eq-ok (ttl_outside spec.ttl_seconds) _ h2 in
    record { cpu = within _ _ _ c; memory = within _ _ _ m; ttl = within-IsTtl spec.ttl_seconds t }

-- A request that the engine accepts for a provider names that provider, keeps the bounds on
-- processors, memory and lifetime, allows TCG exactly when it asks for the accelerator TCG, and
-- does not allow it on Hyper-V.
pub validate_cell_spec-IsBounded :
    (spec : CellSpec) (provider : String)
    → validate_cell_spec spec provider ≡ ok tt
    → IsBounded spec
      × (spec.provider ≡ some provider)
      × (spec.allow_tcg ≡ (spec.accelerator == some "tcg"))
      × ((provider == "hyperv" && spec.allow_tcg) ≡ false)
unfolding validate_cell_spec
validate_cell_spec-IsBounded spec provider h =
    let (p, h1) = reject-eq-ok (provider_unsupported spec provider) _ _ h in
    let (m, h2) = reject-eq-ok (misplaced_policy spec provider) _ _ h1 in
    let (_, h3) = reject-eq-ok (unknown_accelerator spec.accelerator) _ _ h2 in
    let (t, h4) = reject-eq-ok (spec.allow_tcg != (spec.accelerator == some "tcg")) _ _ h3 in
    (
      resources-IsBounded spec h4,
      provider_of spec provider p,
      eq_of_not _ _ t,
      no_tcg_on_hyperv spec provider m,
    )
