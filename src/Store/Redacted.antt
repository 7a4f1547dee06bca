-- ===== src/Store/Redacted.antt =====
-- The codes that src/state/mod.rs keeps of an error, and those that src/engine/mod.rs saves.
use vm_cell_manager.Prelude.{
  ◌≡◌, refl, true, false, String, Option, none, some, if◌then◌else◌, Bool, ap, nat-discrete,
}
use vm_cell_manager.Cell.{CellRecord}
use vm_cell_manager.Provider.{ProviderError}
use vm_cell_manager.Selection.Types.{RunSelectionError}
use vm_cell_manager.Engine.Errors.{EngineError, GuestIoError, durable_error_code, selection_code}
use vm_cell_manager.Store.{
  is_safe_code, redacted_error, redact_cell_diagnostic, redacted_legacy_error_code,
}

-- A code that is kept, or the one that stands for a code that is not.
pub IsKept : Option String → Type 0
IsKept none = Unit {0}
IsKept (some s) = is_safe_code s ≡ true

legacy-IsKept : is_safe_code redacted_legacy_error_code ≡ true
unfolding is_safe_code nat-discrete
legacy-IsKept = refl

kept_or_replaced :
    (s : String) (b : Bool)
    → is_safe_code s ≡ b
    → is_safe_code (if b then s else redacted_legacy_error_code) ≡ true
kept_or_replaced s true e = e
kept_or_replaced s false e = legacy-IsKept

redacted-IsKept : (e : Option String) → IsKept (redacted_error e)
unfolding IsKept
redacted-IsKept none = tt
redacted-IsKept (some s) = kept_or_replaced s (is_safe_code s) refl

kept_stays : (e : Option String) → IsKept e → redacted_error e ≡ e
unfolding IsKept
kept_stays none k = refl
kept_stays (some s) k = rw k refl

selection_code-is_safe_code : (e : RunSelectionError) → is_safe_code (selection_code e) ≡ true
unfolding selection_code is_safe_code nat-discrete
selection_code-is_safe_code RunSelectionError.unsupported_host = refl
selection_code-is_safe_code RunSelectionError.unsupported_host_architecture = refl
selection_code-is_safe_code RunSelectionError.ambiguous = refl
selection_code-is_safe_code RunSelectionError.incompatible_image_variant = refl
selection_code-is_safe_code RunSelectionError.provider_unavailable = refl
selection_code-is_safe_code RunSelectionError.accelerator_unavailable = refl
selection_code-is_safe_code RunSelectionError.architecture_mismatch = refl
selection_code-is_safe_code RunSelectionError.unsupported_guest_transport = refl
selection_code-is_safe_code RunSelectionError.contradictory_capability_evidence = refl
selection_code-is_safe_code RunSelectionError.undocumented_combination = refl
selection_code-is_safe_code RunSelectionError.unsupported_combination = refl
selection_code-is_safe_code RunSelectionError.tcg_requires_explicit_opt_in = refl
selection_code-is_safe_code RunSelectionError.impossible_provider_accelerator = refl
selection_code-is_safe_code RunSelectionError.plan_drift = refl

pub durable_error_code-is_safe_code : (e : EngineError) → is_safe_code (durable_error_code e) ≡ true
unfolding durable_error_code is_safe_code nat-discrete
durable_error_code-is_safe_code (EngineError.state _) = refl
durable_error_code-is_safe_code (EngineError.provider ProviderError.unsupported) = refl
durable_error_code-is_safe_code (EngineError.provider ProviderError.command) = refl
durable_error_code-is_safe_code (EngineError.provider ProviderError.timeout) = refl
durable_error_code-is_safe_code (EngineError.provider ProviderError.output_limit) = refl
durable_error_code-is_safe_code (EngineError.provider ProviderError.invalid_response) = refl
durable_error_code-is_safe_code (EngineError.provider ProviderError.not_found) = refl
durable_error_code-is_safe_code (EngineError.provider ProviderError.collision) = refl
durable_error_code-is_safe_code (EngineError.provider ProviderError.ownership_changed) = refl
durable_error_code-is_safe_code (EngineError.provider ProviderError.authority) = refl
durable_error_code-is_safe_code (EngineError.run_selection e) = selection_code-is_safe_code e
durable_error_code-is_safe_code EngineError.unsupported_provider = refl
durable_error_code-is_safe_code EngineError.provider_unavailable = refl
durable_error_code-is_safe_code EngineError.invalid_image = refl
durable_error_code-is_safe_code EngineError.image_integrity = refl
durable_error_code-is_safe_code EngineError.image_conflict = refl
durable_error_code-is_safe_code EngineError.image_in_use = refl
durable_error_code-is_safe_code EngineError.invalid_cell_request = refl
durable_error_code-is_safe_code EngineError.lifecycle_conflict = refl
durable_error_code-is_safe_code EngineError.integrity = refl
durable_error_code-is_safe_code EngineError.ownership_not_proven = refl
durable_error_code-is_safe_code EngineError.provider_drift = refl
durable_error_code-is_safe_code (EngineError.unexpected_power_state _) = refl
durable_error_code-is_safe_code (EngineError.guest GuestIoError.not_implemented) = refl
durable_error_code-is_safe_code (EngineError.guest GuestIoError.invalid_request) = refl
durable_error_code-is_safe_code (EngineError.guest GuestIoError.path_violation) = refl
durable_error_code-is_safe_code (EngineError.guest GuestIoError.ownership_changed) = refl
durable_error_code-is_safe_code (EngineError.guest GuestIoError.guest_not_ready) = refl
durable_error_code-is_safe_code (EngineError.guest GuestIoError.authentication_failed) = refl
durable_error_code-is_safe_code (EngineError.guest GuestIoError.session_failed) = refl
durable_error_code-is_safe_code (EngineError.guest GuestIoError.timeout) = refl
durable_error_code-is_safe_code (EngineError.guest GuestIoError.output_limit) = refl
durable_error_code-is_safe_code (EngineError.guest GuestIoError.invalid_response) = refl
durable_error_code-is_safe_code (EngineError.guest GuestIoError.partial_copy) = refl
durable_error_code-is_safe_code (EngineError.guest GuestIoError.transport) = refl

-- The code that the engine saves of any of its errors is kept by the redaction of a record.
pub redact_cell_diagnostic-durable_error_code :
    (r : CellRecord) (e : EngineError)
    → (redact_cell_diagnostic (record r { last_error = some (durable_error_code e) })).last_error
      ≡ some (durable_error_code e)
unfolding redact_cell_diagnostic IsKept
redact_cell_diagnostic-durable_error_code r e =
    kept_stays (some (durable_error_code e)) (durable_error_code-is_safe_code e)

-- A redacted record has no error or one with a safe code, and redacting it again changes nothing.
pub redact_cell_diagnostic-IsKept :
    (r : CellRecord)
    → IsKept (redact_cell_diagnostic r).last_error
      × (redact_cell_diagnostic (redact_cell_diagnostic r) ≡ redact_cell_diagnostic r)
unfolding redact_cell_diagnostic
redact_cell_diagnostic-IsKept r = (
  redacted-IsKept r.last_error,
  ap (λ e. record r { last_error = e })
      (kept_stays (redacted_error r.last_error) (redacted-IsKept r.last_error)),
)
