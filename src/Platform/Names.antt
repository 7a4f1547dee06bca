-- ===== src/Platform/Names.antt =====
-- The names of providers in src/core/support.rs and their reading in src/core/run_selection.rs.
use vm_cell_manager.Prelude.{
  ◌≡◌, ◌↔◌, refl, String, ◌==◌, string_eq, String-discrete, some, eq_of_test, arith, Bool-cases,
}
use vm_cell_manager.Platform.{ProviderId, hyperv, qemu, provider_str, provider_id}

provider_id-provider_str : (p : ProviderId) → provider_id (provider_str p) ≡ some p
unfolding provider_id provider_str String-discrete
provider_id-provider_str hyperv = refl
provider_id-provider_str qemu = refl

provider_str-provider_id :
    (value : String) (p : ProviderId) → provider_id value ≡ some p → value ≡ provider_str p
unfolding provider_id provider_str
provider_str-provider_id value hyperv h =
    let a = Bool-cases (value == "hyperv") in
    let b = Bool-cases (value == "qemu") in let e = eq_of_test value "hyperv" in ground arith
provider_str-provider_id value qemu h =
    let a = Bool-cases (value == "hyperv") in
    let b = Bool-cases (value == "qemu") in let e = eq_of_test value "qemu" in ground arith

-- A text reads as a provider exactly when it is that provider's name.
pub provider_id_iff :
    (value : String) (p : ProviderId) → (provider_id value ≡ some p) ↔ (value ≡ provider_str p)
provider_id_iff value p = (provider_str-provider_id value p, λ e. rw e (provider_id-provider_str p))
