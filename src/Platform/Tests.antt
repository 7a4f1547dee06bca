-- ===== src/Platform/Tests.antt =====
-- The theorem on the names of providers at one of them.
use vm_cell_manager.Prelude.{◌≡◌, ◌↔◌, String, some}
use vm_cell_manager.Platform.{qemu, provider_str, provider_id}
use vm_cell_manager.Platform.Names.{provider_id_iff}

abbrev qemu_text : String
qemu_text = "qemu"

provider_id_iff_example : (provider_id qemu_text ≡ some qemu) ↔ (qemu_text ≡ provider_str qemu)
provider_id_iff_example = provider_id_iff qemu_text qemu
