-- ===== src/Platform.antt =====
-- The closed vocabularies of src/core/support.rs and src/core/image.rs: hosts, guests, providers,
-- accelerators and transports, with the names by which providers report them and the ranks by which
-- the support matrix is ordered. `==` is the derived `PartialEq`.
pub mod Names
mod Tests
use vm_cell_manager.Prelude.{
  ℕ, String, Bool, true, false, Option, none, some, Eq, ◌==◌, string_eq, if◌then◌else◌,
}

pub data HostOs : Type 0 where
  windows linux macos : HostOs

pub data GuestOs : Type 0 where
  windows linux macos : GuestOs

pub data Architecture : Type 0 where
  x86_64 aarch64 : Architecture

pub data ProviderId : Type 0 where
  hyperv qemu : ProviderId

pub data Accelerator : Type 0 where
  hyper_v whpx kvm hvf tcg : Accelerator

pub data GuestTransportId : Type 0 where
  powershell_direct qga ssh : GuestTransportId

unfoldable pub HostOs-discrete : Discrete HostOs
HostOs-discrete = hlevel

unfoldable pub GuestOs-discrete : Discrete GuestOs
GuestOs-discrete = hlevel

unfoldable pub Architecture-discrete : Discrete Architecture
Architecture-discrete = hlevel

unfoldable pub ProviderId-discrete : Discrete ProviderId
ProviderId-discrete = hlevel

unfoldable pub Accelerator-discrete : Discrete Accelerator
Accelerator-discrete = hlevel

unfoldable pub GuestTransportId-discrete : Discrete GuestTransportId
GuestTransportId-discrete = hlevel

instance abbrev pub host_os_eq : Eq HostOs
host_os_eq = record { dec = HostOs-discrete }

instance abbrev pub guest_os_eq : Eq GuestOs
guest_os_eq = record { dec = GuestOs-discrete }

instance abbrev pub architecture_eq : Eq Architecture
architecture_eq = record { dec = Architecture-discrete }

instance abbrev pub provider_id_eq : Eq ProviderId
provider_id_eq = record { dec = ProviderId-discrete }

instance abbrev pub accelerator_eq : Eq Accelerator
accelerator_eq = record { dec = Accelerator-discrete }

instance abbrev pub transport_eq : Eq GuestTransportId
transport_eq = record { dec = GuestTransportId-discrete }

-- `ProviderId::as_str`
unfoldable pub provider_str : ProviderId → String
provider_str hyperv = "hyperv"
provider_str qemu = "qemu"

-- `Accelerator::as_str`
unfoldable pub accelerator_str : Accelerator → String
accelerator_str hyper_v = "hyper-v"
accelerator_str whpx = "whpx"
accelerator_str kvm = "kvm"
accelerator_str hvf = "hvf"
accelerator_str tcg = "tcg"

-- `Accelerator::is_hardware`
unfoldable pub is_hardware : Accelerator → Bool
is_hardware tcg = false
is_hardware _ = true

-- `GuestTransportId::as_str`
unfoldable pub transport_str : GuestTransportId → String
transport_str powershell_direct = "powershell-direct"
transport_str qga = "qga"
transport_str ssh = "ssh"

unfoldable pub architecture_name : Architecture → String
architecture_name x86_64 = "x86_64"
architecture_name aarch64 = "aarch64"

unfoldable pub guest_os_name : GuestOs → String
guest_os_name windows = "windows"
guest_os_name linux = "linux"
guest_os_name macos = "macos"

-- `provider_id` of src/core/run_selection.rs
unfoldable pub provider_id : String → Option ProviderId
provider_id value =
    if value == "hyperv" then some hyperv else if value == "qemu" then some qemu else none

unfoldable pub host_os_rank : HostOs → ℕ
host_os_rank windows = 0
host_os_rank linux = 1
host_os_rank macos = 2

unfoldable pub architecture_rank : Architecture → ℕ
architecture_rank x86_64 = 0
architecture_rank aarch64 = 1

unfoldable pub provider_rank : ProviderId → ℕ
provider_rank hyperv = 0
provider_rank qemu = 1

unfoldable pub accelerator_rank : Accelerator → ℕ
accelerator_rank hyper_v = 0
accelerator_rank whpx = 1
accelerator_rank kvm = 2
accelerator_rank hvf = 3
accelerator_rank tcg = 4

unfoldable pub guest_os_rank : GuestOs → ℕ
guest_os_rank windows = 0
guest_os_rank linux = 1
guest_os_rank macos = 2

unfoldable pub guest_transport_rank : GuestTransportId → ℕ
guest_transport_rank powershell_direct = 0
guest_transport_rank qga = 1
guest_transport_rank ssh = 2
