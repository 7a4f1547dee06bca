-- ===== src/Host.antt =====
-- What the program takes from its libraries and its platform: the text form of UUIDs (crate `uuid`),
-- `Path::join` and `Path`'s `==` (the comparison `paths_equal` makes outside Windows), and
-- `str::eq_ignore_ascii_case`. A UUID is the 128-bit number that it stands for.
use vm_cell_manager.Prelude.{ℕ, String, Bool, Option}

abbrev pub Uuid : Type 0
Uuid = ℕ

pub record Host : Type 0 where
  pub uuid_text : Uuid → String
  pub parse_uuid : String → Option Uuid
  pub join : String → String → String
  pub paths_equal : String → String → Bool
  pub eq_ignore_case : String → String → Bool
