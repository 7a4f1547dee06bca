-- ===== src/Image.antt =====
-- src/core/image.rs: image identifiers, provider variants, and the binding that a cell keeps of the
-- variant it was created from. Paths are texts; times (`DateTime<Utc>`) are numbers, of which the
-- program reads only the order.
use vm_cell_manager.Prelude.{ℕ, String, Option, some, List, string_eq}
use vm_cell_manager.Platform.{GuestOs, Architecture}

-- `ImageId` is a checked text.
abbrev pub ImageId : Type 0
ImageId = String

pub record ImageVariant : Type 0 where
  pub provider : String
  pub disk_format : String
  pub path : String
  pub sha256 : String
  pub file_size : ℕ

pub record ImageRecord : Type 0 where
  pub schema_version : ℕ
  pub id : ImageId
  pub guest_os : GuestOs
  pub guest_arch : Architecture
  pub variants : List ImageVariant
  pub registered_at : ℕ

pub record ImageBinding : Type 0 where
  pub image_id : ImageId
  pub guest_os : Option GuestOs
  pub provider : String
  pub disk_format : String
  pub path : String
  pub sha256 : String
  pub file_size : ℕ

-- `ImageBinding::from_variant`
unfoldable pub from_variant : ImageId → GuestOs → ImageVariant → ImageBinding
from_variant image_id guest_os variant = record {
  image_id = image_id;
  guest_os = some guest_os;
  provider = variant.provider;
  disk_format = variant.disk_format;
  path = variant.path;
  sha256 = variant.sha256;
  file_size = variant.file_size;
}
