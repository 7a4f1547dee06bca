-- ===== src/Lifecycle/Collect/Collected.antt =====
-- The collection of expired cells (src/engine/mod.rs): one entry for each record of the provider, and
-- what each disposition means.
use vm_cell_manager.Prelude.{
  ◌≡◌, true, false, ◌!=◌, nat_eq, string_eq, ℕ, String, Option, List, [], ◌∷◌, Bool, ok, err,
}
use vm_cell_manager.Host.{Uuid, Host}
use vm_cell_manager.Cell.{CellRecord}
use vm_cell_manager.Guest.{GuestOperationRecord}
use vm_cell_manager.Program.{Program}
use vm_cell_manager.Program.Logic.{History, After}
use vm_cell_manager.Program.Paths.{Extends}
use vm_cell_manager.Lifecycle.Known.{known}
use vm_cell_manager.Lifecycle.Known.Locked.{IsLocked}
use vm_cell_manager.Lifecycle.Collect.{GcEntry}
use vm_cell_manager.Lifecycle.Collect.Disposed.{Disposed}

-- What is left where a method succeeds.
abbrev pub Leaves : {A : Type 0} → (History → A → Type 0) → After A
Leaves R h (ok a) = R h a
Leaves R h (err _) = Unit {0}

module _ (host : Host) (file_stem : Uuid → Option String) (name root : String) where
  -- A record of another provider has no entry; the entry of any other comes first.
  Next :
      ℕ
      → List GuestOperationRecord
      → CellRecord
      → History
      → (List GcEntry → Type 0)
      → Bool
      → List GcEntry
      → Type 0
  Next at operations r h Rest true entries = Rest entries
  Next at operations r h Rest false [] = ⊥
  Next at operations r h Rest false (e ∷ entries) =
      (e.cell_id ≡ r.id)
      × (e.expires_at ≡ r.expires_at)
      × Disposed host file_stem name root at operations h e e.disposition
      × Rest entries

  -- One entry for each record of the provider, in their order.
  pub Collected : ℕ → List GuestOperationRecord → List CellRecord → History → List GcEntry → Type 0
  Collected at operations [] h entries = entries ≡ []
  Collected at operations (r ∷ cells) h entries =
      Next at operations r h (Collected at operations cells h) (r.provider != name) entries

  abbrev Locked : History → History → Type 0
  Locked h h' = IsLocked (known h') × Extends h h'

  -- The entry of one record.
  abbrev Entered : ℕ → List GuestOperationRecord → CellRecord → History → History → GcEntry → Type 0
  Entered at operations r h h' entry =
      Locked h h'
      × (entry.cell_id ≡ r.id)
      × (entry.expires_at ≡ r.expires_at)
      × Disposed host file_stem name root at operations h' entry entry.disposition

  abbrev AllCollected :
      ℕ → List GuestOperationRecord → List CellRecord → History → History → List GcEntry → Type 0
  AllCollected at operations cells h h' entries =
      Locked h h' × Collected at operations cells h' entries
