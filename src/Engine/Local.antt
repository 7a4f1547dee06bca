-- ===== src/Engine/Local.antt =====
-- What `validate_local_ownership_record` of src/engine/mod.rs asks of a record.
use vm_cell_manager.Prelude.{
  String, true, ◌≡◌, ◌↔◌, inl, inr, refl, Option, none, some, nat_eq, string_eq, option_eq,
  eq_of_not, not_of_eq, of_not, not_of, or_false, Option-cases, ok, bind-eq-ok, reject-eq-ok,
  reject-passes, reject_if-eq-ok, reject_if-passes, bind-passes, false_or,
}
use vm_cell_manager.Host.{Uuid, Host}
use vm_cell_manager.Cell.{
  CellRecord, ProviderObjectIdentity, cell_object_name, cell_marker, ownership_marker_schema,
}
use vm_cell_manager.Engine.Identity.{
  validate_recorded_identity, cell_configuration_path_for, cell_overlay_path_for,
  validate_local_ownership_record,
}

module _ (host : Host) where
  -- The recorded provider identity, if there is one, is a canonical UUID under the cell's name.
  unfoldable pub HasIdentity : CellRecord → Option ProviderObjectIdentity → Type 0
  HasIdentity r none = Unit {0}
  HasIdentity r (some i) =
      ((u : Uuid) × (host.parse_uuid i.id ≡ some u) × (host.uuid_text u ≡ i.id))
      × (i.name ≡ r.ownership.provider_object_name)

  -- The record belongs to this installation, this provider and this state root: everything that is
  -- derived from the cell's id is what the derivation gives.
  pub record IsLocal (name root : String) (current : Uuid) (r : CellRecord) : Type 0 where
    pub installation : r.ownership.install_id ≡ current
    pub provider : r.provider ≡ name
    pub requested : r.spec.provider ≡ some name
    pub image_provider : r.image.provider ≡ name
    pub image : r.spec.image ≡ r.image.image_id
    pub object_name : r.ownership.provider_object_name ≡ cell_object_name host r.id
    pub identity : HasIdentity r r.provider_object
    pub schema : r.ownership.schema_version ≡ ownership_marker_schema
    pub marker :
        r.ownership.provider_marker
        ≡ cell_marker host r.ownership.install_id r.id r.ownership.operation_id
    pub configuration :
        host.paths_equal r.ownership.configuration_path
          (cell_configuration_path_for host root r.id name)
        ≡ true
    pub overlay :
        host.paths_equal r.ownership.overlay_path
          (cell_overlay_path_for host root r.id r.image.disk_format)
        ≡ true

  identity-HasIdentity :
      (r : CellRecord) (i : Option ProviderObjectIdentity)
      → validate_recorded_identity host r i ≡ ok tt
      → HasIdentity r i
  unfolding validate_recorded_identity HasIdentity
  identity-HasIdentity r none h = tt
  identity-HasIdentity r (some i) h = elim (Option-cases (host.parse_uuid i.id)) [
    | inl e ↦ let b = rw e at h in cc
    | inr (u, e) ↦
        let b = rw e at h in
        let (c, h2) = reject-eq-ok _ _ _ b in
        ((u, e, eq_of_not _ _ c), eq_of_not _ _ (reject_if-eq-ok _ _ h2))
  ]

  -- The converse.
  HasIdentity-identity :
      (r : CellRecord) (i : Option ProviderObjectIdentity)
      → HasIdentity r i
      → validate_recorded_identity host r i ≡ ok tt
  unfolding validate_recorded_identity HasIdentity
  HasIdentity-identity r none h = refl
  HasIdentity-identity r (some i) ((u, e, c), n) =
      rw e (reject-passes _ _ _ (not_of_eq c) (reject_if-passes _ _ (not_of_eq n)))

  -- `validate_local_ownership_record` succeeds exactly on the records of this installation, this
  -- provider and this state root whose derived names, marker and paths are the derivations' and
  -- whose recorded provider identity, if any, is a canonical UUID under the cell's name.
  pub validate_local_ownership_record_iff :
      (name root : String) (r : CellRecord) (current : Uuid)
      → (validate_local_ownership_record host name root r current ≡ ok tt)
        ↔ IsLocal name root current r
  unfolding validate_local_ownership_record
  validate_local_ownership_record_iff name root r current = (
    λ h.
        let (a, h1) = reject-eq-ok _ _ _ h in
        let (b, h2) = reject-eq-ok _ _ _ h1 in
        let (c, h3) = reject-eq-ok _ _ _ h2 in
        let (d, h4) = reject-eq-ok _ _ _ h3 in
        let (_, i, h5) = bind-eq-ok _ _ h4 in
        let (e, h6) = reject-eq-ok _ _ _ h5 in
        let (f, h7) = reject-eq-ok _ _ _ h6 in
        let g = reject_if-eq-ok _ _ h7 in
        let (b0, b1) = or_false _ _ b in
        let (b2, b3) = or_false _ _ b1 in
        let (g0, g1) = or_false _ _ g in
        record {
          installation = eq_of_not _ _ a;
          provider = eq_of_not _ _ b0;
          requested = eq_of_not _ _ b2;
          image_provider = eq_of_not _ _ b3;
          image = eq_of_not _ _ c;
          object_name = eq_of_not _ _ d;
          identity = identity-HasIdentity r _ i;
          schema = eq_of_not _ _ e;
          marker = eq_of_not _ _ f;
          configuration = of_not _ g0;
          overlay = of_not _ g1;
        },
    λ l. reject-passes _ _ _ (not_of_eq l.installation) (
        reject-passes _ _ _
          (false_or (not_of_eq l.provider)
            (false_or (not_of_eq l.requested) (not_of_eq l.image_provider)))
          (reject-passes _ _ _ (not_of_eq l.image) (
            reject-passes _ _ _ (not_of_eq l.object_name) (
              bind-passes _ (HasIdentity-identity r _ l.identity) (
                reject-passes _ _ _ (not_of_eq l.schema) (
                  reject-passes _ _ _ (not_of_eq l.marker) (
                    reject_if-passes _ _
                      (false_or (not_of l.configuration) (not_of l.overlay))))))))),
  )
