-- ===== src/Support/Lookup.antt =====
-- What `support_for` finds: on an ordered matrix the one row of the key, and on the shipped matrix
-- no promoted row and no impossible combination that is not declared unsupported.
use vm_cell_manager.Prelude.{
  true, false, some, List, [], ◌∷◌, ◌≡◌, ◌≢◌, ◌↔◌, refl, ◌⊎◌, arith, ap, nat_eq, All, All-mem, Memᴰ,
  ok, find, find-mem, eq_and, eq_self, eq_of_test,
}
use vm_cell_manager.Platform.{
  HostOs-discrete, GuestOs-discrete, Architecture-discrete, Accelerator-discrete, host_os_eq,
  guest_os_eq, architecture_eq, provider_id_eq, accelerator_eq, transport_eq, host_os_rank,
  architecture_rank, provider_rank, accelerator_rank, guest_os_rank, guest_transport_rank,
}
use vm_cell_manager.Support.Matrix.{
  SupportKey, SupportMatrixEntry, PathTests, support_key_rank, rank_ltb, unsupported,
  validate_support_matrix, combination_is_possible, requires_real_platform_evidence, key_eq,
  support_matrix, lookup_in, support_for,
}
use vm_cell_manager.Support.Order.{rank_ltb_irrefl}
use vm_cell_manager.Support.Validated.{IsOrdered, IsSound, validate_support_matrix_iff}

key_eq_self : (a : SupportKey) → key_eq a a ≡ true
key_eq_self a = simp eq_self

pub key_eq_iff : (a b : SupportKey) → (key_eq a b ≡ true) ↔ (a ≡ b)
key_eq_iff a b = (
  λ h.
      let (p1, h1) = eq_and a.host_os b.host_os _ h in
      let (p2, h2) = eq_and a.host_architecture b.host_architecture _ h1 in
      let (p3, h3) = eq_and a.provider b.provider _ h2 in
      let (p4, h4) = eq_and a.accelerator b.accelerator _ h3 in
      let (p5, h5) = eq_and a.guest_os b.guest_os _ h4 in
      let (p6, h6) = eq_and a.guest_architecture b.guest_architecture _ h5 in
      let p7 = eq_of_test a.guest_transport b.guest_transport h6 in cc (p1, p2, p3, p4, p5, p6, p7),
  λ e. rw e (key_eq_self b),
)

find_of_mem :
    (entries : List SupportMatrixEntry) {e : SupportMatrixEntry}
    → IsOrdered entries
    → Memᴰ e entries
    → find (λ x. key_eq x.key e.key) entries ≡ some e
find_of_mem [] o m = elim m [ ]
find_of_mem (x ∷ xs) {e} o (Memᴰ.head p) = rw (← p, (key_eq_iff e.key e.key).1 refl)
find_of_mem (x ∷ xs) {e} o (Memᴰ.tail m) =
    let above = All-mem _ xs o.0 m in
    let apart : ¬ (x.key ≡ e.key) =
      λ same. ground (arith, rank_ltb_irrefl (support_key_rank e.key), ap support_key_rank same) in
    let missed : key_eq x.key e.key ≡ false = ground (arith, key_eq_iff x.key e.key) in
    rw missed (find_of_mem xs o.1 m)

-- In a matrix whose rows stand in strictly increasing order the lookup of a key gives a row
-- exactly when the row is listed under it.
pub lookup_in_iff :
    (entries : List SupportMatrixEntry) (key : SupportKey) (e : SupportMatrixEntry)
    → IsOrdered entries
    → (lookup_in entries key ≡ ok e) ↔ (Memᴰ e entries × (e.key ≡ key))
unfolding lookup_in
lookup_in_iff entries key e o = (
  λ h.
      let found : find (λ x. key_eq x.key key) entries ≡ some e = ground arith in
      let (m, same) = find-mem (λ x. key_eq x.key key) entries found in
      (m, (key_eq_iff e.key key).0 same),
  λ (m, same). rw (← same, find_of_mem entries o m),
)

shipped : Unit {0}
unfolding support_matrix support_key_rank rank_ltb combination_is_possible
    requires_real_platform_evidence host_os_rank architecture_rank provider_rank accelerator_rank
    guest_os_rank guest_transport_rank HostOs-discrete GuestOs-discrete Architecture-discrete
    Accelerator-discrete
shipped = tt

-- The rows of the shipped matrix stand in strictly increasing order.
pub support_matrix-IsOrdered : IsOrdered support_matrix
unfolding shipped
support_matrix-IsOrdered = ground arith

pub support_matrix-IsSound : (paths : PathTests) → All (IsSound paths) support_matrix
unfolding shipped
support_matrix-IsSound paths = ground arith

abbrev lax : PathTests
lax = record {
  is_absolute = λ _. false;
  only_normal_components = λ _. true;
  starts_with = λ _ _. true;
  ends_with = λ _ _. true;
}

support_matrix_unpromoted :
    All (λ e. requires_real_platform_evidence e.status ≡ false) support_matrix
unfolding shipped
support_matrix_unpromoted = ground arith

support_matrix_nonempty : support_matrix ≢ []
unfolding support_matrix
support_matrix_nonempty h = cc

-- The shipped matrix passes its own validator, whatever the tests on paths answer.
support_matrix_validates :
    (paths : PathTests) → validate_support_matrix paths support_matrix ≡ ok tt
support_matrix_validates paths =
    (validate_support_matrix_iff paths support_matrix).1
      (support_matrix_nonempty, support_matrix-IsOrdered, support_matrix-IsSound paths)

-- A key looked up in the shipped matrix gives a row listed under it. Such a row is possible or
-- declared unsupported, and none has a status that needs real-platform evidence.
pub support_for_sound :
    (key : SupportKey) (e : SupportMatrixEntry)
    → support_for key ≡ ok e
    → Memᴰ e support_matrix
      × (e.key ≡ key)
      × ((combination_is_possible key ≡ true) ⊎ (e.status ≡ unsupported))
      × (requires_real_platform_evidence e.status ≡ false)
unfolding support_for
support_for_sound key e h =
    let (m, same) = (lookup_in_iff support_matrix key e support_matrix-IsOrdered).0 h in
    let sound = All-mem (IsSound lax) support_matrix (support_matrix-IsSound lax) m in
    (m, same, rw (← same) sound.possible, All-mem _ support_matrix support_matrix_unpromoted m)
