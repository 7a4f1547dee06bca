-- ===== src/Support/Order.antt =====
-- The order of the matrix's keys: `rank_ltb` is a strict order, and a key is known by its rank.
use vm_cell_manager.Prelude.{
  ℕ, true, false, Option, none, some, List, [], ◌∷◌, ◌≡◌, refl, ◌⊎◌, arith, nat_eq, contains,
  list_eq, All,
}
use vm_cell_manager.Platform.{
  HostOs, GuestOs, Architecture, ProviderId, Accelerator, GuestTransportId, host_os_rank,
  architecture_rank, provider_rank, accelerator_rank, guest_os_rank, guest_transport_rank,
}
use vm_cell_manager.Support.Matrix.{SupportKey, support_key_rank, rank_ltb, not_after}

pub rank_ltb_irrefl : (a : List ℕ) → rank_ltb a a ≡ false
unfolding rank_ltb
rank_ltb_irrefl [] = refl
rank_ltb_irrefl (x ∷ a) = ground (arith, rank_ltb_irrefl a)

pub rank_ltb_trans :
    (a b c : List ℕ) → rank_ltb a b ≡ true → rank_ltb b c ≡ true → rank_ltb a c ≡ true
unfolding rank_ltb
rank_ltb_trans (x ∷ a) (y ∷ b) (z ∷ c) h k = ground (arith, rank_ltb_trans a b c)
rank_ltb_trans [] b c h k = cc
rank_ltb_trans (x ∷ a) [] c h k = cc
rank_ltb_trans (x ∷ a) (y ∷ b) [] h k = cc

host_os_rank_inj : (a b : HostOs) → host_os_rank a ≡ host_os_rank b → a ≡ b
unfolding host_os_rank
host_os_rank_inj a b h = ground arith

architecture_rank_inj : (a b : Architecture) → architecture_rank a ≡ architecture_rank b → a ≡ b
unfolding architecture_rank
architecture_rank_inj a b h = ground arith

provider_rank_inj : (a b : ProviderId) → provider_rank a ≡ provider_rank b → a ≡ b
unfolding provider_rank
provider_rank_inj a b h = ground arith

accelerator_rank_inj : (a b : Accelerator) → accelerator_rank a ≡ accelerator_rank b → a ≡ b
unfolding accelerator_rank
accelerator_rank_inj a b h = ground arith

guest_os_rank_inj : (a b : GuestOs) → guest_os_rank a ≡ guest_os_rank b → a ≡ b
unfolding guest_os_rank
guest_os_rank_inj a b h = ground arith

transport_rank_inj :
    (a b : GuestTransportId) → guest_transport_rank a ≡ guest_transport_rank b → a ≡ b
unfolding guest_transport_rank
transport_rank_inj a b h = ground arith

-- Two keys of one rank are the same key.
pub support_key_rank_inj : (a b : SupportKey) → support_key_rank a ≡ support_key_rank b → a ≡ b
unfolding support_key_rank
support_key_rank_inj a b h = ground (
  arith,
  host_os_rank_inj a.host_os b.host_os,
  architecture_rank_inj a.host_architecture b.host_architecture,
  provider_rank_inj a.provider b.provider,
  accelerator_rank_inj a.accelerator b.accelerator,
  guest_os_rank_inj a.guest_os b.guest_os,
  architecture_rank_inj a.guest_architecture b.guest_architecture,
  transport_rank_inj a.guest_transport b.guest_transport,
)

-- The ranks seen by the loop: none after the previous one.
abbrev pub Within : Option (List ℕ) → List ℕ → Type 0
Within none k = ⊥
Within (some p) k = (k ≡ p) ⊎ (rank_ltb k p ≡ true)

-- So a rank after the previous one has not been seen.
pub fresh_after :
    (keys : List (List ℕ)) (previous : Option (List ℕ)) (rank : List ℕ)
    → All (Within previous) keys
    → not_after previous rank ≡ false
    → contains keys rank ≡ false
fresh_after [] previous rank seen h = refl
fresh_after (k ∷ keys) none rank seen h = absurd seen.0
fresh_after (k ∷ keys) (some p) rank seen h = ground (
  arith,
  fresh_after keys (some p) rank seen.1 h,
  rank_ltb_irrefl rank,
  rank_ltb_trans rank p rank,
  rank_ltb_trans k p rank,
)

pub Within-next :
    (previous : Option (List ℕ)) (rank : List ℕ) (keys : List (List ℕ))
    → All (Within previous) keys
    → not_after previous rank ≡ false
    → All (Within (some rank)) keys
Within-next previous rank [] seen h = tt
Within-next none rank (k ∷ keys) seen h = absurd seen.0
Within-next (some p) rank (k ∷ keys) seen h =
    (ground (arith, rank_ltb_trans k p rank), Within-next (some p) rank keys seen.1 h)
