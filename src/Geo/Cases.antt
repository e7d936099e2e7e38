-- ===== src/Geo/Cases.antt =====
-- What a write to one of the maps leaves at a key.
use edge_dns.Prelude.{ℕ, ◌≡◌, ◌≢◌, ◌⊎◌, inl, inr, refl, List, Option}
use mathlib.Core.Logic.{if_pos, if_neg}
use edge_dns.Records.State.{CassUuid}
use edge_dns.Geo.State.{IpEntry, Maps, uuid_dec, string_dec, put_entry, put_vec}

-- At the key that is written, or at another.
pub put_entry_cases :
    (s : Maps) (g id : CassUuid) (o : Option IpEntry) (h j : CassUuid)
    → ((h ≡ g) × (j ≡ id) × ((put_entry s g id o).entries h j ≡ o))
      ⊎ (((h ≢ g) ⊎ (j ≢ id)) × ((put_entry s g id o).entries h j ≡ s.entries h j))
put_entry_cases s g id o h j = elim (uuid_dec h g) [
  | no p ↦ inr (inl p, rw (if_neg _ p) refl)
  | yes p ↦ elim (uuid_dec j id) [
    | no q ↦ inr (inr q, rw (if_pos _ p, if_neg _ q) refl)
    | yes q ↦ inl (p, q, rw (if_pos _ p, if_pos _ q) refl)
  ]
]

pub put_vec_cases :
    (s : Maps) (g : CassUuid) (c : List ℕ) (vec : List CassUuid) (h : CassUuid) (d : List ℕ)
    → ((h ≡ g) × (d ≡ c) × ((put_vec s g c vec).group_entries h d ≡ vec))
      ⊎ (((h ≢ g) ⊎ (d ≢ c)) × ((put_vec s g c vec).group_entries h d ≡ s.group_entries h d))
put_vec_cases s g c vec h d = elim (uuid_dec h g) [
  | no p ↦ inr (inl p, rw (if_neg _ p) refl)
  | yes p ↦ elim (string_dec d c) [
    | no q ↦ inr (inr q, rw (if_pos _ p, if_neg _ q) refl)
    | yes q ↦ inl (p, q, rw (if_pos _ p, if_pos _ q) refl)
  ]
]
