-- ===== src/Records/Capacity.antt =====
-- How many records the cache can hold: the mask 99999 has ten bits, so an ID has one of 1024
-- buckets of the ID table, and each bucket has one record.
use edge_dns.Prelude.{ℕ, ◌+◌, ◌*◌, ◌/◌, ◌%◌, ◌<◌, ◌≤◌, ◌≡◌, ap, true, List, map, length, arith}
use edge_dns.Prelude.Distinct.{Distinct, All, pigeonhole, Distinct-map, All-map, length-map}
use edge_dns.Records.State.{CassUuid, Mmap, max_data_records}
use edge_dns.Records.Hash.{id_slot, calculate_id_hash}
use edge_dns.Records.Probe.{mask_digits}
use edge_dns.Records.Valid.{IsUsed, IsValid}

-- The ten bits of a masked number, side by side.
rank : ℕ → ℕ
rank x = x / 32768 % 4 * 256 + x / 512 % 4 * 64 + x / 128 % 2 * 32 + x % 32

rank-lt : (x : ℕ) → rank x < 1024
unfolding rank
rank-lt x = omega arith

rank_injective : (a b : CassUuid) → rank (id_slot a) ≡ rank (id_slot b) → id_slot a ≡ id_slot b
unfolding rank id_slot
rank_injective a b e =
    omega (arith, mask_digits (calculate_id_hash a), mask_digits (calculate_id_hash b))

abbrev Used : Mmap → ℕ → Type 0
Used m s = (s < max_data_records) × IsUsed m s true

place : Mmap → ℕ → ℕ
place m s = rank (id_slot (m.data_records s).id)

place_injective :
    (m : Mmap) → IsValid m → (s t : ℕ) → Used m s → Used m t → place m s ≡ place m t → s ≡ t
unfolding place
place_injective m v s t (hs, us) (ht, ut) e = cc (
  v.ids.id_used s hs us,
  v.ids.id_used t ht ut,
  ap m.id_hash_table (rank_injective (m.data_records s).id (m.data_records t).id e),
)

place-lt : (m : Mmap) (s : ℕ) → Used m s → place m s < 1024
unfolding place
place-lt m s u = rank-lt (id_slot (m.data_records s).id)

-- A well-formed cache holds at most 1024 used records, though its arrays have 100000 places each.
pub Used-le_1024 :
    (m : Mmap) (slots : List ℕ)
    → IsValid m
    → All (Used m) slots
    → Distinct slots
    → length slots ≤ 1024
Used-le_1024 m slots v used apart = omega (
  arith,
  length-map (place m) slots,
  pigeonhole 1024 (map (place m) slots)
      (All-map (Used m) (λ x. x < 1024) (place m) (place-lt m) slots used)
      (Distinct-map (Used m) (place m) (place_injective m v) slots used apart),
)
