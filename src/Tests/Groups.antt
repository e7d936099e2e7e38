-- ===== src/Tests/Groups.antt =====
-- Runs of the IP group cache: one entry in it.
use edge_dns.Prelude.{
  ℕ, ◌<◌, ◌≤◌, ◌≡◌, ◌≢◌, refl, true, List, [], ◌∷◌, none, some, pos, minus_one, length, ◌==◌,
  if◌then◌else◌, replicate,
}
use edge_dns.Records.State.{CassUuid}
use edge_dns.Records.Hash.{calculate_id_hash, fnv_loop, fnv_step, fold_case, bytes_le}
use edge_dns.Records.Ops.{uuid_eq}
use edge_dns.Groups.State.{GroupMmap, IpGroupEntry, ip_size}
use edge_dns.Groups.Cells.{id_bucket, calculate_hash_from_uuid, find_group}
use edge_dns.Groups.Ops.{lookup_entry, update_entry, entry_response}
use edge_dns.Groups.Probe.{Leads, find_group-Leads}
use edge_dns.Groups.Update.{update_entry-found}

abbrev group_uuid : CassUuid
group_uuid = record { time_and_version = 9; clock_seq_and_node = 0 }

abbrev entry_uuid : CassUuid
entry_uuid = record { time_and_version = 1; clock_seq_and_node = 0 }

abbrev entry : IpGroupEntry
entry = record {
  group_id = group_uuid;
  id = entry_uuid;
  country_code = b'T' ∷ b'R' ∷ [];
  ip = replicate 16 0;
  len = 4;
  priority = pos 1;
  is_used = true;
  next_index = minus_one;
  prev_index = minus_one;
}

abbrev pub one_entry : GroupMmap
one_entry = record {
  group_table = λ b. record { group_id_hash = 0; country_code = []; head_slot_idx = pos 0 };
  id_table = λ i. if i == 1028 then pos 5 else minus_one;
  data_entries = λ i. entry;
  free_entry_idx = minus_one;
}

lookup_entry-one_entry : lookup_entry one_entry entry_uuid ≡ some (some 5)
unfolding lookup_entry uuid_eq id_bucket calculate_hash_from_uuid calculate_id_hash fnv_loop
    fnv_step fold_case bytes_le
lookup_entry-one_entry = refl

abbrev address : List ℕ
address = 10 ∷ 0 ∷ 0 ∷ 2 ∷ []

update_entry-found_example :
    (ip_size < length address
      → update_entry one_entry group_uuid entry_uuid [] address (pos 3) ≡ none)
    × (length address ≤ ip_size
        → (r : GroupMmap) × (update_entry one_entry group_uuid entry_uuid [] address (pos 3)
            ≡ some (true, r))
          × (entry_response (r.data_entries 5)
              ≡ record { ip = address; priority = pos 3; id = entry_uuid })
          × (r.group_table ≡ one_entry.group_table)
          × (r.id_table ≡ one_entry.id_table)
          × (r.free_entry_idx ≡ minus_one)
          × ((j : ℕ) → j ≢ 5 → r.data_entries j ≡ entry)
          × ((r.data_entries 5).next_index ≡ minus_one)
          × ((r.data_entries 5).prev_index ≡ minus_one))
update_entry-found_example =
    update_entry-found one_entry entry_uuid [] address (pos 3) 5 lookup_entry-one_entry

find_group-Leads_example :
    (r : ℕ) × (find_group one_entry 77 (b'T' ∷ b'R' ∷ []) ≡ some r)
    × Leads one_entry 77 (b'T' ∷ b'R' ∷ []) r
find_group-Leads_example = find_group-Leads one_entry 77 (b'T' ∷ b'R' ∷ [])
