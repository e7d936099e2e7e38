-- ===== src/Groups/Init.antt =====
-- `Mmap::init` of src/Cache/MmapIpGroup.cpp.
use edge_dns.Prelude.{
  ℕ, zero, suc, Bool, true, false, pos, minus_one, ltb, if◌then◌else◌, replicate,
}
use edge_dns.Records.State.{zero_uuid}
use edge_dns.Groups.State.{
  GroupBucket, IpGroupEntry, GroupMmap, max_data_entries, bucket_count, id_bucket_count, set_entry,
  set_id_entry, zeroed,
}
use edge_dns.Groups.Cells.{id_bucket}

unfoldable pub fresh_entry : IpGroupEntry → IpGroupEntry
unfolding zeroed
fresh_entry e = record e {
  id = zero_uuid;
  group_id = zero_uuid;
  priority = pos 0;
  is_used = false;
  next_index = minus_one;
  prev_index = minus_one;
  country_code = zeroed 7 e.country_code;
  ip = zeroed 12 e.ip;
}

abbrev pub zero_group : GroupBucket
zero_group = record { group_id_hash = 0; country_code = replicate 8 0; head_slot_idx = pos 0 }

-- A new file: every loop writes each cell of its array alone.
unfoldable pub clear_entries : GroupMmap → GroupMmap
unfolding fresh_entry
clear_entries m = record m {
  group_table = λ b. if ltb b bucket_count then zero_group else m.group_table b;
  id_table = λ i. if ltb i id_bucket_count then minus_one else m.id_table i;
  data_entries =
      λ i. if ltb i max_data_entries then fresh_entry (m.data_entries i) else m.data_entries i;
}

-- An old file: the ID table is built again; `n` counts the entries that are left.
unfoldable pub index_entries : (n i : ℕ) → GroupMmap → GroupMmap
index_entries zero i m = m
index_entries (suc n) i m = index_entries n (suc i) (
    if (m.data_entries i).is_used
    then set_id_entry m (id_bucket (m.data_entries i).id) (pos i)
    else m)

unfoldable pub reindex_entries : GroupMmap → GroupMmap
reindex_entries m =
    index_entries max_data_entries 0
      (record m { id_table = λ i. if ltb i id_bucket_count then minus_one else m.id_table i })

unfoldable pub link_free_entry : GroupMmap → ℕ → GroupMmap
link_free_entry m i =
    record (set_entry m i (record (m.data_entries i) { next_index = m.free_entry_idx })) {
      free_entry_idx = pos i;
    }

-- The free list, from the last entry down to the first.
unfoldable pub free_entries : ℕ → GroupMmap → GroupMmap
free_entries zero m = m
free_entries (suc i) m =
    free_entries i (if (m.data_entries i).is_used then m else link_free_entry m i)

-- `mapped` says whether `open`, `ftruncate` and `mmap` succeed, and `m` is what the file holds.
unfoldable pub init_groups : (is_new_file mapped : Bool) → GroupMmap → Bool × GroupMmap
unfolding clear_entries reindex_entries
init_groups is_new_file mapped m =
    if mapped
    then (
      true,
      free_entries max_data_entries
          (record (if is_new_file then clear_entries m else reindex_entries m) {
            free_entry_idx = minus_one;
          }),
    )
    else (false, m)
