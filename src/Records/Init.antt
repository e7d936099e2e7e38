-- ===== src/Records/Init.antt =====
-- `Mmap::init` of src/Cache/MmapRecords.cpp.
use edge_dns.Prelude.{
  ℕ, zero, suc, Bool, true, false, pos, minus_one, ltb, if◌then◌else◌, replicate,
}
use edge_dns.Records.State.{
  IndexBucket, DnsRecord, Mmap, max_data_records, hash_table_size, id_hash_table_size, payload_size,
  set_record, set_id_slot,
}
use edge_dns.Records.Hash.{id_slot}

unfoldable pub fresh_record : DnsRecord → DnsRecord
fresh_record r = record r {
  is_used = false;
  next_index = minus_one;
  prev_index = minus_one;
  ttl = 0;
  priority = 0;
  rdata_len = 0;
  payload = replicate payload_size 0;
}

abbrev zero_bucket : IndexBucket
zero_bucket = record { name_hash = 0; qtype = pos 0; head_slot_idx = pos 0 }

-- A new file: every loop writes each cell of its array alone.
unfoldable pub clear_all : Mmap → Mmap
unfolding fresh_record
clear_all m = record m {
  hash_table = λ b. if ltb b hash_table_size then zero_bucket else m.hash_table b;
  id_hash_table = λ i. if ltb i id_hash_table_size then minus_one else m.id_hash_table i;
  data_records =
      λ i. if ltb i max_data_records then fresh_record (m.data_records i) else m.data_records i;
}

-- An old file: the ID table is built again; `n` counts the records that are left.
unfoldable pub index_ids : (n i : ℕ) → Mmap → Mmap
index_ids zero i m = m
index_ids (suc n) i m = index_ids n (suc i) (
    if (m.data_records i).is_used then set_id_slot m (id_slot (m.data_records i).id) (pos i) else m)

unfoldable pub reindex : Mmap → Mmap
reindex m = index_ids max_data_records 0 (record m {
  id_hash_table = λ i. if ltb i id_hash_table_size then minus_one else m.id_hash_table i;
})

unfoldable pub link_free : Mmap → ℕ → Mmap
link_free m i =
    record (set_record m i (record (m.data_records i) { next_index = m.free_list_head_idx })) {
      free_list_head_idx = pos i;
    }

-- The free list, from the last record down to the first.
unfoldable pub free_loop : ℕ → Mmap → Mmap
free_loop zero m = m
free_loop (suc i) m = free_loop i (if (m.data_records i).is_used then m else link_free m i)

-- `mapped` says whether `open`, `ftruncate` and `mmap` succeed, and `m` is what the file holds.
unfoldable pub init : (is_new_file mapped : Bool) → Mmap → Bool × Mmap
unfolding clear_all reindex
init is_new_file mapped m =
    if mapped
    then (
      true,
      free_loop max_data_records (record (if is_new_file then clear_all m else reindex m) {
        free_list_head_idx = minus_one;
      }),
    )
    else (false, m)
