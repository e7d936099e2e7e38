-- ===== src/Records/Cells.antt =====
-- find_bucket, pop_free_slot and push_free_slot of src/Cache/MmapRecords.cpp.
use edge_dns.Prelude.{
  ℕ, zero, suc, ◌+◌, ◌&&◌, Bool, true, false, ℤ, pos, minus_one, ◌==ℤ◌, Option, none, some, ◌>>=◌,
  ◌==◌, if◌then◌else◌, replicate,
}
use edge_dns.Records.State.{
  IndexBucket, DnsRecord, Mmap, hash_table_size, no_bucket, payload_size, zero_uuid, slot,
  set_record, set_id_slot,
}
use edge_dns.Records.Hash.{mask, id_slot}

-- One test of the loop: the bucket is empty, or it is the name's.
unfoldable pub stops_at : IndexBucket → ℕ → ℤ → Bool
stops_at k hash qtype =
    if k.name_hash == 0 then true else (k.name_hash == hash) && (k.qtype ==ℤ qtype)

-- The `while (true)` loop, on fuel; `none` means that the fuel ran out.
unfoldable pub probe : ℕ → Mmap → ℕ → ℤ → (start index : ℕ) → Option ℕ
unfolding stops_at
probe zero m hash qtype start index = none
probe (suc fuel) m hash qtype start index =
    let next = mask (index + 1) in
    let rest = probe fuel m hash qtype start next in
    if stops_at (m.hash_table index) hash qtype
    then some index
    else (if next == start then some no_bucket else rest)

unfoldable pub find_bucket : Mmap → ℕ → ℤ → Option ℕ
find_bucket m hash qtype = probe hash_table_size m hash qtype (mask hash) (mask hash)

unfoldable pub pop_free_slot : Mmap → Option (ℤ × Mmap)
pop_free_slot m = if m.free_list_head_idx ==ℤ minus_one then some (minus_one, m) else do
  i ← slot m.free_list_head_idx
  let r = m.data_records i
  some (
    pos i,
    record (set_record m i
        (record r { is_used = true; next_index = minus_one; prev_index = minus_one })) {
          free_list_head_idx = r.next_index;
        },
  )

unfoldable pub cleared : DnsRecord → ℤ → DnsRecord
cleared r next = record r {
  is_used = false;
  payload = replicate payload_size 0;
  ttl = 0;
  priority = 0;
  rdata_len = 0;
  group_id = zero_uuid;
  id = zero_uuid;
  next_index = next;
  prev_index = minus_one;
  is_geo = false;
  is_proxy = false;
}

-- The ID bucket is cleared only where it points at this slot.
unfoldable pub release_id : Mmap → ℕ → Mmap
release_id m i =
    let h = id_slot (m.data_records i).id in
    if m.id_hash_table h ==ℤ pos i then set_id_slot m h minus_one else m

unfoldable pub push_free_slot : Mmap → ℕ → Mmap
unfolding release_id cleared
push_free_slot m i =
    let m' = release_id m i in
    record (set_record m' i (cleared (m.data_records i) m.free_list_head_idx)) {
      free_list_head_idx = pos i;
    }
