-- ===== src/Groups/Cells.antt =====
-- The private functions of src/Cache/MmapIpGroup.cpp. Its hash is the record cache's hash of an ID.
use edge_dns.Prelude.{
  ℕ, zero, suc, ◌+◌, ◌&&◌, Bool, true, false, ℤ, pos, minus_one, ◌==ℤ◌, List, Option, none, some,
  ◌>>=◌, ◌==◌, if◌then◌else◌, bit_and, ◌-◌,
}
use edge_dns.Records.State.{CassUuid, no_bucket, zero_uuid}
use edge_dns.Records.Hash.{calculate_id_hash, mask}
use edge_dns.Groups.State.{
  GroupBucket, GroupMmap, bucket_count, id_bucket_count, entry_at, set_entry, zeroed, same_string,
}

-- `calculate_hash_from_uuid`
unfoldable pub calculate_hash_from_uuid : CassUuid → ℕ
calculate_hash_from_uuid uuid = calculate_id_hash uuid

unfoldable pub id_bucket : CassUuid → ℕ
unfolding calculate_hash_from_uuid
id_bucket id = bit_and (calculate_hash_from_uuid id) (id_bucket_count - 1)

-- One test of the loop: the bucket is empty, or it is the group's for the country.
unfoldable pub ends_at : GroupBucket → ℕ → List ℕ → Bool
ends_at k hash country =
    if k.group_id_hash == 0
    then true
    else (k.group_id_hash == hash) && same_string 8 k.country_code country

unfoldable pub search_group : ℕ → GroupMmap → ℕ → List ℕ → (start index : ℕ) → Option ℕ
unfolding ends_at
search_group zero m hash country start index = none
search_group (suc fuel) m hash country start index =
    let next = mask (index + 1) in
    let rest = search_group fuel m hash country start next in
    if ends_at (m.group_table index) hash country
    then some index
    else (if next == start then some no_bucket else rest)

unfoldable pub find_group : GroupMmap → ℕ → List ℕ → Option ℕ
find_group m hash country = search_group bucket_count m hash country (mask hash) (mask hash)

unfoldable pub pop_free_entry : GroupMmap → Option (ℤ × GroupMmap)
pop_free_entry m = if m.free_entry_idx ==ℤ minus_one then some (minus_one, m) else do
  i ← entry_at m.free_entry_idx
  let e = m.data_entries i
  some (
    pos i,
    record (set_entry m i
        (record e { is_used = true; next_index = minus_one; prev_index = minus_one })) {
          free_entry_idx = e.next_index;
        },
  )

unfoldable pub push_free_entry : GroupMmap → ℕ → GroupMmap
unfolding zeroed
push_free_entry m i =
    let e = m.data_entries i in
    record (set_entry m i (record e {
      is_used = false;
      country_code = zeroed 7 e.country_code;
      ip = zeroed 12 e.ip;
      group_id = zero_uuid;
      id = zero_uuid;
      priority = pos 0;
      next_index = m.free_entry_idx;
      prev_index = minus_one;
    })) { free_entry_idx = pos i }
