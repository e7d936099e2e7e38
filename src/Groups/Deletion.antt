-- ===== src/Groups/Deletion.antt =====
-- The deletions of src/Cache/MmapIpGroup.cpp.
use edge_dns.Prelude.{
  ℕ, zero, suc, ◌||◌, not, Bool, true, false, ℤ, pos, negsuc, minus_one, ◌==ℤ◌, Option, none, some,
  ◌>>=◌, List, ltb, ◌==◌, if◌then◌else◌,
}
use edge_dns.Records.State.{CassUuid, no_bucket}
use edge_dns.Records.Ops.{uuid_eq}
use edge_dns.Groups.State.{GroupMmap, max_data_entries, entry_at, set_group, set_id_entry, zeroed}
use edge_dns.Groups.Cells.{calculate_hash_from_uuid, id_bucket, find_group, push_free_entry}
use edge_dns.Groups.Ops.{lookup_entry, set_prev_if, set_entry_next, set_group_head}

-- One round of the loop of `delete_record`.
unfoldable pub release_entry : GroupMmap → ℕ → GroupMmap
release_entry m i =
    let h = id_bucket (m.data_entries i).id in
    push_free_entry (if m.id_table h ==ℤ pos i then set_id_entry m h minus_one else m) i

unfoldable pub release_entries : ℕ → GroupMmap → ℤ → GroupMmap
release_entries zero m current = m
release_entries (suc fuel) m (negsuc k) = m
release_entries (suc fuel) m (pos n) =
    let rest = release_entries fuel (release_entry m n) (m.data_entries n).next_index in
    if ltb n max_data_entries then rest else m

-- `group_id_hash = 0` and `memset(country_code, 0, 7)`
unfoldable pub clear_group : GroupMmap → ℕ → GroupMmap
unfolding zeroed
clear_group m b = set_group m b (record (m.group_table b) {
  group_id_hash = 0;
  country_code = zeroed 7 (m.group_table b).country_code;
})

-- The priority that the source takes is not used.
unfoldable pub delete_group : GroupMmap → CassUuid → List ℕ → Option (Bool × GroupMmap)
unfolding clear_group
delete_group m group_id country = do
  b ← find_group m (calculate_hash_from_uuid group_id) country
  if (b == no_bucket) || ((m.group_table b).group_id_hash == 0) then some (false, m) else (do
    let head = (m.group_table b).head_slot_idx
    h ← entry_at head
    if not (uuid_eq (m.data_entries h).group_id group_id)
        then some (false, m)
        else (let m' = release_entries max_data_entries m head in
            some (true, set_group_head (clear_group m' b) b minus_one)))

unfoldable pub bypass_entry : GroupMmap → (b i : ℕ) → (prev next : ℤ) → Option GroupMmap
bypass_entry m b i prev next =
    if pos i ==ℤ (m.group_table b).head_slot_idx
    then some (set_group_head m b next)
    else (if prev ==ℤ minus_one
        then some m
        else do p ← entry_at prev; some (set_entry_next m p next))

unfoldable pub retire_group : GroupMmap → ℕ → GroupMmap
retire_group m b = if (m.group_table b).head_slot_idx ==ℤ minus_one then clear_group m b else m

unfoldable pub delete_entry : GroupMmap → (group_id id : CassUuid) → Option (Bool × GroupMmap)
unfolding lookup_entry
delete_entry m group_id id = do
  found ← lookup_entry m id
  elim found [
    | none ↦ some (false, m)
    | some i ↦ do
      let e = m.data_entries i
      b ← find_group m (calculate_hash_from_uuid group_id) e.country_code
      if (b == no_bucket) || not (uuid_eq e.group_id group_id) then some (false, m) else (do
        m₁ ← bypass_entry m b i e.prev_index e.next_index
        m₂ ← set_prev_if m₁ e.next_index e.prev_index
        some (true, set_id_entry (push_free_entry (retire_group m₂ b) i) (id_bucket id) minus_one))
  ]
