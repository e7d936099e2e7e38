-- ===== src/Groups/Ops.antt =====
-- The public operations of src/Cache/MmapIpGroup.cpp. The answer `none` is a fault: an access
-- outside an array, also of an address longer than `ip`, or a search that does not end.
use edge_dns.Prelude.{
  ℕ, zero, suc, ◌&&◌, ◌||◌, not, Bool, true, false, ℤ, pos, negsuc, minus_one, ◌==ℤ◌, Option, none,
  some, ◌>>=◌, List, [], ◌∷◌, ltb, ◌==◌, if◌then◌else◌, length, take,
}
use edge_dns.Records.State.{CassUuid, no_bucket}
use edge_dns.Records.Ops.{uuid_eq}
use edge_dns.Groups.State.{
  IpGroupEntry, GroupMmap, EntryResponse, max_data_entries, ip_size, entry_at, set_entry, set_group,
  set_id_entry, overwrite, zeroed,
}
use edge_dns.Groups.Cells.{calculate_hash_from_uuid, id_bucket, find_group, pop_free_entry}

unfoldable pub entry_response : IpGroupEntry → EntryResponse
entry_response e = record { ip = take e.len e.ip; priority = e.priority; id = e.id }

-- The loop; the fuel is what `visited` leaves of MAX_DATA_RECORDS.
unfoldable pub collect_entries : ℕ → GroupMmap → ℤ → List EntryResponse
unfolding entry_response
collect_entries zero m current = []
collect_entries (suc fuel) m (negsuc k) = []
collect_entries (suc fuel) m (pos n) =
    let e = m.data_entries n in
    let rest = collect_entries fuel m e.next_index in
    if ltb n max_data_entries && e.is_used
    then entry_response e ∷ (if e.next_index ==ℤ pos n then [] else rest)
    else []

unfoldable pub get_entries : GroupMmap → CassUuid → List ℕ → Option (List EntryResponse)
get_entries m group_id country = do
  b ← find_group m (calculate_hash_from_uuid group_id) country
  if (b == no_bucket) || ((m.group_table b).group_id_hash == 0)
      then some []
      else some (collect_entries max_data_entries m (m.group_table b).head_slot_idx)

-- `memcpy(ip, val, val.size())`
unfoldable pub store_ip : List ℕ → List ℕ → Option (List ℕ)
unfolding overwrite
store_ip val old = if ltb ip_size (length val) then none else some (overwrite (length val) val old)

unfoldable pub salvage_entry : ℕ → GroupMmap → ℤ → ℤ
salvage_entry zero m salvage = minus_one
salvage_entry (suc fuel) m (negsuc k) = minus_one
salvage_entry (suc fuel) m (pos n) =
    let rest = salvage_entry fuel m (m.data_entries n).next_index in
    if not (ltb n max_data_entries)
    then minus_one
    else (if (m.data_entries n).is_used then pos n else rest)

unfoldable pub set_entry_links : GroupMmap → ℕ → ℤ → GroupMmap
set_entry_links m i next =
    set_entry m i (record (m.data_entries i) { next_index = next; prev_index = minus_one })

unfoldable pub set_entry_prev : GroupMmap → ℕ → ℤ → GroupMmap
set_entry_prev m i prev = set_entry m i (record (m.data_entries i) { prev_index = prev })

unfoldable pub set_entry_next : GroupMmap → ℕ → ℤ → GroupMmap
set_entry_next m i next = set_entry m i (record (m.data_entries i) { next_index = next })

unfoldable pub set_group_head : GroupMmap → ℕ → ℤ → GroupMmap
set_group_head m b head = set_group m b (record (m.group_table b) { head_slot_idx = head })

unfoldable pub set_prev_if : GroupMmap → ℤ → ℤ → Option GroupMmap
set_prev_if m s prev =
    if s ==ℤ minus_one then some m else do n ← entry_at s; some (set_entry_prev m n prev)

unfoldable pub is_stale_entry : GroupMmap → ℤ → ℕ → Option Bool
is_stale_entry m old_head i =
    if old_head ==ℤ pos i
    then some true
    else do o ← entry_at old_head; some (not (m.data_entries o).is_used)

unfoldable pub salvage_from : GroupMmap → ℤ → ℕ → ℤ
salvage_from m (negsuc k) i = minus_one
salvage_from m (pos o) i =
    if not (o == i) && ltb o max_data_entries
    then salvage_entry max_data_entries m (m.data_entries o).next_index
    else minus_one

unfoldable pub link_entry : GroupMmap → (b hash : ℕ) → ℕ → Option GroupMmap
unfolding overwrite
link_entry m b hash i =
    if (m.group_table b).group_id_hash == 0
    then some (
        set_entry_links
          (set_group m b (record {
            group_id_hash = hash;
            country_code =
                overwrite 7 (m.data_entries i).country_code (m.group_table b).country_code;
            head_slot_idx = pos i;
          }))
          i minus_one)
    else (do
      let old_head = (m.group_table b).head_slot_idx
      stale ← is_stale_entry m old_head i
      if stale
          then (let s = salvage_from m old_head i in
              set_prev_if (set_entry_links (set_group_head m b (pos i)) i s) s (pos i))
          else (do
            o ← entry_at old_head
            some (
                set_group_head (set_entry_links (set_entry_prev m o (pos i)) i old_head) b
                  (pos i))))

unfoldable pub append_entry :
    GroupMmap → (group_id id : CassUuid) → (country val : List ℕ) → ℤ → Option (Bool × GroupMmap)
unfolding overwrite
append_entry m group_id id country val priority = do
  let hash = calculate_hash_from_uuid group_id
  b ← find_group m hash country
  if (b == no_bucket) || not (m.id_table (id_bucket id) ==ℤ minus_one) then some (false, m) else (do
    (new_slot_idx, m₁) ← pop_free_entry m
    if new_slot_idx ==ℤ minus_one then some (false, m₁) else (do
      i ← entry_at new_slot_idx
      let m₂ = set_id_entry m₁ (id_bucket id) new_slot_idx
      let e = m₂.data_entries i
      ip ← store_ip val e.ip
      m₃ ←
          link_entry
            (set_entry m₂ i (record e {
              group_id = group_id;
              id = id;
              ip = ip;
              len = length val;
              priority = priority;
              country_code = overwrite 7 country e.country_code;
              is_used = true;
            }))
            b hash i
      some (true, m₃)))

-- The entry that the ID table gives for `id`: `none` where the callers answer false.
unfoldable pub lookup_entry : GroupMmap → CassUuid → Option (Option ℕ)
lookup_entry m id = if m.id_table (id_bucket id) ==ℤ minus_one then some none else do
  i ← entry_at (m.id_table (id_bucket id))
  if not (m.data_entries i).is_used || not (uuid_eq (m.data_entries i).id id)
      then some none
      else some (some i)

unfoldable pub update_entry :
    GroupMmap → (group_id id : CassUuid) → (country val : List ℕ) → ℤ → Option (Bool × GroupMmap)
unfolding lookup_entry overwrite zeroed
update_entry m group_id id country val priority = do
  found ← lookup_entry m id
  elim found [
    | none ↦ some (false, m)
    | some i ↦
        let e = m.data_entries i in
        if not (uuid_eq e.group_id group_id) then some (false, m) else (do
          ip ← store_ip val (zeroed ip_size e.ip)
          some (
            true,
            set_entry m i (record e {
              ip = ip;
              len = length val;
              priority = priority;
              country_code = overwrite 7 country e.country_code;
            }),
          ))
  ]
