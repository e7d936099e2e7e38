-- ===== src/Records/Ops.antt =====
-- The public operations of src/Cache/MmapRecords.cpp. The answer `none` is a fault: an access
-- outside an array, or a search that does not end.
use edge_dns.Prelude.{
  ℕ, zero, suc, ◌%◌, ◌&&◌, ◌||◌, not, Bool, true, false, ℤ, pos, negsuc, minus_one, ◌==ℤ◌, Option,
  none, some, ◌>>=◌, List, [], ◌∷◌, ltb, ◌==◌, if◌then◌else◌, length, take, replicate,
}
use edge_dns.Records.State.{
  CassUuid, IndexBucket, DnsRecord, DnsResponseData, RecordData, Mmap, max_data_records, no_bucket,
  payload_size, slot, bucket_at, set_record, set_bucket, set_id_slot, padded,
}
use edge_dns.Records.Hash.{calculate_hash, id_slot}
use edge_dns.Records.Cells.{find_bucket, pop_free_slot, push_free_slot}

unfoldable pub uuid_eq : CassUuid → CassUuid → Bool
uuid_eq a b =
    (a.clock_seq_and_node == b.clock_seq_and_node) && (a.time_and_version == b.time_and_version)

-- The answer for one record; the data of a geo record is left empty.
unfoldable pub response_of : DnsRecord → DnsResponseData
response_of r = record {
  ttl = r.ttl;
  priority = r.priority;
  rdata = if r.is_geo then [] else take r.rdata_len r.payload;
  group_id = r.group_id;
  id = r.id;
  bucket_idx = r.bucket_idx;
  is_geo = r.is_geo;
  is_proxy = r.is_proxy;
}

-- One round of the loop of `get_record` at record `n`; `rest` is what the later rounds add.
unfoldable pub visit : DnsRecord → ℕ → List DnsResponseData → List DnsResponseData
visit r n rest =
    if ltb n max_data_records && r.is_used
    then response_of r ∷ (if r.next_index ==ℤ pos n then [] else rest)
    else []

-- The loop; the fuel is what `visited` leaves of MAX_DATA_RECORDS.
unfoldable pub collect : ℕ → Mmap → ℤ → List DnsResponseData
collect zero m current = []
collect (suc fuel) m (negsuc k) = []
collect (suc fuel) m (pos n) =
    visit (m.data_records n) n (collect fuel m (m.data_records n).next_index)

-- `!out_records.empty()`
abbrev pub is_nonempty : List DnsResponseData → Bool
is_nonempty [] = false
is_nonempty (_ ∷ _) = true

unfoldable pub get_record : Mmap → List ℕ → ℤ → Option (Bool × List DnsResponseData)
get_record m wire_name qtype = do
  bucket_idx ← find_bucket m (calculate_hash wire_name) qtype
  if (bucket_idx == no_bucket) || ((m.hash_table bucket_idx).name_hash == 0)
      then some (false, [])
      else (let out = collect max_data_records m (m.hash_table bucket_idx).head_slot_idx in
          some (is_nonempty out, out))

-- The data that both writers store.
unfoldable pub with_rdata : DnsRecord → RecordData → DnsRecord
with_rdata r d = record r {
  ttl = d.ttl;
  priority = d.priority;
  group_id = d.group_id;
  is_geo = d.is_geo;
  is_proxy = d.is_proxy;
  rdata_len = if d.is_geo then 0 else length d.binary_rdata % 256;
  payload = if d.is_geo then replicate payload_size 0 else padded d.binary_rdata;
}

unfoldable pub filled : DnsRecord → RecordData → ℕ → DnsRecord
unfolding with_rdata
filled r d bucket_idx = record (with_rdata r d) {
  id = d.id;
  bucket_idx = bucket_idx;
  is_used = true;
}

-- The loop that looks for a used record behind a head that is not used.
unfoldable pub salvage_loop : ℕ → Mmap → ℤ → ℤ
salvage_loop zero m salvage = minus_one
salvage_loop (suc fuel) m (negsuc k) = minus_one
salvage_loop (suc fuel) m (pos n) =
    let rest = salvage_loop fuel m (m.data_records n).next_index in
    if not (ltb n max_data_records)
    then minus_one
    else (if (m.data_records n).is_used then pos n else rest)

unfoldable pub set_links : Mmap → ℕ → ℤ → Mmap
set_links m i next =
    set_record m i (record (m.data_records i) { next_index = next; prev_index = minus_one })

unfoldable pub set_prev : Mmap → ℕ → ℤ → Mmap
set_prev m i prev = set_record m i (record (m.data_records i) { prev_index = prev })

unfoldable pub set_next : Mmap → ℕ → ℤ → Mmap
set_next m i next = set_record m i (record (m.data_records i) { next_index = next })

unfoldable pub set_head : Mmap → ℕ → ℤ → Mmap
set_head m b head = set_bucket m b (record (m.hash_table b) { head_slot_idx = head })

-- `old_head == new_slot_idx || !data_records[old_head].is_used`
unfoldable pub is_stale : Mmap → ℤ → ℕ → Option Bool
is_stale m old_head i =
    if old_head ==ℤ pos i
    then some true
    else do o ← slot old_head; some (not (m.data_records o).is_used)

unfoldable pub salvage_head : Mmap → ℤ → ℕ → ℤ
salvage_head m (negsuc k) i = minus_one
salvage_head m (pos o) i =
    if not (o == i) && ltb o max_data_records
    then salvage_loop max_data_records m (m.data_records o).next_index
    else minus_one

-- Writes `data_records[salvage_head].prev_index` if there is one.
unfoldable pub set_prev_of : Mmap → ℤ → ℤ → Option Mmap
set_prev_of m s prev = if s ==ℤ minus_one then some m else do n ← slot s; some (set_prev m n prev)

-- Puts the filled record `i` at the front of its bucket's chain.
unfoldable pub link_record : Mmap → (bucket_idx hash : ℕ) → ℤ → ℕ → Option Mmap
unfolding is_stale
link_record m b hash qtype i =
    if (m.hash_table b).name_hash == 0
    then some (
        set_links
          (set_bucket m b (record { name_hash = hash; qtype = qtype; head_slot_idx = pos i })) i
          minus_one)
    else (do
      let old_head = (m.hash_table b).head_slot_idx
      stale ← is_stale m old_head i
      if stale
          then (let s = salvage_head m old_head i in
              set_prev_of (set_links (set_head m b (pos i)) i s) s (pos i))
          else (do
            o ← slot old_head
            some (set_head (set_links (set_prev m o (pos i)) i old_head) b (pos i))))

unfoldable pub append_record : Mmap → List ℕ → ℤ → RecordData → Option (Bool × Mmap)
append_record m wire_name qtype d =
    if not d.is_geo && ltb payload_size (length d.binary_rdata) then some (false, m) else (do
      let hash = calculate_hash wire_name
      b ← find_bucket m hash qtype
      if (b == no_bucket) || not (m.id_hash_table (id_slot d.id) ==ℤ minus_one)
          then some (false, m)
          else (do
            (new_slot_idx, m₁) ← pop_free_slot m
            if new_slot_idx ==ℤ minus_one then some (false, m₁) else (do
              i ← slot new_slot_idx
              let m₂ = set_id_slot m₁ (id_slot d.id) new_slot_idx
              m₃ ← link_record (set_record m₂ i (filled (m₂.data_records i) d b)) b hash qtype i
              some (true, m₃))))

-- The slot that the ID table gives for `id`: `none` where the callers answer false.
unfoldable pub lookup_id : Mmap → CassUuid → Option (Option ℕ)
lookup_id m id = if m.id_hash_table (id_slot id) ==ℤ minus_one then some none else do
  i ← slot (m.id_hash_table (id_slot id))
  if not (m.data_records i).is_used || not (uuid_eq (m.data_records i).id id)
      then some none
      else some (some i)

unfoldable pub update_record : Mmap → RecordData → Option (Bool × Mmap)
unfolding lookup_id with_rdata
update_record m d = do
  found ← lookup_id m d.id
  elim found [
    | none ↦ some (false, m)
    | some i ↦
        if not d.is_geo && ltb payload_size (length d.binary_rdata)
        then some (false, m)
        else some (true, set_record m i (with_rdata (m.data_records i) d))
  ]

-- The loop of `delete_record`, on what `visited` leaves of MAX_DATA_RECORDS.
unfoldable pub release_chain : ℕ → Mmap → ℤ → Mmap
release_chain zero m current = m
release_chain (suc fuel) m (negsuc k) = m
release_chain (suc fuel) m (pos n) =
    let rest = release_chain fuel (push_free_slot m n) (m.data_records n).next_index in
    if ltb n max_data_records then rest else m

abbrev pub empty_bucket : IndexBucket
empty_bucket = record { name_hash = 0; qtype = pos 0; head_slot_idx = minus_one }

unfoldable pub delete_record : Mmap → List ℕ → ℤ → Option (Bool × Mmap)
delete_record m wire_name qtype = do
  b ← find_bucket m (calculate_hash wire_name) qtype
  if (b == no_bucket) || ((m.hash_table b).name_hash == 0)
      then some (false, m)
      else (let m' = release_chain max_data_records m (m.hash_table b).head_slot_idx in
          some (true, set_bucket m' b empty_bucket))

-- Lines 328 to 335: the head of the bucket, or the record before, takes the next one.
unfoldable pub bypass : Mmap → (bucket_idx i : ℕ) → (prev next : ℤ) → Option Mmap
bypass m b i prev next =
    if pos i ==ℤ (m.hash_table b).head_slot_idx
    then some (set_head m b next)
    else (if prev ==ℤ minus_one then some m else (do p ← slot prev; some (set_next m p next)))

-- A bucket with no record left is emptied.
unfoldable pub retire : Mmap → ℕ → Mmap
retire m b =
    if (m.hash_table b).head_slot_idx ==ℤ minus_one
    then set_bucket m b (record (m.hash_table b) { name_hash = 0; qtype = pos 0 })
    else m

unfoldable pub unlink_record : Mmap → ℕ → Option Mmap
unlink_record m i = do
  let r = m.data_records i
  b ← bucket_at r.bucket_idx
  m₁ ← bypass m b i r.prev_index r.next_index
  m₂ ← set_prev_of m₁ r.next_index r.prev_index
  some (retire m₂ b)

unfoldable pub delete_record_from_uuid : Mmap → CassUuid → Option (Bool × Mmap)
unfolding lookup_id unlink_record
delete_record_from_uuid m id = do
  found ← lookup_id m id
  elim found [
    | none ↦ some (false, m)
    | some i ↦ do
      m₁ ← unlink_record m i
      some (true, set_id_slot (push_free_slot m₁ i) (id_slot id) minus_one)
  ]
