-- ===== src/Sync/Handler.antt =====
-- The requests, lines 280 to 600 of src/Core/Core.cpp. The answer `none` is a fault: one of the
-- caches', an exception, or a number that is too large for `atoi`.
use edge_dns.Prelude.{
  ℕ, ◌-◌, ◌&&◌, ◌||◌, not, Bool, true, false, pos, List, [], ◌∷◌, ◌++◌, Option, none, some, ◌>>=◌,
  ◌==◌, if◌then◌else◌, get_elem?, length, replicate,
}
use edge_dns.Records.State.{CassUuid, Mmap, RecordData}
use edge_dns.Records.Ops.{append_record, update_record, delete_record_from_uuid}
use edge_dns.Groups.State.{GroupMmap, EntryResponse}
use edge_dns.Groups.Ops.{get_entries, append_entry, update_entry}
use edge_dns.Groups.Deletion.{delete_entry}
use edge_dns.Wire.Codec.{string_to_wire}
use edge_dns.Wire.RData.{generate_rdata}
use edge_dns.Sync.Key
use edge_dns.Sync.Params.{get_param, c_string}
use edge_dns.Sync.Numbers.{atoi, to_unsigned}
use edge_dns.Sync.Request.{RecordParams, EntryParams, read_record_params, read_entry_params}

-- The three texts: `400 Bad Request`, and `200 OK` with the body 0 or 1.
pub data SyncResponse : Type 0 where
  bad_request : SyncResponse
  body_0 : SyncResponse
  body_1 : SyncResponse

-- The byte at `i` of an array that was zero before the string was copied there.
unfoldable pub char_at : List ℕ → ℕ → ℕ
char_at s i = elim (get_elem? s i) [ none ↦ 0 | some c ↦ c ]

-- The whole array of `n` bytes.
unfoldable pub array_of : ℕ → List ℕ → List ℕ
array_of n s = s ++ replicate (n - length s) 0

-- `uuid_of` stands for `cass_uuid_from_string`: what the variable holds after the call.
module _ (uuid_of : List ℕ → CassUuid) where
  unfoldable pub data_of : RecordParams → Bool → List ℕ → Option RecordData
  unfolding char_at
  data_of p is_geo rdata = do
    ttl ← atoi p.ttl
    priority ← atoi p.priority
    some (record {
      ttl = to_unsigned 32 ttl;
      priority = to_unsigned 16 priority;
      group_id = uuid_of p.group_id;
      id = uuid_of p.db_id;
      is_geo = is_geo;
      is_proxy = char_at p.is_proxy 0 == b'1';
      binary_rdata = rdata;
    })

  -- The data of a record with a value, whose type the value is read as.
  unfoldable pub value_data : RecordParams → List ℕ → Option RecordData
  unfolding data_of
  value_data p value = do
    qtype ← atoi p.rec_type
    rdata ← generate_rdata value qtype
    data_of p false rdata

  unfoldable pub add_record : Mmap → RecordParams → RecordData → Option Mmap
  add_record m p d = do
    qtype ← atoi p.rec_type
    (done, r) ← append_record m (string_to_wire p.name true) qtype d
    some r

  unfoldable pub replace_record : Mmap → RecordParams → RecordData → Option Mmap
  unfolding add_record
  replace_record m p d = do
    (done, r) ← update_record m d
    if done then some r else (do (gone, t) ← delete_record_from_uuid r d.id; add_record t p d)

  -- What `1` and `2` have in common: with `store`, the data of a geo record, or those of the value.
  unfoldable pub store_record :
      (Mmap → RecordParams → RecordData → Option Mmap)
      → List ℕ
      → Mmap
      → RecordParams
      → Option (SyncResponse × Mmap)
  unfolding value_data char_at
  store_record store text m p =
      if char_at p.is_geo 0 == b'1'
      then (do d ← data_of p true []; r ← store m p d; some (body_0, r))
      else elim (get_param text Key.value 4096) [
        | none ↦ some (body_1, m)
        | some value ↦ do d ← value_data p value; r ← store m p d; some (body_0, r)
      ]

  unfoldable pub remove_record : ℕ → Mmap → Option (List ℕ) → Option (SyncResponse × Mmap)
  remove_record op m none = some (bad_request, m)
  remove_record op m (some db_id) =
      if op == b'3'
      then (do (gone, r) ← delete_record_from_uuid m (uuid_of db_id); some (body_0, r))
      else some (bad_request, m)

  -- With the parameters that `1` and `2` need.
  unfoldable pub store_by : List ℕ → ℕ → Mmap → RecordParams → Option (SyncResponse × Mmap)
  unfolding store_record add_record replace_record
  store_by text op m p =
      if op == b'1'
      then store_record add_record text m p
      else (if op == b'2' then store_record replace_record text m p else some (bad_request, m))

  unfoldable pub records_with :
      List ℕ → ℕ → Mmap → Option RecordParams → Option (SyncResponse × Mmap)
  unfolding store_by remove_record
  records_with text op m none = remove_record op m (get_param text Key.db_id 40)
  records_with text op m (some p) = store_by text op m p

  unfoldable pub handle_records : List ℕ → ℕ → Mmap → Option (SyncResponse × Mmap)
  unfolding records_with
  handle_records text op m = records_with text op m (read_record_params text)

  unfoldable pub add_ip : GroupMmap → EntryParams → List ℕ → Option GroupMmap
  unfolding array_of
  add_ip g p rdata = do
    priority ← atoi p.priority
    (done, r) ←
        append_entry g (uuid_of p.group_id) (uuid_of p.db_id) (array_of 32 p.location_code) rdata
          priority
    some r

  unfoldable pub replace_ip : GroupMmap → EntryParams → List ℕ → Option GroupMmap
  unfolding add_ip
  replace_ip g p rdata = do
    priority ← atoi p.priority
    (done, r) ←
        update_entry g (uuid_of p.group_id) (uuid_of p.db_id) (array_of 32 p.location_code) rdata
          priority
    if done then some r else (do
      (gone, t) ← delete_entry r (uuid_of p.group_id) (uuid_of p.db_id)
      add_ip t p rdata)

  unfoldable pub store_ip_of : ℕ → GroupMmap → EntryParams → Option (SyncResponse × GroupMmap)
  unfolding add_ip replace_ip
  store_ip_of op g p =
      if op == b'1'
      then (do rdata ← generate_rdata p.ip_address (pos 1); r ← add_ip g p rdata; some (body_0, r))
      else (if op == b'2'
          then (do
            rdata ← generate_rdata p.ip_address (pos 1)
            r ← replace_ip g p rdata
            some (body_0, r))
          else some (bad_request, g))

  unfoldable pub remove_ip :
      ℕ → GroupMmap → Option (List ℕ) → Option (List ℕ) → Option (SyncResponse × GroupMmap)
  remove_ip op g none db_id = some (bad_request, g)
  remove_ip op g (some group_id) none = some (bad_request, g)
  remove_ip op g (some group_id) (some db_id) =
      if op == b'3'
      then (do (gone, r) ← delete_entry g (uuid_of group_id) (uuid_of db_id); some (body_0, r))
      else some (bad_request, g)

  unfoldable pub is_empty : List EntryResponse → Bool
  is_empty [] = true
  is_empty (_ ∷ _) = false

  unfoldable pub entries_with :
      List ℕ → ℕ → GroupMmap → Option EntryParams → Option (SyncResponse × GroupMmap)
  unfolding store_ip_of remove_ip array_of is_empty
  entries_with text op g none =
      remove_ip op g (get_param text Key.group_id 40) (get_param text Key.db_id 40)
  entries_with text op g (some p) = do
    out ← get_entries g (uuid_of p.group_id) (array_of 32 p.location_code)
    if is_empty out && (op == b'3') then some (body_1, g) else store_ip_of op g p

  unfoldable pub handle_entries : List ℕ → ℕ → GroupMmap → Option (SyncResponse × GroupMmap)
  unfolding entries_with
  handle_entries text op g = entries_with text op g (read_entry_params text)

  unfoldable pub is_op : ℕ → Bool
  is_op op = (op == b'1') || (op == b'2') || (op == b'3')

  -- With the value of `type`.
  unfoldable pub dispatch :
      List ℕ → List ℕ → Mmap → GroupMmap → Option (SyncResponse × Mmap × GroupMmap)
  unfolding handle_records handle_entries is_op char_at
  dispatch text kind m g =
      if not (is_op (char_at kind 2))
      then some (bad_request, m, g)
      else (if (char_at kind 0 == b'0') && (char_at kind 1 == b'-')
          then (do (response, r) ← handle_records text (char_at kind 2) m; some (response, r, g))
          else (if (char_at kind 0 == b'1') && (char_at kind 1 == b'-')
              then (do
                (response, r) ← handle_entries text (char_at kind 2) g
                some (response, m, r))
              else some (bad_request, m, g)))

  unfoldable pub sync_with :
      List ℕ → Mmap → GroupMmap → Option (List ℕ) → Option (SyncResponse × Mmap × GroupMmap)
  unfolding dispatch
  sync_with text m g none = some (bad_request, m, g)
  sync_with text m g (some kind) = dispatch text kind m g

  unfoldable pub handle_sync : List ℕ → Mmap → GroupMmap → Option (SyncResponse × Mmap × GroupMmap)
  unfolding sync_with
  handle_sync query_buf m g = do
    text ← c_string query_buf
    sync_with text m g (get_param text Key.type 32)
