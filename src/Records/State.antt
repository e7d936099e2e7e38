-- ===== src/Records/State.antt =====
-- The memory-mapped record cache of include/Cache/MmapRecords.hpp: its three arrays, as functions
-- from indices, and the head of the free list. An index of type int32_t or int64_t is a ℤ.
use edge_dns.Prelude.{
  ℕ, ◌-◌, ◌^◌, ◌++◌, List, Bool, ℤ, pos, negsuc, Option, none, some, ltb, if◌then◌else◌, update,
  length, replicate,
}

abbrev pub max_data_records : ℕ
max_data_records = 100000

abbrev pub hash_table_size : ℕ
hash_table_size = 100000

abbrev pub id_hash_table_size : ℕ
id_hash_table_size = 100000

-- `payload.size()`
abbrev pub payload_size : ℕ
payload_size = 254

-- `static_cast<size_t>(-1)`
abbrev pub no_bucket : ℕ
no_bucket = 2 ^ 64 - 1

pub record CassUuid : Type 0 where
  pub time_and_version : ℕ
  pub clock_seq_and_node : ℕ

abbrev pub zero_uuid : CassUuid
zero_uuid = record { time_and_version = 0; clock_seq_and_node = 0 }

pub record IndexBucket : Type 0 where
  pub name_hash : ℕ
  pub qtype : ℤ
  pub head_slot_idx : ℤ

pub record DnsRecord : Type 0 where
  pub is_used : Bool
  pub next_index : ℤ
  pub prev_index : ℤ
  pub ttl : ℕ
  pub priority : ℕ
  pub is_geo : Bool
  pub is_proxy : Bool
  pub rdata_len : ℕ
  pub group_id : CassUuid
  pub id : CassUuid
  pub bucket_idx : ℕ
  pub payload : List ℕ

pub record DnsResponseData : Type 0 where
  pub ttl : ℕ
  pub priority : ℕ
  pub rdata : List ℕ
  pub group_id : CassUuid
  pub id : CassUuid
  pub bucket_idx : ℕ
  pub is_geo : Bool
  pub is_proxy : Bool

-- What `append_record` and `update_record` are given to store.
pub record RecordData : Type 0 where
  pub ttl : ℕ
  pub priority : ℕ
  pub group_id : CassUuid
  pub id : CassUuid
  pub is_geo : Bool
  pub is_proxy : Bool
  pub binary_rdata : List ℕ

-- `id_hash_table` is the array of the `slot_idx` fields of the ID buckets.
pub record Mmap : Type 0 where
  pub hash_table : ℕ → IndexBucket
  pub id_hash_table : ℕ → ℤ
  pub data_records : ℕ → DnsRecord
  pub free_list_head_idx : ℤ

-- The subscript of `data_records[i]`; outside the array it is a fault.
abbrev pub slot : ℤ → Option ℕ
slot (pos n) = if ltb n max_data_records then some n else none
slot (negsuc n) = none

-- The subscript of `hash_table[i]`, where `i` was read from a record.
abbrev pub bucket_at : ℕ → Option ℕ
bucket_at b = if ltb b hash_table_size then some b else none

-- `data_records[i] = r` and `hash_table[b] = k`
abbrev pub set_record : Mmap → ℕ → DnsRecord → Mmap
set_record m i r = record m { data_records = update m.data_records i r }

abbrev pub set_bucket : Mmap → ℕ → IndexBucket → Mmap
set_bucket m b k = record m { hash_table = update m.hash_table b k }

abbrev pub set_id_slot : Mmap → ℕ → ℤ → Mmap
set_id_slot m i s = record m { id_hash_table = update m.id_hash_table i s }

-- `memset` of the payload to 0 and `memcpy` of `bytes` to its front
abbrev pub padded : List ℕ → List ℕ
padded bytes = bytes ++ replicate (payload_size - length bytes) 0
