-- ===== src/Groups/State.antt =====
-- The state of the IP group cache. A character array is the list of its bytes.
use edge_dns.Prelude.{
  ℕ, zero, suc, ◌++◌, Bool, true, false, ℤ, pos, negsuc, List, [], ◌∷◌, Option, none, some, ltb,
  ◌==◌, if◌then◌else◌, update, take, drop, replicate,
}
use edge_dns.Records.State.{CassUuid}

abbrev pub max_data_entries : ℕ
max_data_entries = 100000

abbrev pub bucket_count : ℕ
bucket_count = 100000

abbrev pub id_bucket_count : ℕ
id_bucket_count = 100000

-- `sizeof(ip)`
abbrev pub ip_size : ℕ
ip_size = 16

-- `country_code` has 8 bytes.
pub record GroupBucket : Type 0 where
  pub group_id_hash : ℕ
  pub country_code : List ℕ
  pub head_slot_idx : ℤ

-- `country_code` has 15 bytes and `ip` has 16.
pub record IpGroupEntry : Type 0 where
  pub group_id : CassUuid
  pub id : CassUuid
  pub country_code : List ℕ
  pub ip : List ℕ
  pub len : ℕ
  pub priority : ℤ
  pub is_used : Bool
  pub next_index : ℤ
  pub prev_index : ℤ

pub record GroupMmap : Type 0 where
  pub group_table : ℕ → GroupBucket
  pub id_table : ℕ → ℤ
  pub data_entries : ℕ → IpGroupEntry
  pub free_entry_idx : ℤ

pub record EntryResponse : Type 0 where
  pub ip : List ℕ
  pub priority : ℤ
  pub id : CassUuid

abbrev pub entry_at : ℤ → Option ℕ
entry_at (pos n) = if ltb n max_data_entries then some n else none
entry_at (negsuc n) = none

abbrev pub set_entry : GroupMmap → ℕ → IpGroupEntry → GroupMmap
set_entry m i e = record m { data_entries = update m.data_entries i e }

abbrev pub set_group : GroupMmap → ℕ → GroupBucket → GroupMmap
set_group m b k = record m { group_table = update m.group_table b k }

abbrev pub set_id_entry : GroupMmap → ℕ → ℤ → GroupMmap
set_id_entry m i s = record m { id_table = update m.id_table i s }

-- `memcpy(old, bytes, n)` and `memset(old, 0, n)`
unfoldable pub overwrite : ℕ → List ℕ → List ℕ → List ℕ
overwrite n bytes old = take n bytes ++ drop n old

unfoldable pub zeroed : ℕ → List ℕ → List ℕ
zeroed n old = replicate n 0 ++ drop n old

-- `strncmp(a, b, n) == 0`, where a string that ends is followed by a zero
unfoldable pub same_string : ℕ → List ℕ → List ℕ → Bool
same_string zero a b = true
same_string (suc n) [] [] = true
same_string (suc n) [] (d ∷ b) = d == 0
same_string (suc n) (c ∷ a) [] = c == 0
same_string (suc n) (c ∷ a) (d ∷ b) =
    let rest = same_string n a b in if c == d then (if c == 0 then true else rest) else false
