-- ===== src/Records/Valid.antt =====
-- What a well-formed record cache is: doubly linked chains of used records, a free list of the
-- others, and an ID table that leads to each used record.
use edge_dns.Prelude.{ℕ, ◌<◌, ◌≡◌, ◌≢◌, Bool, true, false, pos, negsuc, minus_one}
use edge_dns.Records.State.{Mmap, max_data_records, hash_table_size, id_hash_table_size}
use edge_dns.Records.Hash.{id_slot}

abbrev pub IsUsed : Mmap → ℕ → Bool → Type 0
IsUsed m s b = (m.data_records s).is_used ≡ b

-- The chains: a used record's neighbours are used records of its bucket that point back, the first
-- of a chain is its bucket's head, and every occupied bucket has one.
pub record ChainsValid (m : Mmap) : Type 0 where
  pub next_pos :
      (s n : ℕ)
      → s < max_data_records
      → IsUsed m s true
      → (m.data_records s).next_index ≡ pos n
      → (n < max_data_records)
        × IsUsed m n true
        × ((m.data_records n).prev_index ≡ pos s)
        × ((m.data_records n).bucket_idx ≡ (m.data_records s).bucket_idx)
  pub next_neg :
      (s k : ℕ)
      → s < max_data_records
      → IsUsed m s true
      → (m.data_records s).next_index ≡ negsuc k
      → k ≡ 0
  pub prev_pos :
      (s p : ℕ)
      → s < max_data_records
      → IsUsed m s true
      → (m.data_records s).prev_index ≡ pos p
      → (p < max_data_records)
        × IsUsed m p true
        × ((m.data_records p).next_index ≡ pos s)
        × ((m.data_records p).bucket_idx ≡ (m.data_records s).bucket_idx)
  pub prev_neg :
      (s k : ℕ)
      → s < max_data_records
      → IsUsed m s true
      → (m.data_records s).prev_index ≡ negsuc k
      → (k ≡ 0) × ((m.hash_table (m.data_records s).bucket_idx).head_slot_idx ≡ pos s)
  pub bucket_used :
      (s : ℕ)
      → s < max_data_records
      → IsUsed m s true
      → ((m.data_records s).bucket_idx < hash_table_size)
        × ((m.hash_table (m.data_records s).bucket_idx).name_hash ≢ 0)
  pub head_pos :
      (b h : ℕ)
      → b < hash_table_size
      → (m.hash_table b).name_hash ≢ 0
      → (m.hash_table b).head_slot_idx ≡ pos h
      → (h < max_data_records)
        × IsUsed m h true
        × ((m.data_records h).bucket_idx ≡ b)
        × ((m.data_records h).prev_index ≡ minus_one)
  pub head_neg :
      (b k : ℕ)
      → b < hash_table_size
      → (m.hash_table b).head_slot_idx ≡ negsuc k
      → (m.hash_table b).name_hash ≡ 0

-- The free list: it runs through records that are not used, and no two of its links meet.
pub record FreeValid (m : Mmap) : Type 0 where
  pub free_pos : (f : ℕ) → m.free_list_head_idx ≡ pos f → (f < max_data_records) × IsUsed m f false
  pub free_neg : (k : ℕ) → m.free_list_head_idx ≡ negsuc k → k ≡ 0
  pub link_pos :
      (s n : ℕ)
      → s < max_data_records
      → IsUsed m s false
      → (m.data_records s).next_index ≡ pos n
      → (n < max_data_records) × IsUsed m n false × (m.free_list_head_idx ≢ pos n)
  pub link_neg :
      (s k : ℕ)
      → s < max_data_records
      → IsUsed m s false
      → (m.data_records s).next_index ≡ negsuc k
      → k ≡ 0
  pub link_injective :
      (s t n : ℕ)
      → s < max_data_records
      → t < max_data_records
      → IsUsed m s false
      → IsUsed m t false
      → (m.data_records s).next_index ≡ pos n
      → (m.data_records t).next_index ≡ pos n
      → s ≡ t

-- The ID table: each used record stands in the bucket of its ID, and no bucket leads elsewhere.
pub record IdsValid (m : Mmap) : Type 0 where
  pub id_used :
      (s : ℕ)
      → s < max_data_records
      → IsUsed m s true
      → m.id_hash_table (id_slot (m.data_records s).id) ≡ pos s
  pub entry_pos :
      (i s : ℕ)
      → i < id_hash_table_size
      → m.id_hash_table i ≡ pos s
      → (s < max_data_records) × IsUsed m s true × (id_slot (m.data_records s).id ≡ i)
  pub entry_neg : (i k : ℕ) → i < id_hash_table_size → m.id_hash_table i ≡ negsuc k → k ≡ 0

-- The chains have no cycle: each record is older than the one before it.
pub record OrderValid (m : Mmap) : Type 0 where
  pub age : ℕ → ℕ
  pub clock : ℕ
  pub older :
      (s n : ℕ)
      → s < max_data_records
      → IsUsed m s true
      → (m.data_records s).next_index ≡ pos n
      → age n < age s
  pub past : (s : ℕ) → s < max_data_records → IsUsed m s true → age s < clock

pub record IsValid (m : Mmap) : Type 0 where
  pub chains : ChainsValid m
  pub order : OrderValid m
  pub free : FreeValid m
  pub ids : IdsValid m
