-- ===== src/Records/Hash.antt =====
-- The FNV-1a hashes of src/Cache/MmapRecords.cpp, and the mask that turns one into an index.
use edge_dns.Prelude.{
  ℕ, zero, suc, ◌-◌, ◌+◌, ◌*◌, ◌/◌, ◌%◌, ◌^◌, bit_xor, bit_and, List, [], ◌∷◌, ◌++◌, ◌&&◌, leb,
  if◌then◌else◌,
}
use edge_dns.Records.State.{CassUuid, id_hash_table_size, hash_table_size}

unfoldable pub fold_case : ℕ → ℕ
fold_case byte = if leb 65 byte && leb byte 90 then byte + 32 else byte

unfoldable pub fnv_step : ℕ → ℕ → ℕ
unfolding fold_case
fnv_step hash byte = bit_xor hash (fold_case byte) * 1099511628211 % 2 ^ 64

unfoldable pub fnv_loop : ℕ → List ℕ → ℕ
unfolding fnv_step
fnv_loop hash [] = hash
fnv_loop hash (byte ∷ bytes) = fnv_loop (fnv_step hash byte) bytes

-- `calculate_hash(wire_name, len)`: the name is the list of its `len` bytes.
unfoldable pub calculate_hash : List ℕ → ℕ
unfolding fnv_loop
calculate_hash wire_name = fnv_loop 14695981039346656037 wire_name

-- `memcpy` of a uint64_t to bytes, least significant byte first.
unfoldable pub bytes_le : ℕ → ℕ → List ℕ
bytes_le zero v = []
bytes_le (suc n) v = (v % 256) ∷ bytes_le n (v / 256)

unfoldable pub calculate_id_hash : CassUuid → ℕ
unfolding fnv_loop bytes_le
calculate_id_hash uuid =
    fnv_loop 14695981039346656037
      (bytes_le 8 uuid.time_and_version ++ bytes_le 8 uuid.clock_seq_and_node)

-- `calculate_id_hash(id) & (ID_HASH_TABLE_SIZE - 1)`
unfoldable pub id_slot : CassUuid → ℕ
unfolding calculate_id_hash
id_slot id = bit_and (calculate_id_hash id) (id_hash_table_size - 1)

-- `index & (HASH_TABLE_SIZE - 1)`
unfoldable pub mask : ℕ → ℕ
mask index = bit_and index (hash_table_size - 1)
