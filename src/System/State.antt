-- ===== src/System/State.antt =====
-- `System::Mmap` of src/Cache/MmapSystem.cpp. The answer `none` is an access outside the array.
use edge_dns.Prelude.{
  ℕ, ◌+◌, Bool, true, false, ℤ, pos, negsuc, Option, none, some, ◌>>=◌, ltb, if◌then◌else◌, update,
}
use edge_dns.Records.State.{CassUuid, zero_uuid}

abbrev pub table_size : ℕ
table_size = 2

pub record SystemMetadata : Type 0 where
  pub type : ℕ
  pub version : CassUuid

pub record SystemMmap : Type 0 where
  pub system_metadata : ℕ → SystemMetadata
  pub free_head : ℤ

abbrev pub row_at : ℤ → Option ℕ
row_at (pos n) = if ltb n table_size then some n else none
row_at (negsuc n) = none

abbrev pub set_row : SystemMmap → ℕ → SystemMetadata → SystemMmap
set_row m i r = record m { system_metadata = update m.system_metadata i r }

abbrev pub free_row : SystemMetadata
free_row = record { type = table_size + 1; version = zero_uuid }

-- `mapped` says whether `open`, `ftruncate` and `mmap` succeed, and `m` is what the file holds.
unfoldable pub init_system : (is_new_file mapped : Bool) → SystemMmap → Bool × SystemMmap
init_system is_new_file mapped m =
    if mapped
    then (
      true,
      if is_new_file
          then record m {
            system_metadata = λ i. if ltb i table_size then free_row else m.system_metadata i;
            free_head = pos 0;
          }
          else m,
    )
    else (false, m)

-- `type < 0 || type > MAX_DATA_RECORDS`
unfoldable pub is_outside : ℤ → Bool
is_outside (pos n) = ltb table_size n
is_outside (negsuc n) = true

-- `false` with no version, or `true` with the version.
unfoldable pub get_version : SystemMmap → ℤ → Option (Option CassUuid)
unfolding is_outside
get_version m type = if is_outside type then some none else do
  i ← row_at type
  if ltb table_size (m.system_metadata i).type
      then some none
      else some (some (m.system_metadata i).version)

unfoldable pub append_version : SystemMmap → ℤ → CassUuid → Option (Bool × SystemMmap)
append_version m type version = do
  i ← row_at type
  some (true, set_row m i (record { type = i; version = version }))

unfoldable pub delete_version : SystemMmap → ℤ → Option (Bool × SystemMmap)
delete_version m type = do i ← row_at type; some (true, set_row m i free_row)
